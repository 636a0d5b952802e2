-- ===== src/Query/Executor/Logged.antt =====
-- What the log of internal/store/repo/query_log.go holds of a query that went through the pipeline
-- of internal/query/executor.go.
use pivot.Common.{
  ℕ, suc, ◌≡◌, ◌⊎◌, refl, subst, ◌∙◌, inl, inr, Bool, true, false, not, ◌&&◌, Option, none, some,
  List, [], ◌∷◌, ◌++◌, Text, nat_eq, ◌==◌, trim_space, Result, ok, err, Option-cases, Result-cases,
  arith,
}
use pivot.Tenant.{Uuid, Scope, Context, from_context}
use pivot.Query.Cache.{Entry}
use pivot.Query.Stream.{
  Column, Cell, LogRow, SourceError, World, LoggedStream, read, outcome, finished_row, update_log,
  or_else, finish, forget, store, close,
}
use pivot.Query.Stream.Counted.{
  Ends, outcome-Ends, cause_of, Counted, ReadTo, read-ReadTo, store_counts, close_log,
}
use pivot.Query.Plan.{Connection, Plan, Request, QueryError, not_executed, effective_timeout}
use pivot.Query.Executor.{
  Env, Execution, cache_key, started_row, start_log, stream_of, serve_from_cache, execute_plan,
  run_plan, look_up, execute,
}
use pivot.Query.Executor.Order.{is_before, execute_paths}
use pivot.Query.Executor.Held.{
  SameHolds, read-SameHolds, at_work, execute_plan-ok, execute_plan-err, execute_plan-unrecorded,
  execute_plan-closed,
}
use pivot.Query.Executor.Settled.{handed_back, run_plan-free, run_plan-slot, run_plan-full}

-- No row has the id yet.
unfoldable pub id_free : Uuid → List LogRow → Bool
id_free id [] = true
id_free id (row ∷ rows) = not (row.id == id) && id_free id rows

update_log-append :
    (id : Uuid) (f : LogRow → LogRow) (rows : List LogRow) (row : LogRow)
    → id_free id rows ≡ true
    → row.id ≡ id
    → update_log id f (rows ++ (row ∷ [])) ≡ rows ++ (f row ∷ [])
unfolding update_log id_free
update_log-append id f [] row h e = ground (arith, e)
update_log-append id f (r ∷ rows) row h e = ground (arith, update_log-append id f rows row)

update_log-last :
    (id entry : Uuid) (f : LogRow → LogRow) (rows log : List LogRow) (row : LogRow)
    → id_free id rows ≡ true
    → row.id ≡ id
    → entry ≡ id
    → log ≡ rows ++ (row ∷ [])
    → update_log entry f log ≡ rows ++ (f row ∷ [])
update_log-last id entry f rows log row free e same l =
    rw (same, l) (update_log-append id f rows row free e)

-- What an answer leaves in the log, where this row is the one with which the query starts: the row,
-- that a new stream completes; or the row, completed, of a statement that the source refused; and
-- else nothing.
unfoldable pub Refused : Bool → List LogRow → LogRow → QueryError → List LogRow → Type 0
Refused killed before started (not_executed why) log =
    log ≡ before ++ (finished_row none (outcome killed (some why)) started ∷ [])
Refused killed before started _ log = log ≡ before

unfoldable pub IsNew : LoggedStream → Type 0
IsNew s = (s.closed ≡ false) × ((s.rows ≡ 0) × ((s.bytes ≡ 0) × (s.err ≡ none)))

unfoldable pub Logged : Bool → List LogRow → LogRow → World × Result QueryError Execution → Type 0
Logged killed before started answer = elim answer.1 [
  | err e ↦ Refused killed before started e answer.0.log
  | ok execution ↦
      (answer.0.log ≡ before ++ (started ∷ []))
      × ((execution.stream.entry ≡ started.id) × IsNew execution.stream)
]

-- The row of a new stream that was read and closed.
pub close-Counted :
    (max reads now : ℕ) (killed : Bool) (w : World) (s : LoggedStream) (before : List LogRow)
    (started : LogRow)
    → id_free started.id before ≡ true
    → w.log ≡ before ++ (started ∷ [])
    → s.entry ≡ started.id
    → IsNew s
    → (row : LogRow) × (((close now false killed w (read max reads s)).0.log ≡ before ++ (row ∷ []))
        × ((row.id ≡ started.id)
            × ((row.connection_id ≡ started.connection_id)
                × ((row.user_id ≡ started.user_id)
                    × ((row.sql ≡ started.sql)
                        × ((row.owner ≡ started.owner) × Counted reads killed s.source row))))))
unfolding IsNew SameHolds ReadTo Counted finished_row
close-Counted max reads now killed w s before started free log entry new =
    let t = read max reads s in
    let same = read-SameHolds max reads s in
    let at = read-ReadTo max reads s in
    let cause = or_else t.err t.source.close_error in
    let last = (store w now t cause).1 in
    let counts = store_counts w now t cause in
    let row = finished_row (some last) (outcome killed cause) started in
    let why : cause ≡ cause_of reads s.source = ground (arith, at, new) in
    let ends : Ends killed (cause_of reads s.source) row.state row.error =
      subst (λ c. Ends killed c row.state row.error) why (outcome-Ends killed cause) in
    (
      row,
      (
        close_log now killed w t (same.1.1.1.1 ∙ new.0)
            ∙ update_log-last started.id t.entry (finished_row (some last) (outcome killed cause))
                before w.log started free refl (same.0 ∙ entry) log,
        (
          refl,
          (
            refl,
            (
              refl,
              (
                refl,
                (
                  refl,
                  (
                    ground (arith, counts, at, new),
                    (ground (arith, counts, at, new), (ground (arith, counts, at, new), ends)),
                  ),
                ),
              ),
            ),
          ),
        ),
      ),
    )

module _ (env : Env) where
  serve_from_cache-Logged :
      (w : World) (scope : Scope) (plan : Plan) (cached : Entry Column Cell)
      → Logged env.caller_killed w.log
          (started_row env w scope plan)
          (serve_from_cache env w scope plan cached)
  unfolding Logged Refused IsNew serve_from_cache start_log stream_of started_row
  serve_from_cache-Logged w scope plan cached = elim (Option-cases env.start) [
    | inl e ↦ rw e (refl, (refl, (refl, (refl, (refl, refl)))))
    | inr (why, e) ↦ rw e refl
  ]

  at_work_log :
      (w : World) (scope : Scope) (plan : Plan)
      → (at_work env w scope plan).log ≡ w.log ++ (started_row env w scope plan ∷ [])
  at_work_log w scope plan = ground arith

  failed_log :
      (w : World) (scope : Scope) (plan : Plan) (why : SourceError)
      → env.lost ≡ false
      → id_free w.fresh w.log ≡ true
      → (finish env.lost env.caller_killed w.fresh none
          (some why)
          (forget w.fresh (at_work env w scope plan))).log
        ≡ w.log
          ++ (finished_row none
                (outcome env.caller_killed (some why))
                (started_row env w scope plan)
              ∷ [])
  unfolding finish forget started_row
  failed_log w scope plan why kept free =
      let row = started_row env w scope plan in
      ground (
        arith,
        kept,
        update_log-last w.fresh w.fresh (finished_row none (outcome env.caller_killed (some why)))
            w.log (at_work env w scope plan).log row free refl refl (at_work_log w scope plan),
      )

  execute_plan-Logged :
      (w : World) (scope : Scope) (plan : Plan) (k : Option Text) (slot : Bool)
      → env.lost ≡ false
      → id_free w.fresh w.log ≡ true
      → Logged env.caller_killed w.log
          (started_row env w scope plan)
          (execute_plan env w scope plan k slot)
  unfolding Logged Refused IsNew stream_of started_row finish forget
  execute_plan-Logged w scope plan k slot kept free =
      elim (Option-cases (
        env.open_source plan.connection plan.max_rows
          (effective_timeout env.query_timeout plan.connection.query_timeout_seconds))) [
            | inr (why, e) ↦ rw (execute_plan-closed env w scope plan k slot why e) refl
            | inl e ↦ elim (Option-cases env.start) [
              | inr (why, s) ↦ rw (execute_plan-unrecorded env w scope plan k slot why e s) refl
              | inl s ↦ elim (Result-cases (env.source plan.connection plan.sql)) [
                | inr (why, c) ↦
                    rw (execute_plan-err env w scope plan k slot why e s c)
                      (failed_log w scope plan why kept free)
                | inl (source, c) ↦
                    rw (execute_plan-ok env w scope plan k slot source e s c)
                      (at_work_log w scope plan, (refl, (refl, (refl, (refl, refl)))))
              ]
            ]
          ]

  handed_back-Logged :
      (slot killed : Bool) (before : List LogRow) (started : LogRow)
      (answer : World × Result QueryError Execution)
      → Logged killed before started answer
      → Logged killed before started (handed_back env slot answer)
  unfolding Logged handed_back
  handed_back-Logged true killed before started (after, err e) h = h
  handed_back-Logged false killed before started (after, err e) h = h
  handed_back-Logged slot killed before started (after, ok execution) h = h

  run_plan-Logged :
      (w : World) (scope : Scope) (plan : Plan) (k : Option Text)
      → env.lost ≡ false
      → id_free w.fresh w.log ≡ true
      → Logged env.caller_killed w.log (started_row env w scope plan) (run_plan env w scope plan k)
  unfolding Logged Refused started_row
  run_plan-Logged w scope plan k kept free = elim (Option-cases env.admit) [
    | inl e ↦ rw (run_plan-free env w scope plan k e) (
        handed_back-Logged false env.caller_killed w.log (started_row env w scope plan)
          (execute_plan env w scope plan k false)
          (execute_plan-Logged w scope plan k false kept free))
    | inr (ok t, e) ↦
        let taken : World = record w { slots = suc w.slots } in
        rw (run_plan-slot env w scope plan k t e) (
          handed_back-Logged true env.caller_killed w.log (started_row env w scope plan)
            (execute_plan env taken scope plan k true)
            (execute_plan-Logged taken scope plan k true kept free))
    | inr (err why, e) ↦ rw (run_plan-full env w scope plan k why e) refl
  ]

  look_up_log :
      (w : World) (k : Option Text)
      → ((look_up env w k).0.log ≡ w.log) × ((look_up env w k).0.fresh ≡ w.fresh)
  unfolding look_up
  look_up_log w k = ground arith

  Logged-from :
      (before after : List LogRow) (started : LogRow) (answer : World × Result QueryError Execution)
      → before ≡ after
      → Logged env.caller_killed before started answer
      → Logged env.caller_killed after started answer
  Logged-from before after started answer e h =
      subst (λ log. Logged env.caller_killed log started answer) e h

  -- A row with which a query of this request starts.
  unfoldable pub Asked : World → Context → Request → LogRow → Type 0
  Asked w ctx req row =
      (row.id ≡ w.fresh)
      × ((row.sql ≡ trim_space req.sql)
          × ((row.owner ≡ env.owner)
              × (((scope : Scope) × ((from_context ctx ≡ ok scope)
                      × (row.user_id ≡ scope.actor_id)))
                  × ((conn : Connection) × ((env.connections req.connection_id ≡ ok conn)
                        × (row.connection_id ≡ conn.id))))))

  pub execute-Logged :
      (w : World) (ctx : Context) (req : Request)
      → env.lost ≡ false
      → id_free w.fresh w.log ≡ true
      → ((e : QueryError) × ((execute env w ctx req ≡ (w, err e)) × (is_before e ≡ true)))
        ⊎ ((started : LogRow) × (Asked w ctx req started
              × Logged env.caller_killed w.log started (execute env w ctx req)))
  unfolding Asked started_row
  execute-Logged w ctx req kept free = elim (execute_paths env w ctx req) [
    | inl refused ↦ inl refused
    | inr (scope, (plan, (p, (a, (way, (conn, sql)))))) ↦
        let k = cache_key env w scope plan in
        let found = (look_up env w k).0 in
        let same = look_up_log w k in
        let started = started_row env found scope plan in
        let asked : Asked w ctx req started =
          (same.1, (sql, (refl, ((scope, (p, refl)), (plan.connection, (conn, refl)))))) in
        inr (
          started,
          (
            asked,
            elim way [
              | inl (cached, r) ↦ rw r (
                  Logged-from found.log w.log started _ same.0
                    (serve_from_cache-Logged found scope plan cached))
              | inr r ↦ rw r (
                  Logged-from found.log w.log started _ same.0
                    (run_plan-Logged found scope plan k kept (rw (same.0, same.1) free)))
            ],
          ),
        )
  ]
