-- ===== src/Query/Executor/Held.antt =====
-- What the stages of internal/query/executor.go hold, and what the close of a stream in
-- logged_stream.go gives back.
use pivot.Common.{
  ℕ, zero, suc, ◌≡◌, ◌⊎◌, refl, ◌∙◌, inl, inr, Bool, true, false, not, Option, none, some, List, [],
  ◌∷◌, ◌++◌, Text, nat_eq, ◌==◌, keep_if, contains, if◌then◌else◌, Result, ok, err, Option-cases,
  Result-cases, arith,
}
use pivot.Tenant.{Uuid, Scope}
use pivot.Query.Stream.{
  Column, Cell, SourceError, Source, World, CacheStatus, miss, uncached, LoggedStream, tee, next,
  read, store, finish, forget, close_connector, give_slot, close,
}
use pivot.Query.Cache.{Entry}
use pivot.Query.Plan.{Plan, QueryError, cannot_open, not_recorded, not_executed, effective_timeout}
use pivot.Query.Executor.{
  Env, Execution, start_log, started_row, stream_of, serve_from_cache, execute_plan,
}

-- Nothing is held that was not held before.
unfoldable pub Settled : World → World → Type 0
Settled before after =
    (after.slots ≡ before.slots)
    × ((after.connectors ≡ before.connectors) × (after.watched ≡ before.watched))

-- Reading leaves what closing is to give back.
unfoldable pub SameHolds : LoggedStream → LoggedStream → Type 0
SameHolds s t =
    (t.entry ≡ s.entry)
    × ((t.connector ≡ s.connector)
        × ((t.release ≡ s.release) × ((t.unwatch ≡ s.unwatch) × (t.closed ≡ s.closed))))

tee-SameHolds : (max : ℕ) (row : List Cell) (s : LoggedStream) → SameHolds s (tee max row s)
unfolding tee SameHolds
tee-SameHolds max row s = ground arith

list_cases :
    {A : Type 0} (xs : List A) → (xs ≡ []) ⊎ ((x : A) × ((rest : List A) × (xs ≡ x ∷ rest)))
list_cases [] = inl refl
list_cases (x ∷ xs) = inr (x, (xs, refl))

next-SameHolds : (max : ℕ) (s : LoggedStream) → SameHolds s (next max s).0
unfolding next tee SameHolds
next-SameHolds max s = elim (list_cases s.source.rows) [
  | inl e ↦ ground arith
  | inr (row, (rest, e)) ↦ ground arith
]

pub read-SameHolds : (max n : ℕ) (s : LoggedStream) → SameHolds s (read max n s)
unfolding read SameHolds
read-SameHolds max zero s = (refl, (refl, (refl, (refl, refl))))
read-SameHolds max (suc n) s =
    ground (arith, next-SameHolds max s, read-SameHolds max n (next max s).0)

-- What a close gives back.
unfoldable pub given_back : Bool → Bool → Bool → Uuid → World → World
given_back connector release unwatch entry w =
    let unwatched = if unwatch then forget entry w else w in
    let released = if release then give_slot unwatched else unwatched in
    if connector then close_connector released else released

pub close_gives :
    (now : ℕ) (lost killed : Bool) (w : World) (s : LoggedStream)
    → s.closed ≡ false
    → Settled (given_back s.connector s.release s.unwatch s.entry w) (close now lost killed w s).0
unfolding close store finish forget given_back Settled
close_gives now lost killed w s open_still = ground arith

-- What an answer holds is what its stream gives back.
unfoldable pub Accounted : World → World × Result QueryError Execution → Type 0
Accounted before answer = elim answer.1 [
  | err e ↦ Settled before answer.0
  | ok execution ↦
      let s = execution.stream in
      (s.closed ≡ false)
      × Settled before (given_back s.connector s.release s.unwatch s.entry answer.0)
]

-- The same with a slot that was taken before: a refusal leaves it to the caller.
unfoldable pub Prepared : Bool → World → World × Result QueryError Execution → Type 0
Prepared slot before answer = elim answer.1 [
  | err e ↦ Settled before answer.0
  | ok execution ↦
      let s = execution.stream in
      (s.closed ≡ false)
      × Settled (if slot then give_slot before else before)
          (given_back s.connector s.release s.unwatch s.entry answer.0)
]

pub Settled-trans : (a b c : World) → Settled a b → Settled b c → Settled a c
unfolding Settled
Settled-trans a b c h k = (k.0 ∙ h.0, (k.1.0 ∙ h.1.0, k.1.1 ∙ h.1.1))

pub keep_absent :
    (id : Uuid) (ids : List Uuid) → contains ids id ≡ false → keep_if (λ i. not (i == id)) ids ≡ ids
unfolding keep_if contains
keep_absent id [] h = refl
keep_absent id (i ∷ ids) h = ground (arith, keep_absent id ids)

module _ (env : Env) where
  pub serve_from_cache-Accounted :
      (w : World) (scope : Scope) (plan : Plan) (cached : Entry Column Cell)
      → Accounted w (serve_from_cache env w scope plan cached)
  unfolding Accounted Settled serve_from_cache start_log stream_of given_back
  serve_from_cache-Accounted w scope plan cached = elim (Option-cases env.start) [
    | inl e ↦ rw e (refl, (refl, (refl, refl)))
    | inr (why, e) ↦ rw e (refl, (refl, refl))
  ]

  -- The world of a plan that has started.
  abbrev pub at_work : World → Scope → Plan → World
  at_work w scope plan =
      let started : World = record w {
        connectors = suc w.connectors;
        log = w.log ++ (started_row env w scope plan ∷ []);
        fresh = suc w.fresh;
      } in
      if env.monitor then record started { watched = w.fresh ∷ w.watched } else started

  pub execute_plan-ok :
      (w : World) (scope : Scope) (plan : Plan) (k : Option Text) (slot : Bool) (source : Source)
      → env.open_source plan.connection plan.max_rows
          (effective_timeout env.query_timeout plan.connection.query_timeout_seconds)
        ≡ none
      → env.start ≡ none
      → env.source plan.connection plan.sql ≡ ok source
      → execute_plan env w scope plan k slot ≡ (
        at_work w scope plan,
        let status : CacheStatus = elim k [ none ↦ uncached | some text ↦ miss ] in
            let caching : Bool = elim k [ none ↦ false | some text ↦ true ] in
            ok (record {
              log_id = w.fresh;
              stream = stream_of env source w.fresh true slot caching status k;
              plan = plan;
              cache_status = status;
            }),
      )
  unfolding execute_plan start_log started_row
  execute_plan-ok w scope plan k slot source e s c = ground arith

  pub execute_plan-err :
      (w : World) (scope : Scope) (plan : Plan) (k : Option Text) (slot : Bool) (why : SourceError)
      → env.open_source plan.connection plan.max_rows
          (effective_timeout env.query_timeout plan.connection.query_timeout_seconds)
        ≡ none
      → env.start ≡ none
      → env.source plan.connection plan.sql ≡ err why
      → execute_plan env w scope plan k slot ≡ (
        close_connector (
            finish env.lost env.caller_killed w.fresh none
              (some why)
              (forget w.fresh (at_work w scope plan))),
        err (not_executed why),
      )
  unfolding execute_plan start_log started_row
  execute_plan-err w scope plan k slot why e s c = ground arith

  pub execute_plan-closed :
      (w : World) (scope : Scope) (plan : Plan) (k : Option Text) (slot : Bool) (why : Text)
      → env.open_source plan.connection plan.max_rows
          (effective_timeout env.query_timeout plan.connection.query_timeout_seconds)
        ≡ some why
      → execute_plan env w scope plan k slot ≡ (w, err (cannot_open why))
  unfolding execute_plan
  execute_plan-closed w scope plan k slot why e = ground arith

  pub execute_plan-unrecorded :
      (w : World) (scope : Scope) (plan : Plan) (k : Option Text) (slot : Bool) (why : Text)
      → env.open_source plan.connection plan.max_rows
          (effective_timeout env.query_timeout plan.connection.query_timeout_seconds)
        ≡ none
      → env.start ≡ some why
      → execute_plan env w scope plan k slot
        ≡ (close_connector (record w { connectors = suc w.connectors }), err (not_recorded why))
  unfolding execute_plan start_log
  execute_plan-unrecorded w scope plan k slot why e s = ground arith

  at_work-watched :
      (w : World) (scope : Scope) (plan : Plan)
      → contains w.watched w.fresh ≡ false
      → keep_if (λ i. not (i == w.fresh)) (at_work w scope plan).watched ≡ w.watched
  unfolding keep_if
  at_work-watched w scope plan fresh = ground (arith, keep_absent w.fresh w.watched fresh)

  -- A plan that runs with a slot gives the slot back when its stream is closed.
  pub execute_plan-Accounted :
      (w : World) (scope : Scope) (plan : Plan) (k : Option Text) (slot : Bool)
      → contains w.watched w.fresh ≡ false
      → Prepared slot w (execute_plan env w scope plan k slot)
  unfolding Prepared Settled execute_plan start_log stream_of given_back finish forget keep_if
  execute_plan-Accounted w scope plan k slot fresh =
      elim (Option-cases (
        env.open_source plan.connection plan.max_rows
          (effective_timeout env.query_timeout plan.connection.query_timeout_seconds))) [
            | inr (why, e) ↦ rw (execute_plan, e) (refl, (refl, refl))
            | inl e ↦ elim (Option-cases env.start) [
              | inr (why, s) ↦
                  rw (execute_plan-unrecorded w scope plan k slot why e s)
                    (refl, (omega arith, refl))
              | inl s ↦ elim (Result-cases (env.source plan.connection plan.sql)) [
                | inr (why, c) ↦
                    rw (execute_plan-err w scope plan k slot why e s c)
                      (ground (arith, at_work-watched w scope plan fresh))
                | inl (source, c) ↦
                    rw (execute_plan-ok w scope plan k slot source e s c)
                      (ground (arith, at_work-watched w scope plan fresh))
              ]
            ]
          ]
