-- ===== src/Query/Executor/Recorded.antt =====
-- The rows of the log of internal/store/repo/query_log.go that whole requests through the pipeline of
-- internal/query/executor.go leave.
use pivot.Common.{
  ℕ, ◌≡◌, refl, ◌∙◌, inl, inr, Bool, true, false, none, some, List, [], ◌∷◌, ◌++◌, nat_eq, Result,
  ok, err,
}
use pivot.Tenant.{Context}
use pivot.Query.Stream.{LogRow, World, outcome, finished_row}
use pivot.Query.Stream.Counted.{Ends, outcome-Ends, Counted}
use pivot.Query.Plan.{
  Request, QueryError, no_scope, no_connection, empty_sql, not_permitted, not_resolved,
  not_admitted, cannot_open, not_recorded, not_executed,
}
use pivot.Query.Executor.{Env, Execution, execute}
use pivot.Query.Executor.Order.{is_before}
use pivot.Query.Executor.Settled.{finished, run_to_end}
use pivot.Query.Executor.Logged.{id_free, Refused, Logged, close-Counted, Asked, execute-Logged}

module _ (env : Env) where
  -- The row that a query of this request leaves.
  unfoldable pub Recorded : World → Context → Request → List LogRow → (LogRow → Type 0) → Type 0
  Recorded w ctx req log Says =
      (row : LogRow) × (Asked env w ctx req row × (Says row × (log ≡ w.log ++ (row ∷ []))))

  -- A refusal leaves a row exactly where it is the source that refused the statement.
  unfoldable pub Refusal : World → Context → Request → QueryError → List LogRow → Type 0
  Refusal w ctx req (not_executed why) log = Recorded w ctx req log (λ row.
      (row.rows ≡ 0) × ((row.bytes ≡ 0) × Ends env.caller_killed (some why) row.state row.error))
  Refusal w ctx req _ log = log ≡ w.log

  -- What the log holds once a request is over that was answered so.
  unfoldable pub Completed :
      ℕ → Bool → World → Context → Request → Result QueryError Execution → List LogRow → Type 0
  Completed reads killed w ctx req answer log = elim answer [
    | err e ↦ Refusal w ctx req e log
    | ok execution ↦ Recorded w ctx req log (Counted reads killed execution.stream.source)
  ]

Refusal-nothing :
    (env : Env) (w : World) (ctx : Context) (req : Request) (e : QueryError)
    → is_before e ≡ true
    → Refusal env w ctx req e w.log
unfolding Refusal is_before
Refusal-nothing env w ctx req (no_scope e) h = refl
Refusal-nothing env w ctx req no_connection h = refl
Refusal-nothing env w ctx req empty_sql h = refl
Refusal-nothing env w ctx req (not_permitted e) h = refl
Refusal-nothing env w ctx req (not_resolved e) h = refl
Refusal-nothing env w ctx req (not_admitted e) h = refl
Refusal-nothing env w ctx req (cannot_open e) h = refl
Refusal-nothing env w ctx req (not_recorded e) h = refl
Refusal-nothing env w ctx req (not_executed e) h = cc

Refusal-Refused :
    (env : Env) (w : World) (ctx : Context) (req : Request) (started : LogRow) (e : QueryError)
    (log : List LogRow)
    → Asked env w ctx req started
    → Refused env.caller_killed w.log started e log
    → Refusal env w ctx req e log
unfolding Refusal Refused Recorded Asked finished_row
Refusal-Refused env w ctx req started (no_scope e) log asked h = h
Refusal-Refused env w ctx req started no_connection log asked h = h
Refusal-Refused env w ctx req started empty_sql log asked h = h
Refusal-Refused env w ctx req started (not_permitted e) log asked h = h
Refusal-Refused env w ctx req started (not_resolved e) log asked h = h
Refusal-Refused env w ctx req started (not_admitted e) log asked h = h
Refusal-Refused env w ctx req started (cannot_open e) log asked h = h
Refusal-Refused env w ctx req started (not_recorded e) log asked h = h
Refusal-Refused env w ctx req started (not_executed why) log asked h = (
  finished_row none (outcome env.caller_killed (some why)) started,
  (asked, ((refl, (refl, outcome-Ends env.caller_killed (some why))), h)),
)

finished-Completed :
    (env : Env) (max reads now : ℕ) (killed : Bool) (w : World) (ctx : Context) (req : Request)
    (started : LogRow) (answer : World × Result QueryError Execution)
    → id_free w.fresh w.log ≡ true
    → Asked env w ctx req started
    → Logged env.caller_killed w.log started answer
    → Completed env reads killed w ctx req answer.1 (finished max reads now false killed answer).log
unfolding Logged Completed Recorded Asked finished
finished-Completed env max reads now killed w ctx req started (after, err e) free asked h =
    Refusal-Refused env w ctx req started e after.log asked h
finished-Completed env max reads now killed w ctx req started (after, ok execution) free asked h =
    let (row, (log, (id, (connection, (user, (sql, (owner, counted))))))) =
      close-Counted max reads now killed after execution.stream w.log started (rw asked.0 free) h.0
        h.1.0 h.1.1 in
    let (scope, (from, actor)) = asked.1.1.1.0 in
    let (conn, (named, stored)) = asked.1.1.1.1 in
    (
      row,
      (
        (
          id ∙ asked.0,
          (
            sql ∙ asked.1.0,
            (
              owner ∙ asked.1.1.0,
              ((scope, (from, user ∙ actor)), (conn, (named, connection ∙ stored))),
            ),
          ),
        ),
        (counted, log),
      ),
    )

-- The log accounts for every query. Once a request is over that handed out a stream, read in part or
-- to its end and closed, the log has exactly one row more, with the next id: it names the connection
-- that was resolved, the actor of the scope, the statement without the space around it and the
-- owner, counts the rows and the bytes that were read, says whether they were cut off, and has the
-- state and the message of how the query ended. A statement that the source refused leaves such a
-- row without rows. Any other refusal leaves the log as it was. The statements that complete a row
-- do not fail, and no row has the next id yet.
pub run_to_end-Completed :
    (env : Env) (max_entry_bytes reads now : ℕ) (killed : Bool) (w : World) (ctx : Context)
    (req : Request)
    → env.lost ≡ false
    → id_free w.fresh w.log ≡ true
    → Completed env reads killed w ctx req
        (execute env w ctx req).1
        (run_to_end env max_entry_bytes reads now false killed w ctx req).log
unfolding run_to_end Completed finished
run_to_end-Completed env max reads now killed w ctx req kept free =
    elim (execute-Logged env w ctx req kept free) [
      | inl (e, (p, b)) ↦ rw p (Refusal-nothing env w ctx req e b)
      | inr (started, (asked, logged)) ↦
          finished-Completed env max reads now killed w ctx req started (execute env w ctx req) free
            asked logged
    ]
