-- ===== src/Query/Executor/Settled.antt =====
-- What a query holds on to, from the pipeline of internal/query/executor.go to the close of its
-- stream in logged_stream.go.
use pivot.Common.{
  ℕ, suc, ◌≡◌, refl, ◌∙◌, inl, inr, Bool, true, false, Option, none, some, Text, nat_eq, contains,
  if◌then◌else◌, Result, ok, err, Option-cases, arith,
}
use pivot.Tenant.{Scope, Context}
use pivot.Query.Stream.{World, read, give_slot, close}
use pivot.Query.Plan.{Plan, Request, QueryError, not_admitted}
use pivot.Query.Executor.{
  Env, Execution, cache_key, serve_from_cache, admit_query, execute_plan, run_plan, look_up,
  execute,
}
use pivot.Query.Executor.Order.{execute_paths}
use pivot.Query.Executor.Held.{
  Settled, Accounted, Prepared, SameHolds, read-SameHolds, given_back, close_gives, Settled-trans,
  serve_from_cache-Accounted, execute_plan-Accounted,
}

unfoldable pub finished : ℕ → ℕ → ℕ → Bool → Bool → World × Result QueryError Execution → World
finished max_entry_bytes reads now lost killed answer = elim answer.1 [
  | err e ↦ answer.0
  | ok execution ↦ (close now lost killed answer.0 (read max_entry_bytes reads execution.stream)).0
]

-- The caller reads some rows, as many as it likes, and closes; of a query that is refused there is
-- nothing to close.
unfoldable pub run_to_end : Env → ℕ → ℕ → ℕ → Bool → Bool → World → Context → Request → World
run_to_end env max_entry_bytes reads now lost killed w ctx req =
    finished max_entry_bytes reads now lost killed (execute env w ctx req)

module _ (env : Env) where
  -- A slot that a plan was prepared with, and that its refusal gives back.
  unfoldable pub handed_back :
      Bool → World × Result QueryError Execution → World × Result QueryError Execution
  handed_back slot answer = elim answer.1 [
    | err e ↦ (if slot then give_slot answer.0 else answer.0, err e)
    | ok execution ↦ answer
  ]

  released :
      (slot : Bool) (w taken : World) (answer : World × Result QueryError Execution)
      → Settled w (if slot then give_slot taken else taken)
      → Prepared slot taken answer
      → Accounted w (handed_back slot answer)
  unfolding Prepared Accounted Settled handed_back
  released slot w taken (after, err e) same held = ground arith
  released slot w taken (after, ok execution) same held =
      let s = execution.stream in
      (
        held.0,
        Settled-trans w (if slot then give_slot taken else taken)
            (given_back s.connector s.release s.unwatch s.entry after) same held.1,
      )

  pub run_plan-free :
      (w : World) (scope : Scope) (plan : Plan) (k : Option Text)
      → env.admit ≡ none
      → run_plan env w scope plan k ≡ handed_back false (execute_plan env w scope plan k false)
  unfolding run_plan admit_query handed_back
  run_plan-free w scope plan k e = ground arith

  pub run_plan-slot :
      (w : World) (scope : Scope) (plan : Plan) (k : Option Text) (t : Unit {0})
      → env.admit ≡ some (ok t)
      → run_plan env w scope plan k
        ≡ handed_back true (execute_plan env (record w { slots = suc w.slots }) scope plan k true)
  unfolding run_plan admit_query handed_back
  run_plan-slot w scope plan k t e = ground arith

  pub run_plan-full :
      (w : World) (scope : Scope) (plan : Plan) (k : Option Text) (why : Text)
      → env.admit ≡ some (err why)
      → run_plan env w scope plan k ≡ (w, err (not_admitted why))
  unfolding run_plan admit_query
  run_plan-full w scope plan k why e = ground arith

  run_plan-Accounted :
      (w : World) (scope : Scope) (plan : Plan) (k : Option Text)
      → contains w.watched w.fresh ≡ false
      → Accounted w (run_plan env w scope plan k)
  unfolding Accounted Settled
  run_plan-Accounted w scope plan k fresh = elim (Option-cases env.admit) [
    | inl e ↦ rw (run_plan-free w scope plan k e) (
        released false w w (execute_plan env w scope plan k false) (refl, (refl, refl))
          (execute_plan-Accounted env w scope plan k false fresh))
    | inr (ok t, e) ↦
        let taken : World = record w { slots = suc w.slots } in
        rw (run_plan-slot w scope plan k t e) (
          released true w taken (execute_plan env taken scope plan k true)
            (omega arith, (refl, refl)) (execute_plan-Accounted env taken scope plan k true fresh))
    | inr (err why, e) ↦ rw (run_plan-full w scope plan k why e) (refl, (refl, refl))
  ]

  look_up_same :
      (w : World) (k : Option Text)
      → Settled w (look_up env w k).0 × ((look_up env w k).0.fresh ≡ w.fresh)
  unfolding look_up Settled
  look_up_same w k = ground arith

  Accounted-trans :
      (a b : World) (answer : World × Result QueryError Execution)
      → Settled a b
      → Accounted b answer
      → Accounted a answer
  unfolding Accounted
  Accounted-trans a b (after, err e) h k = Settled-trans a b after h k
  Accounted-trans a b (after, ok execution) h k =
      let s = execution.stream in
      (k.0, Settled-trans a b (given_back s.connector s.release s.unwatch s.entry after) h k.1)

  execute-Accounted :
      (w : World) (ctx : Context) (req : Request)
      → contains w.watched w.fresh ≡ false
      → Accounted w (execute env w ctx req)
  unfolding Accounted Settled
  execute-Accounted w ctx req fresh = elim (execute_paths env w ctx req) [
    | inl (e, (p, b)) ↦ rw p (refl, (refl, refl))
    | inr (scope, (plan, (p, (a, (way, facts))))) ↦
        let k = cache_key env w scope plan in
        let found = (look_up env w k).0 in
        let same = look_up_same w k in
        elim way [
          | inl (cached, r) ↦ rw r (
              Accounted-trans w found (serve_from_cache env found scope plan cached) same.0
                (serve_from_cache-Accounted env found scope plan cached))
          | inr r ↦ rw r (
              Accounted-trans w found (run_plan env found scope plan k) same.0
                (run_plan-Accounted found scope plan k (rw (same.1, same.0.1.1) fresh)))
        ]
  ]

finished-Settled :
    (max reads now : ℕ) (lost killed : Bool) (w : World)
    (answer : World × Result QueryError Execution)
    → Accounted w answer
    → Settled w (finished max reads now lost killed answer)
unfolding finished Accounted SameHolds
finished-Settled max reads now lost killed w (after, err e) h = h
finished-Settled max reads now lost killed w (after, ok execution) h =
    let s = execution.stream in
    let t = read max reads s in
    let same = read-SameHolds max reads s in
    let back = close_gives now lost killed after t (same.1.1.1.1 ∙ h.0) in
    Settled-trans w (given_back t.connector t.release t.unwatch t.entry after)
      (close now lost killed after t).0 (rw (same.0, same.1.0, same.1.1.0, same.1.1.1.0) h.1) back

-- A query that is refused, whatever refuses it and however far it came, and one whose stream is
-- closed, after however many rows, whether it failed, was killed or is answered from the cache,
-- hold nothing any more: the slots of the governor, the open connectors and the queries that the
-- monitor watches are what they were before. The id of the next log row is watched by nobody.
pub run_to_end-Settled :
    (env : Env) (max_entry_bytes reads now : ℕ) (lost killed : Bool) (w : World) (ctx : Context)
    (req : Request)
    → contains w.watched w.fresh ≡ false
    → Settled w (run_to_end env max_entry_bytes reads now lost killed w ctx req)
unfolding run_to_end Accounted
run_to_end-Settled env max reads now lost killed w ctx req fresh =
    finished-Settled max reads now lost killed w (execute env w ctx req)
      (execute-Accounted env w ctx req fresh)
