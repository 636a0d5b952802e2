-- ===== src/Query/Executor/Order.antt =====
-- The order of the stages of internal/query/executor.go.
use pivot.Common.{
  refl, ◌∙◌, Text, trim_space, Option, Bool, true, false, none, some, codes, Result, ◌≡◌, ◌≢◌, ◌⊎◌,
  inl, inr, ok, err, Option-cases, Result-cases, arith,
}
use pivot.Tenant.{Scope, Context, from_context}
use pivot.Authz.Model.{user}
use pivot.Authz.Check.{Decision, Failure, enforce}
use pivot.Authz.Check
use pivot.Query.Stream.{World, Column, Cell}
use pivot.Query.Cache.{Entry}
use pivot.Query.Plan.{Plan, Request, QueryError, no_scope, not_executed, parse}
use pivot.Query.Executor.{
  Env, Execution, authorize, plan_query, cache_key, run_plan, serve_from_cache, look_up, execute,
}

-- May this person run native queries in the organization?
abbrev pub native_query_of : Env → Scope → Check.Request
native_query_of env scope = record {
  subject = user (env.uuid_string scope.actor_id.uuid);
  permission = codes "native_query";
  object = record { kind = codes "organization"; id = env.uuid_string scope.org_id };
}

-- An error of the stages before the statement is sent.
unfoldable pub is_before : QueryError → Bool
is_before (not_executed why) = false
is_before _ = true

parse_statement :
    (req : Request) (statement : Text) → parse req ≡ ok statement → statement ≡ trim_space req.sql
unfolding parse
parse_statement req statement h = ground arith

parse_before : (req : Request) (e : QueryError) → parse req ≡ err e → is_before e ≡ true
unfolding parse is_before
parse_before req e h = ground arith

authorize_before :
    (env : Env) (scope : Scope) (e : QueryError) → authorize env scope ≡ err e → is_before e ≡ true
unfolding authorize is_before
authorize_before env scope e h =
    elim (Result-cases (enforce env.checker (native_query_of env scope))) [
      | inl (allowed, p) ↦ ground arith
      | inr (why, p) ↦ ground arith
    ]

plan_query_before :
    (env : Env) (statement : Text) (req : Request) (e : QueryError)
    → plan_query env statement req ≡ err e
    → is_before e ≡ true
unfolding plan_query is_before
plan_query_before env statement req e h = ground arith

plan_query_plan :
    (env : Env) (statement : Text) (req : Request) (plan : Plan)
    → plan_query env statement req ≡ ok plan
    → (env.connections req.connection_id ≡ ok plan.connection) × (plan.sql ≡ statement)
unfolding plan_query
plan_query_plan env statement req plan h = elim (Result-cases (env.connections req.connection_id)) [
  | inl (conn, c) ↦ ground arith
  | inr (why, c) ↦ absurd (ground arith)
]

-- How a request goes: it is refused and nothing has happened, or it was authorized and planned, and
-- it is answered from the cache or runs.
abbrev pub RequestPath : Env → World → Context → Request → Type 0
RequestPath env w ctx req =
    ((e : QueryError) × ((execute env w ctx req ≡ (w, err e)) × (is_before e ≡ true)))
    ⊎ ((scope : Scope) × ((plan : Plan) × ((from_context ctx ≡ ok scope)
            × ((authorize env scope ≡ ok tt)
                × (let k = cache_key env w scope plan in
                    let found = look_up env w k in
                    (((cached : Entry Column Cell) × (execute env w ctx req
                          ≡ serve_from_cache env found.0 scope plan cached))
                      ⊎ (execute env w ctx req ≡ run_plan env found.0 scope plan k))
                    × ((env.connections req.connection_id ≡ ok plan.connection)
                        × (plan.sql ≡ trim_space req.sql)))))))

pub execute_paths :
    (env : Env) (w : World) (ctx : Context) (req : Request) → RequestPath env w ctx req
unfolding execute
execute_paths env w ctx req = elim (Result-cases (from_context ctx)) [
  | inr (e, p) ↦ inl (no_scope e, (ground arith, unfold is_before in refl))
  | inl (scope, p) ↦ elim (Result-cases (parse req)) [
    | inr (e, q) ↦ inl (e, (ground arith, parse_before req e q))
    | inl (statement, q) ↦ elim (Result-cases (authorize env scope)) [
      | inr (e, a) ↦ inl (e, (ground arith, authorize_before env scope e a))
      | inl (allowed, a) ↦ elim (Result-cases (plan_query env statement req)) [
        | inr (e, r) ↦ inl (e, (ground arith, plan_query_before env statement req e r))
        | inl (plan, r) ↦
            let k = cache_key env w scope plan in
            let found = look_up env w k in
            let conn = plan_query_plan env statement req plan r in
            let sql = conn.1 ∙ parse_statement req statement q in
            elim (Option-cases found.1) [
              | inr (cached, c) ↦
                  inr (scope, (plan, (p, (a, (inl (cached, ground arith), (conn.0, sql))))))
              | inl c ↦ inr (scope, (plan, (p, (a, (inr (ground arith), (conn.0, sql))))))
            ]
      ]
    ]
  ]
]

-- Whether a checker that is there decides, and decides that the question is allowed.
unfoldable pub permits : Option (Check.Request → Result Failure Decision) → Check.Request → Bool
permits none question = false
permits (some check) question = elim (check question) [
  | ok decision ↦ decision.allowed
  | err e ↦ false
]

authorize-permits :
    (env : Env) (scope : Scope)
    → scope.actor_id.valid ≡ true
    → permits env.checker (native_query_of env scope) ≡ false
    → authorize env scope ≢ ok tt
unfolding authorize enforce permits
authorize-permits env scope person refused = elim (Option-cases env.checker) [
  | inl e ↦ ground arith
  | inr (check, e) ↦ elim (Result-cases (check (native_query_of env scope))) [
    | inl (decision, d) ↦ ground arith
    | inr (why, d) ↦ ground arith
  ]
]

-- A person whom the checker does not allow `native_query` on the organization of the scope, or for
-- whom it reaches no decision, or who asks where no checker is configured, is refused before anything
-- happens: no cache is read, no slot is taken, nothing is opened, watched or logged.
pub denied_untouched :
    (env : Env) (w : World) (ctx : Context) (req : Request) (scope : Scope) (x : Execution)
    → from_context ctx ≡ ok scope
    → scope.actor_id.valid ≡ true
    → permits env.checker (native_query_of env scope) ≡ false
    → ((execute env w ctx req).0 ≡ w) × ((execute env w ctx req).1 ≢ ok x)
denied_untouched env w ctx req scope x c person d = elim (execute_paths env w ctx req) [
  | inl (why, (p, b)) ↦ ground (arith, p)
  | inr (other, (plan, (p, (a, way)))) ↦
      ground (arith, p, a, c, authorize-permits env scope person d)
]
