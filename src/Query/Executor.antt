-- ===== src/Query/Executor.antt =====
-- internal/query/executor.go: the pipeline parse, authorize, plan, execute, stream. What lies outside
-- answers in `Env`: the repositories, the checker, the governor and the connectors. The world is
-- what they leave behind (`Query/Stream`).
pub mod Order
pub mod Held
pub mod Settled
pub mod Logged
pub mod Recorded
pub mod Limits
use pivot.Common.{
  ℕ, ℤ, zero, suc, ◌+◌, ◌/◌, Bool, true, false, not, ◌&&◌, ◌||◌, Option, none, some, List, [], ◌∷◌,
  ◌++◌, Text, codes, ltb, nat_beq, nat_eq, ◌==◌, trim_space, if◌then◌else◌, Result, ok, err,
}
use pivot.Tenant.{Uuid, uuid_nil, Scope, ScopeError, Context, from_context}
use pivot.Authz.Model.{
  Relation, Permission, Subject, Object, user, perm_native_query, type_organization, is_empty,
}
use pivot.Authz.Check.{Decision, Failure, EnforceError, enforce}
use pivot.Authz.Check
use pivot.Policy.{Fingerprint, resolve}
use pivot.Query.Cache.{Cache, Entry, key, get, count_uncached}
use pivot.Query.Stream.{
  Column, Cell, SourceError, Source, CacheStatus, hit, miss, uncached, running, LogRow, World,
  LoggedStream, finish, forget, close_connector, give_slot,
}
use pivot.Query.Plan.{
  Connection, Request, Plan, QueryError, no_scope, no_connection, empty_sql, not_permitted,
  not_resolved, not_admitted, cannot_open, not_recorded, not_executed, parse, default_max_rows,
  limit_rows, nanoseconds, effective_timeout,
}

-- `admit` is none where no governor is configured, and otherwise what `Admit` answers. `open_source` is
-- given the limits that a connector runs under, the rows and the seconds. `start` and `lost` say
-- whether the log can be written, when a query starts and when it ends. `caller_killed` is whether
-- the cause of the caller's own context is `ErrKilled`.
pub record Env : Type 0 where
  pub uuid_string : Uuid → Text
  pub digest : Text → Text
  pub checker : Option (Check.Request → Result Failure Decision)
  pub granter : Option (Subject → Object → Result Failure (List Relation))
  pub connections : Uuid → Result Text Connection
  pub admit : Option (Result Text (Unit {0}))
  pub open_source : Connection → ℕ → ℤ → Option Text
  pub source : Connection → Text → Result SourceError Source
  pub start : Option Text
  pub lost : Bool
  pub caller_killed : Bool
  pub monitor : Bool
  pub owner : Text
  pub query_timeout : ℕ
  pub now : ℕ

pub record Execution : Type 0 where
  pub log_id : Uuid
  pub stream : LoggedStream
  pub plan : Plan
  pub cache_status : CacheStatus

module _ (env : Env) where
  unfoldable pub authorize : Scope → Result QueryError (Unit {0})
  authorize scope =
      if not scope.actor_id.valid
      then ok tt
      else elim (enforce env.checker (record {
        subject = user (env.uuid_string scope.actor_id.uuid);
        permission = perm_native_query;
        object = record { kind = type_organization; id = env.uuid_string scope.org_id };
      })) [ err e ↦ err (not_permitted e) | ok allowed ↦ ok tt ]

  unfoldable pub plan_query : Text → Request → Result QueryError Plan
  plan_query statement req = elim (env.connections req.connection_id) [
    | err why ↦ err (not_resolved why)
    | ok conn ↦ ok (record {
      sql = statement;
      connection = conn;
      max_rows = limit_rows conn.max_rows req.max_rows;
    })
  ]

  -- `none` where the result is not to be cached.
  unfoldable pub cache_key : World → Scope → Plan → Option Text
  cache_key w scope plan = elim w.cache [
    | none ↦ none
    | some cache ↦ elim env.granter [
      | none ↦ none
      | some grants ↦ elim (resolve env.uuid_string env.digest (some grants) scope) [
        | err e ↦ none
        | ok fingerprint ↦
            key env.uuid_string env.digest cache fingerprint scope.org_id plan.connection.id
              plan.sql plan.max_rows
      ]
    ]
  ]

  unfoldable pub started_row : World → Scope → Plan → LogRow
  started_row w scope plan = record {
    id = w.fresh;
    connection_id = plan.connection.id;
    user_id = scope.actor_id;
    sql = plan.sql;
    owner = env.owner;
    state = running;
    rows = 0;
    bytes = 0;
    truncated = false;
    cache_status = uncached;
    error = [];
  }

  -- `QueryLog.Start`, and the id of the row.
  unfoldable pub start_log : World → Scope → Plan → World × Result QueryError Uuid
  start_log w scope plan = elim env.start [
    | some why ↦ (w, err (not_recorded why))
    | none ↦ (
      record w { log = w.log ++ (started_row w scope plan ∷ []); fresh = suc w.fresh },
      ok w.fresh,
    )
  ]

  unfoldable pub stream_of :
      Source → Uuid → Bool → Bool → Bool → CacheStatus → Option Text → LoggedStream
  stream_of source entry connector release caching status k = record {
    source = source;
    err = none;
    entry = entry;
    connector = connector;
    release = release;
    unwatch = connector;
    rows = 0;
    bytes = 0;
    caching = caching;
    cache_key = elim k [ none ↦ [] | some text ↦ text ];
    cache_status = status;
    pending = [];
    exhausted = false;
    closed = false;
  }

  -- What `Get` replays.
  unfoldable pub replay : Entry Column Cell → Source
  replay entry = record {
    columns = entry.columns;
    rows = entry.rows;
    failure = none;
    truncated = entry.truncated;
    cut = entry.truncated;
    close_error = none;
  }

  unfoldable pub serve_from_cache :
      World → Scope → Plan → Entry Column Cell → World × Result QueryError Execution
  serve_from_cache w scope plan cached =
      let started = start_log w scope plan in
      (
        started.0,
        elim started.1 [
          | err e ↦ err e
          | ok id ↦ ok (record {
            log_id = id;
            stream = stream_of (replay cached) id false false false hit none;
            plan = plan;
            cache_status = hit;
          })
        ],
      )

  -- `admit`: whether a slot is held.
  unfoldable pub admit_query : World → World × Result QueryError Bool
  admit_query w = elim env.admit [
    | none ↦ (w, ok false)
    | some answer ↦ elim answer [
      | err why ↦ (w, err (not_admitted why))
      | ok slot ↦ (record w { slots = suc w.slots }, ok true)
    ]
  ]

  abbrev open_connector : World → World
  open_connector w = record w { connectors = suc w.connectors }

  abbrev watch : Uuid → World → World
  watch id w = if env.monitor then record w { watched = id ∷ w.watched } else w

  unfoldable pub execute_plan :
      World → Scope → Plan → Option Text → Bool → World × Result QueryError Execution
  execute_plan w scope plan k slot =
      elim (env.open_source plan.connection plan.max_rows
        (effective_timeout env.query_timeout plan.connection.query_timeout_seconds)) [
          | some why ↦ (w, err (cannot_open why))
          | none ↦
              let started = start_log (open_connector w) scope plan in
              elim started.1 [
                | err e ↦ (close_connector started.0, err e)
                | ok id ↦
                    let watching = watch id started.0 in
                    elim (env.source plan.connection plan.sql) [
                      | err e ↦ (
                        close_connector (
                            finish env.lost env.caller_killed id none (some e)
                              (forget id watching)),
                        err (not_executed e),
                      )
                      | ok source ↦
                          let status : CacheStatus = elim k [
                            | none ↦ uncached
                            | some text ↦ miss
                          ] in
                          let caching : Bool = elim k [ none ↦ false | some text ↦ true ] in
                          (
                            watching,
                            ok (record {
                              log_id = id;
                              stream = stream_of source id true slot caching status k;
                              plan = plan;
                              cache_status = status;
                            }),
                          )
                    ]
              ]
        ]

  -- The stages from admission on.
  unfoldable pub run_plan : World → Scope → Plan → Option Text → World × Result QueryError Execution
  run_plan w scope plan k =
      let admitted = admit_query w in
      elim admitted.1 [
        | err e ↦ (admitted.0, err e)
        | ok slot ↦
            let executed = execute_plan admitted.0 scope plan k slot in
            elim executed.1 [
              | err e ↦ (if slot then give_slot executed.0 else executed.0, err e)
              | ok execution ↦ executed
            ]
      ]

  abbrev pub with_cache : World → Cache Column Cell → World
  with_cache w cache = record w { cache = some cache }

  -- What is read from the cache, and what is counted when nothing can be.
  unfoldable pub look_up : World → Option Text → World × Option (Entry Column Cell)
  look_up w k = elim w.cache [
    | none ↦ (w, none)
    | some cache ↦ elim k [
      | none ↦ (with_cache w (count_uncached cache), none)
      | some text ↦ let got = get cache env.now text in (with_cache w got.0, got.1)
    ]
  ]

  unfoldable pub execute : World → Context → Request → World × Result QueryError Execution
  execute w ctx req = elim (from_context ctx) [
    | err e ↦ (w, err (no_scope e))
    | ok scope ↦ elim (parse req) [
      | err e ↦ (w, err e)
      | ok statement ↦ elim (authorize scope) [
        | err e ↦ (w, err e)
        | ok allowed ↦ elim (plan_query statement req) [
          | err e ↦ (w, err e)
          | ok plan ↦
              let k = cache_key w scope plan in
              let found = look_up w k in
              elim found.1 [
                | some cached ↦ serve_from_cache found.0 scope plan cached
                | none ↦ run_plan found.0 scope plan k
              ]
        ]
      ]
    ]
  ]
