-- ===== src/Examples/Pipeline.antt =====
-- A query through internal/query/executor.go, with a cache and a governor.
use pivot.Common.{
  pos, negsuc, ◌≡◌, ◌≢◌, ◌⊎◌, ◌+◌, ltb, refl, true, false, Bool, none, some, List, [], ◌∷◌, codes,
  if◌then◌else◌, Result, ok, contains, arith,
}
use pivot.Tenant.{Scope, Context, from_context, is_valid}
use pivot.Authz.Model.{Relation, Subject, Object}
use pivot.Authz.Check
use pivot.Authz.Check.{Decision, Failure, EnforceError, denied, enforce}
use pivot.Query.Cache.{
  Cache, new_cache, with_max_bytes, with_max_entry_bytes, with_ttl, apply_options, get,
}
use pivot.Query.Cache.Bounds.{IsValid, new_cache-IsValid}
use pivot.Query.Cache.Lasting.{after_gets}
use pivot.Query.Stream.{
  Column, Cell, string, other, estimate, estimate_cell, Source, miss, World, LoggedStream, close,
  read,
}
use pivot.Query.Stream.Filling.{size, whole, close_caches_whole}
use pivot.Query.Stream.Stored.{Fits, whole_entry, close_stores}
use pivot.Query.Plan.{Connection, Request, default_max_rows, limit_rows, effective_timeout}
use pivot.Query.Executor.{Env, execute, stream_of}
use pivot.Query.Executor.Order.{permits, denied_untouched}
use pivot.Query.Executor.Limits.{smaller, row_limit, whole_seconds, limits_exact}
use pivot.Query.Executor.Held.{Settled}
use pivot.Query.Executor.Logged.{id_free}
use pivot.Query.Executor.Recorded.{Completed, run_to_end-Completed}
use pivot.Query.Executor.Settled.{run_to_end, run_to_end-Settled}

abbrev warehouse : Connection
warehouse = record {
  id = 4;
  slug = codes "warehouse";
  max_rows = pos 500;
  query_timeout_seconds = pos 30;
}

abbrev two_rows : Source
two_rows = record {
  columns = [];
  rows = (string (codes "a") ∷ []) ∷ (other 2 ∷ []) ∷ [];
  failure = none;
  truncated = false;
  cut = false;
  close_error = none;
}

answer : Bool → Check.Request → Result Failure Decision
answer allowed req = ok (record { allowed = allowed; via = codes "analyst"; through = [] })

analyst : Subject → Object → Result Failure (List Relation)
analyst subject object = ok (codes "analyst" ∷ [])

abbrev env_of : Bool → Env
env_of allowed = record {
  uuid_string = λ id. id ∷ [];
  digest = λ text. text;
  checker = some (answer allowed);
  granter = some analyst;
  connections = λ id. ok warehouse;
  admit = some (ok tt);
  open_source = λ conn rows seconds. none;
  source = λ conn sql. ok two_rows;
  start = none;
  lost = false;
  caller_killed = false;
  monitor = true;
  owner = codes "node-1";
  query_timeout = 10_000_000_000;
  now = 5;
}

abbrev cache : Cache Column Cell
cache = new_cache (with_max_bytes 900 ∷ with_max_entry_bytes 400 ∷ with_ttl 100 ∷ [])

cache-IsValid : IsValid cache
cache-IsValid = new_cache-IsValid 900 400 100

abbrev world : World
world = record {
  cache = some cache;
  slots = 2;
  connectors = 3;
  watched = 6 ∷ [];
  log = [];
  fresh = 9;
}

abbrev scope : Scope
scope = record { org_id = 1; actor_id = record { uuid = 2; valid = true } }

abbrev ctx : Context
ctx = record { scope = some scope }

abbrev request : Request
request = record { connection_id = 4; sql = codes " select 1 "; max_rows = pos 100 }

program : Unit {0}
unfolding new_cache with_max_bytes with_max_entry_bytes with_ttl apply_options id_free from_context
    is_valid permits answer contains estimate estimate_cell size Fits stream_of
program = tt

run_to_end-Settled_example :
    Settled world (run_to_end (env_of true) 1000 3 8 false false world ctx request)
unfolding program
run_to_end-Settled_example =
    run_to_end-Settled (env_of true) 1000 3 8 false false world ctx request refl

run_to_end-Completed_example :
    Completed
      (env_of true)
      3
      false
      world
      ctx
      request
      (execute (env_of true) world ctx request).1
      (run_to_end (env_of true) 1000 3 8 false false world ctx request).log
unfolding program
run_to_end-Completed_example =
    run_to_end-Completed (env_of true) 1000 3 8 false world ctx request refl refl

abbrev stream : LoggedStream
stream = stream_of (env_of true) two_rows 9 true true true miss (some (codes "k"))

denied_untouched_example :
    ((execute (env_of false) world ctx request).0 ≡ world)
    × ((execute (env_of false) world ctx request).1
        ≢ ok (record {
          log_id = 9;
          stream = stream;
          plan = record { sql = codes "select 1"; connection = warehouse; max_rows = 100 };
          cache_status = miss;
        }))
unfolding program
denied_untouched_example =
    denied_untouched (env_of false) world ctx request scope
      (record {
        log_id = 9;
        stream = stream;
        plan = record { sql = codes "select 1"; connection = warehouse; max_rows = 100 };
        cache_status = miss;
      })
      refl refl refl

limits_exact_example :
    ((limit_rows (pos 500) (pos 100) ≡ row_limit 500 100)
      × (limit_rows (negsuc 4) (pos 100) ≡ default_max_rows))
    × ((effective_timeout 10_000_000_000 (pos 30) ≡ pos (smaller (whole_seconds 10_000_000_000) 30))
        × (effective_timeout 10_000_000_000 (negsuc 0) ≡ negsuc 0))
limits_exact_example = limits_exact 500 4 30 0 10_000_000_000 (pos 100)

-- The caller leaves after one row.
close_caches_whole_example :
    ((close 8 false false world (read 1000 1 stream)).0.cache ≡ world.cache)
    ⊎ ((c : Cache Column Cell) × ((world.cache ≡ some c)
          × (((close 8 false false world (read 1000 1 stream)).0.cache ≡ some (whole 8 stream c))
              × ((stream.source.failure ≡ none) × (stream.source.close_error ≡ none)))))
unfolding program
close_caches_whole_example = close_caches_whole 1000 1 8 false false world stream refl refl refl

stream-Fits : Fits cache.max_entry_bytes stream
unfolding program
stream-Fits = (refl, (refl, (refl, (refl, omega arith))))

close_stores_example :
    (after : Cache Column Cell) × (((close 8 false false world
          (read cache.max_entry_bytes 3 stream)).0.cache
        ≡ some after)
      × ((get (after_gets after ((9, codes "k") ∷ [])) 10 (codes "k")).1
          ≡ (if ltb (8 + cache.ttl) 10 then none else some (whole_entry 8 stream cache))))
unfolding program
close_stores_example =
    close_stores 3 8 10 false false world stream cache ((9, codes "k") ∷ []) cache-IsValid refl refl
      refl refl stream-Fits (omega arith) refl (omega arith) (omega arith, tt)
