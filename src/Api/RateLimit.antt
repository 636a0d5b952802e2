-- ===== src/Api/RateLimit.antt =====
-- internal/api/ratelimit.go: a token bucket for each key. A rate is a fraction, so many tokens in so
-- many seconds, and tokens are counted in parts of a token, as many as that number of seconds has
-- nanoseconds: the arithmetic of the code, without the rounding of float64. Times are nanoseconds
-- since the zero time of Go, read from a clock that does not go back.
pub mod Allowance
pub mod Retry
use pivot.Common.{
  ℕ, ◌+◌, ◌-◌, ◌*◌, ◌/◌, Bool, true, false, Option, none, some, List, [], ◌∷◌, Text, ltb, leb,
  text_eq, min, if◌then◌else◌, lookup, insert, delete,
}

pub record RateLimit : Type 0 where
  pub rate : ℕ
  pub seconds : ℕ
  pub burst : ℕ

abbrev pub limit_default : RateLimit
limit_default = record { rate = 20; seconds = 1; burst = 40 }

abbrev pub limit_auth : RateLimit
limit_auth = record { rate = 1; seconds = 2; burst = 5 }

abbrev pub limit_expensive : RateLimit
limit_expensive = record { rate = 2; seconds = 1; burst = 5 }

abbrev pub limit_telemetry : RateLimit
limit_telemetry = record { rate = 1; seconds = 5; burst = 10 }

abbrev pub second : ℕ
second = 1000000000

-- The parts of one token.
abbrev pub token : RateLimit → ℕ
token limit = limit.seconds * second

pub record Bucket : Type 0 where
  pub tokens : ℕ
  pub last_seen : ℕ

pub record Limiter : Type 0 where
  pub limit : RateLimit
  pub buckets : List (Text × Bucket)
  pub last_sweep : ℕ

abbrev pub sweep_interval : ℕ
sweep_interval = 5 * (60 * second)

abbrev pub bucket_ttl : ℕ
bucket_ttl = 10 * (60 * second)

abbrev pub new_limiter : RateLimit → Limiter
new_limiter limit = record { limit = limit; buckets = []; last_sweep = 0 }

-- One turn of the loop of `sweepLocked`.
unfoldable pub drop_idle : ℕ → Text → List (Text × Bucket) → List (Text × Bucket)
drop_idle now key buckets = elim (lookup key buckets) [
  | none ↦ buckets
  | some b ↦ if ltb bucket_ttl (now - b.last_seen) then delete key buckets else buckets
]

unfoldable pub sweep_buckets :
    ℕ → List (Text × Bucket) → List (Text × Bucket) → List (Text × Bucket)
sweep_buckets now [] buckets = buckets
sweep_buckets now ((key, b) ∷ rest) buckets = sweep_buckets now rest (drop_idle now key buckets)

unfoldable pub sweep_locked : Limiter → ℕ → Limiter
sweep_locked l now =
    if ltb (now - l.last_sweep) sweep_interval
    then l
    else record l { last_sweep = now; buckets = sweep_buckets now l.buckets l.buckets }

abbrev pub full_bucket : RateLimit → ℕ → Bucket
full_bucket limit now = record { tokens = limit.burst * token limit; last_seen = now }

-- Refill for elapsed time, capped at the burst size.
unfoldable pub refill : RateLimit → ℕ → Bucket → ℕ
refill limit now b = min (b.tokens + (now - b.last_seen) * limit.rate) (limit.burst * token limit)

-- `none` where the request may proceed, and otherwise how long to wait.
unfoldable pub allow : Limiter → ℕ → Text → Limiter × Option ℕ
allow l now key =
    let swept = sweep_locked l now in
    let b : Bucket = elim (lookup key swept.buckets) [
      | some b ↦ b
      | none ↦ full_bucket swept.limit now
    ] in
    let tokens = refill swept.limit now b in
    let keep : ℕ → Limiter = λ left. record swept {
      buckets = insert key (record { tokens = left; last_seen = now }) swept.buckets;
    } in
    if leb (token swept.limit) tokens
    then (keep (tokens - token swept.limit), none)
    else (keep tokens, some ((token swept.limit - tokens) / swept.limit.rate))

-- `Retry-After`, where the middleware refuses.
unfoldable pub with_rate_limit : Limiter → ℕ → Text → Limiter × Option ℕ
with_rate_limit l now key =
    let answer = allow l now key in
    (
      answer.0,
      elim answer.1 [
        | none ↦ none
        | some wait ↦ let seconds = wait / second in some (if ltb seconds 1 then 1 else seconds)
      ],
    )
