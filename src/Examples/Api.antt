-- ===== src/Examples/Api.antt =====
-- internal/api/ratelimit.go under `LimitAuth`: an address that has just used up its burst.
use pivot.Common.{
  ℕ, ◌+◌, ◌-◌, ◌*◌, ◌≤◌, ◌≡◌, ◌≢◌, refl, none, some, List, [], ◌∷◌, Text, codes, lookup, insert,
  delete, text_beq, arith,
}
use pivot.Api.RateLimit.{
  limit_auth, Limiter, second, token, drop_idle, sweep_buckets, sweep_locked, refill, allow,
  with_rate_limit,
}
use pivot.Api.RateLimit.Allowance.{Within, after, passed, Refills, passed_bounded}
use pivot.Api.RateLimit.Retry.{OfOthers, retry_allowed, retry_after_early}

abbrev start : ℕ
start = 1000 * second

abbrev address : Text
address = codes "10.0.0.7"

abbrev other : Text
other = codes "10.0.0.8"

-- The bucket was emptied at the start.
abbrev emptied : Limiter
emptied = record {
  limit = limit_auth;
  buckets = (address, record { tokens = 0; last_seen = start }) ∷ [];
  last_sweep = start;
}

abbrev soon : ℕ
soon = start + 100000000

program : Unit {0}
unfolding drop_idle sweep_buckets sweep_locked refill allow with_rate_limit lookup insert delete
    text_beq Within passed OfOthers after
program = tt

limit_auth-Refills : Refills limit_auth
limit_auth-Refills = omega arith

abbrev requests : List (ℕ × Text)
requests = (soon, address) ∷ (start + 2 * second, address) ∷ (start + 3 * second, address) ∷ []

passed_bounded_example :
    passed emptied requests address * token limit_auth
    ≤ 5 * token limit_auth + ((start + 4 * second) - start) * 1
unfolding program
passed_bounded_example =
    passed_bounded emptied requests address start (start + 4 * second) limit_auth-Refills
      (omega arith, (omega arith, (omega arith, omega arith)))

refused : (allow emptied soon address).1 ≡ some 1900000000
unfolding program
refused = refl

retry_allowed_example :
    (let last = after (allow emptied soon address).0 ((start + second, other) ∷ []) in
      (allow last (start + 2 * second + 1) address).1)
    ≡ none
unfolding program
retry_allowed_example =
    retry_allowed emptied soon (start + 2 * second + 1) 1900000000 address
      ((start + second, other) ∷ []) limit_auth-Refills (omega arith) (omega arith) refused
      (refl, tt) (omega arith, omega arith) (omega arith)

retry_after_early_example :
    (allow (allow emptied soon address).0 (soon + 1 * second) address).1 ≢ none
unfolding program
retry_after_early_example =
    retry_after_early emptied soon 1900000000 1 address limit_auth-Refills (omega arith) refused
      refl (omega arith) (omega arith)
