-- ===== src/Auth/Lockout.antt =====
-- The lockout of internal/auth/service.go: how long a window is, and what a refused login leaves.
use pivot.Common.{
  ℕ, zero, suc, ◌-◌, ◌*◌, ◌^◌, ◌≤◌, ◌<◌, min, ◌≡◌, refl, inl, inr, nat_eq, leb, if◌then◌else◌,
  Bool-cases, arith,
}
use native.Mathlib.Nat.{mul_assoc}
use native.Mathlib.Omega.{pow_step}
use pivot.Auth.Service.{Policy, twice, at_least, lengthen, lockout_window}

double_pow : (d n : ℕ) → d * 2 * 2 ^ n ≡ d * 2 ^ suc n
double_pow d n = grind (arith, mul_assoc d 2 (2 ^ n), pow_step 2 n)

pow_grows : (d n : ℕ) → d ≤ d * 2 ^ n
pow_grows d zero = omega arith
pow_grows d (suc n) = omega (arith, pow_grows (d * 2) n, double_pow d n)

at_least-leb : (a b : ℕ) → a < 2 ^ 63 → b < 2 ^ 63 → at_least a b ≡ leb b a
unfolding at_least
at_least-leb a b h k = ground arith

twice_double : (d : ℕ) → d < 2 ^ 62 → twice d ≡ d * 2
unfolding twice
twice_double d h = omega arith

lengthen_step :
    (cap n d : ℕ)
    → d < 2 ^ 62
    → cap < 2 ^ 62
    → lengthen cap (suc n) d ≡ (if leb cap (d * 2) then cap else lengthen cap n (d * 2))
unfolding lengthen
lengthen_step cap n d h k =
    rw (twice_double d h, at_least-leb (d * 2) cap (omega arith) (omega arith)) refl

-- A window that starts below the cap ends at the cap or at its doublings, and no product of the
-- loop overflows.
lengthen_exact : (cap n d : ℕ) → d ≤ cap → cap < 2 ^ 62 → lengthen cap n d ≡ min cap (d * 2 ^ n)
unfolding lengthen
lengthen_exact cap zero d h k = omega arith
lengthen_exact cap (suc n) d h k = elim (Bool-cases (leb cap (d * 2))) [
  | inl far ↦ ground (arith, lengthen_step cap n d, double_pow d n, pow_grows (d * 2) n)
  | inr near ↦ ground (arith, lengthen_step cap n d, double_pow d n, lengthen_exact cap n (d * 2))
]

-- The lockout after a failure past the threshold is the base window doubled once for each failure
-- beyond it, and the longest window where that is longer, for a policy whose base window is at most
-- the longest and whose longest is below 2^62 nanoseconds.
pub lockout_window_exact :
    (p : Policy) (failed_count : ℕ)
    → p.lockout_duration ≤ p.max_lockout_duration
    → p.max_lockout_duration < 2 ^ 62
    → lockout_window p failed_count
      ≡ min p.max_lockout_duration (p.lockout_duration * 2 ^ (failed_count - p.max_failed_attempts))
unfolding lockout_window
lockout_window_exact p failed_count h k =
    lengthen_exact p.max_lockout_duration (failed_count - p.max_failed_attempts) p.lockout_duration
      h k
