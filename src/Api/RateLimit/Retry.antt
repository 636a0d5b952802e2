-- ===== src/Api/RateLimit/Retry.antt =====
-- When a request that internal/api/ratelimit.go has refused is let through.
use pivot.Common.{
  ℕ, ◌+◌, ◌-◌, ◌*◌, ◌/◌, ◌%◌, ◌≤◌, ◌<◌, ◌≡◌, ◌≢◌, refl, sym, ◌∙◌, inl, inr, false, none, some, List,
  [], ◌∷◌, Text, ◌==◌, text_eq, Bool-cases, arith,
}
use pivot.Api.RateLimit.{RateLimit, token, Limiter, second, allow, with_rate_limit}
use pivot.Api.RateLimit.Allowance.{
  stock, Refills, mul_le, admits, left_after, allow_exact, allow_limit, allow_own, allow_other,
  Within, Within-le, after,
}

-- None of the requests is of this key.
unfoldable pub OfOthers : Text → List (ℕ × Text) → Type 0
OfOthers key [] = Unit
OfOthers key ((now, j) ∷ requests) = ((j == key) ≡ false) × OfOthers key requests

after_others :
    (limit : RateLimit) (l : Limiter) (requests : List (ℕ × Text)) (key : Text) (start later : ℕ)
    → Refills limit
    → l.limit ≡ limit
    → Within start later requests
    → OfOthers key requests
    → ((after l requests).limit ≡ limit)
      × (stock limit later key (after l requests).buckets ≡ stock limit later key l.buckets)
unfolding after Within OfOthers
after_others limit l [] key start later full same w others = (same, refl)
after_others limit l ((now, j) ∷ requests) key start later full same w others =
    let full' : Refills l.limit = rw same full in
    let next = (allow l now j).0 in
    let order = Within-le now later requests w.1 in
    let rest =
      after_others limit next requests key now later full (allow_limit l now j full' ∙ same) w.1
        others.1 in
    let kept : stock limit later key next.buckets ≡ stock limit later key l.buckets =
      rw (sym same) (allow_other l now later j key full' order others.0) in
    (rest.0, rest.1 ∙ kept)

mul_lt : (r a b : ℕ) → 0 < r → a < b → a * r < b * r
mul_lt r a b h k = grind arith

div_lt : (a r : ℕ) → 0 < r → a < (a / r + 1) * r
div_lt a r h = grind arith

denied_wait :
    (l : Limiter) (now wait : ℕ) (key : Text)
    → Refills l.limit
    → 0 < l.limit.rate
    → (allow l now key).1 ≡ some wait
    → (left_after l now key ≡ stock l.limit now key l.buckets)
      × (token l.limit - stock l.limit now key l.buckets < (wait + 1) * l.limit.rate)
unfolding admits
denied_wait l now wait key full rate denied =
    let short = token l.limit - stock l.limit now key l.buckets in
    elim (Bool-cases (admits l now key)) [
      | inl e ↦ ground (arith, allow_exact l now key full)
      | inr e ↦ ground (arith, allow_exact l now key full, div_lt short l.limit.rate rate)
    ]

-- A refused request says when to come back: made again after that time, it is let through, whatever
-- other keys ask for meanwhile. The limit has a burst and a rate of at least one, and its full burst
-- comes back before an idle bucket is dropped.
pub retry_allowed :
    (l : Limiter) (now later wait : ℕ) (key : Text) (others : List (ℕ × Text))
    → Refills l.limit
    → 0 < l.limit.burst
    → 0 < l.limit.rate
    → (allow l now key).1 ≡ some wait
    → OfOthers key others
    → Within now later others
    → now + wait < later
    → (allow (after (allow l now key).0 others) later key).1 ≡ none
unfolding admits
retry_allowed l now later wait key others full burst rate denied apart w enough =
    let next = (allow l now key).0 in
    let last = after next others in
    let past =
      after_others l.limit next others key now later full (allow_limit l now key full) w apart in
    let ready : token l.limit ≤ stock l.limit later key last.buckets = ground (
      arith,
      past.1,
      denied_wait l now wait key full rate denied,
      allow_own l now later key full,
      mul_le l.limit.rate (wait + 1) (later - now) (omega (arith, enough)),
      mul_le (token l.limit) 1 l.limit.burst burst,
    ) in
    let ready' : token last.limit ≤ stock last.limit later key last.buckets = rw past.0 ready in
    ground (arith, ready', allow_exact last later key (rw past.0 full))

div_le : (a r : ℕ) → 0 < r → a / r * r ≤ a
div_le a r h = grind arith

-- Before the wait is over the key has no token.
not_yet :
    (l : Limiter) (now wait passing : ℕ) (key : Text)
    → Refills l.limit
    → 0 < l.limit.rate
    → (allow l now key).1 ≡ some wait
    → passing < wait
    → stock l.limit (now + passing) key (allow l now key).0.buckets < token l.limit
unfolding admits
not_yet l now wait passing key full rate denied early =
    let short = token l.limit - stock l.limit now key l.buckets in
    ground (
      arith,
      denied_wait l now wait key full rate denied,
      allow_exact l now key full,
      allow_own l now (now + passing) key full,
      div_le short l.limit.rate rate,
      mul_lt l.limit.rate passing wait rate early,
    )

-- The header that goes with a refusal is cut to whole seconds: where the wait is more than a second
-- and no whole number of seconds, a client that comes back exactly when it was told to is refused
-- again.
pub retry_after_early :
    (l : Limiter) (now wait seconds : ℕ) (key : Text)
    → Refills l.limit
    → 0 < l.limit.rate
    → (allow l now key).1 ≡ some wait
    → (with_rate_limit l now key).1 ≡ some seconds
    → second < wait
    → 0 < wait % second
    → (allow (allow l now key).0 (now + seconds * second) key).1 ≢ none
unfolding admits with_rate_limit
retry_after_early l now wait seconds key full rate denied told long uneven =
    let next = (allow l now key).0 in
    let limit = allow_limit l now key full in
    let early : seconds * second < wait = ground (arith, told, denied) in
    let refused : stock next.limit (now + seconds * second) key next.buckets < token next.limit =
      rw limit (not_yet l now wait (seconds * second) key full rate denied early) in
    ground (arith, refused, allow_exact next (now + seconds * second) key (rw limit full))
