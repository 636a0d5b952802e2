-- ===== src/Api/RateLimit/Allowance.antt =====
-- What the token buckets of internal/api/ratelimit.go allow.
use pivot.Common.{
  ℕ, ◌+◌, ◌-◌, ◌*◌, ◌/◌, ◌≤◌, ◌<◌, ◌≡◌, refl, sym, ◌∙◌, inl, inr, Bool, false, Option, none, some,
  List, [], ◌∷◌, Text, leb, ◌==◌, text_eq, min, if◌then◌else◌, lookup, insert, lookup-insert,
  lookup-insert_self, lookup-delete, Option-cases, Bool-cases, beq→eq, arith,
}
use pivot.Api.RateLimit.{
  RateLimit, token, Bucket, Limiter, bucket_ttl, drop_idle, sweep_buckets, sweep_locked, refill,
  allow,
}

-- The tokens that a key has at a time.
unfoldable pub stock : RateLimit → ℕ → Text → List (Text × Bucket) → ℕ
stock limit now key buckets = elim (lookup key buckets) [
  | none ↦ limit.burst * token limit
  | some b ↦ refill limit now b
]

-- A bucket that was idle long enough to be dropped is full again.
abbrev pub Refills : RateLimit → Type 0
Refills limit = limit.burst * token limit ≤ bucket_ttl * limit.rate

pub mul_le : (r a b : ℕ) → a ≤ b → a * r ≤ b * r
mul_le r a b h = grind arith

idle_full :
    (limit : RateLimit) (t later : ℕ) (b : Bucket)
    → Refills limit
    → t ≤ later
    → bucket_ttl < t - b.last_seen
    → refill limit later b ≡ limit.burst * token limit
unfolding refill
idle_full limit t later b full h idle =
    ground (arith, mul_le limit.rate bucket_ttl (later - b.last_seen) (omega arith))

stock-drop_idle :
    (limit : RateLimit) (t later : ℕ) (j key : Text) (buckets : List (Text × Bucket))
    → Refills limit
    → t ≤ later
    → stock limit later key (drop_idle t j buckets) ≡ stock limit later key buckets
unfolding stock drop_idle
stock-drop_idle limit t later j key buckets full h = elim (Option-cases (lookup j buckets)) [
  | inl e ↦ ground arith
  | inr (b, e) ↦
      ground (arith, idle_full limit t later b full h, lookup-delete j key buckets, beq→eq j key)
]

stock-sweep_buckets :
    (limit : RateLimit) (t later : ℕ) (key : Text) (entries buckets : List (Text × Bucket))
    → Refills limit
    → t ≤ later
    → stock limit later key (sweep_buckets t entries buckets) ≡ stock limit later key buckets
unfolding sweep_buckets
stock-sweep_buckets limit t later key [] buckets full h = refl
stock-sweep_buckets limit t later key ((j, b) ∷ entries) buckets full h =
    stock-sweep_buckets limit t later key entries (drop_idle t j buckets) full h
    ∙ stock-drop_idle limit t later j key buckets full h

stock-sweep_locked :
    (l : Limiter) (t later : ℕ) (key : Text)
    → Refills l.limit
    → t ≤ later
    → ((sweep_locked l t).limit ≡ l.limit)
      × (stock l.limit later key (sweep_locked l t).buckets ≡ stock l.limit later key l.buckets)
unfolding sweep_locked
stock-sweep_locked l t later key full h =
    ground (arith, stock-sweep_buckets l.limit t later key l.buckets l.buckets full h)

-- Time gives a key tokens at the rate, and takes none.
stock_later :
    (limit : RateLimit) (t later : ℕ) (key : Text) (buckets : List (Text × Bucket))
    → t ≤ later
    → stock limit later key buckets ≤ stock limit t key buckets + (later - t) * limit.rate
unfolding stock refill
stock_later limit t later key buckets h = elim (Option-cases (lookup key buckets)) [
  | inl e ↦ ground arith
  | inr (b, e) ↦ ground (
    arith,
    mul_le limit.rate (later - b.last_seen) ((t - b.last_seen) + (later - t)) (omega arith),
  )
]

stock_capped :
    (limit : RateLimit) (t : ℕ) (key : Text) (buckets : List (Text × Bucket))
    → stock limit t key buckets ≤ limit.burst * token limit
unfolding stock refill
stock_capped limit t key buckets = elim (Option-cases (lookup key buckets)) [
  | inl e ↦ ground arith
  | inr (b, e) ↦ ground arith
]

-- The request of a key is let through when the key has a token.
unfoldable pub admits : Limiter → ℕ → Text → Bool
admits l now key = leb (token l.limit) (stock l.limit now key l.buckets)

abbrev pub left_after : Limiter → ℕ → Text → ℕ
left_after l now key =
    let tokens = stock l.limit now key l.buckets in
    if admits l now key then tokens - token l.limit else tokens

pub allow_exact :
    (l : Limiter) (now : ℕ) (key : Text)
    → Refills l.limit
    → allow l now key ≡ (
      record (sweep_locked l now) {
        buckets =
            insert key
              (record { tokens = left_after l now key; last_seen = now })
              (sweep_locked l now).buckets;
      },
      if admits l now key
          then none
          else some ((token l.limit - stock l.limit now key l.buckets) / l.limit.rate),
    )
unfolding allow stock admits refill
allow_exact l now key full =
    let swept = sweep_locked l now in
    elim (Option-cases (lookup key swept.buckets)) [
      | inl e ↦ ground (arith, stock-sweep_locked l now now key full)
      | inr (b, e) ↦ ground (arith, stock-sweep_locked l now now key full)
    ]

pub allow_limit :
    (l : Limiter) (now : ℕ) (key : Text) → Refills l.limit → (allow l now key).0.limit ≡ l.limit
allow_limit l now key full =
    rw (allow_exact l now key full) (stock-sweep_locked l now now key full (omega arith)).0

-- The key that asked has what is left, and what time adds to it.
pub allow_own :
    (l : Limiter) (now later : ℕ) (key : Text)
    → Refills l.limit
    → stock l.limit later key (allow l now key).0.buckets
      ≡ min (left_after l now key + (later - now) * l.limit.rate) (l.limit.burst * token l.limit)
unfolding stock refill
allow_own l now later key full = rw (allow_exact l now key full) (
    ground (
      arith,
      lookup-insert_self key (record { tokens = left_after l now key; last_seen = now })
          (sweep_locked l now).buckets,
    ))

-- Another key keeps what it has.
pub allow_other :
    (l : Limiter) (now later : ℕ) (j key : Text)
    → Refills l.limit
    → now ≤ later
    → (j == key) ≡ false
    → stock l.limit later key (allow l now j).0.buckets ≡ stock l.limit later key l.buckets
unfolding stock
allow_other l now later j key full h ne = rw (allow_exact l now j full) (
    ground (
      arith,
      lookup-insert j key (record { tokens = left_after l now j; last_seen = now })
          (sweep_locked l now).buckets,
      stock-sweep_locked l now later key full h,
    ))

-- The requests are at these times, from the first to the last, in order.
unfoldable pub Within : ℕ → ℕ → List (ℕ × Text) → Type 0
Within start stop [] = start ≤ stop
Within start stop ((now, key) ∷ requests) = (start ≤ now) × Within now stop requests

-- The limiter after some requests, and how many of one key were let through.
unfoldable pub after : Limiter → List (ℕ × Text) → Limiter
after l [] = l
after l ((now, key) ∷ requests) = after (allow l now key).0 requests

unfoldable pub counts : Option ℕ → Bool → ℕ
counts none is_key = if is_key then 1 else 0
counts (some wait) is_key = 0

unfoldable pub passed : Limiter → List (ℕ × Text) → Text → ℕ
passed l [] key = 0
passed l ((now, j) ∷ requests) key =
    counts (allow l now j).1 (j == key) + passed (allow l now j).0 requests key

pub Within-le :
    (start stop : ℕ) (requests : List (ℕ × Text)) → Within start stop requests → start ≤ stop
unfolding Within
Within-le start stop [] w = w
Within-le start stop ((now, key) ∷ requests) w = omega (arith, w.0, Within-le now stop requests w.1)

-- What a request costs a key.
step_stock :
    (l : Limiter) (now : ℕ) (j key : Text)
    → Refills l.limit
    → counts (allow l now j).1 (j == key) * token l.limit
        + stock l.limit now key (allow l now j).0.buckets
      ≤ stock l.limit now key l.buckets
unfolding counts admits
step_stock l now j key full = elim (Bool-cases (j == key)) [
  | inl e ↦ ground (arith, beq→eq j key e, allow_exact l now key full, allow_own l now now key full)
  | inr e ↦ ground (arith, allow_exact l now j full, allow_other l now now j key full)
]

passed-stock :
    (limit : RateLimit) (l : Limiter) (requests : List (ℕ × Text)) (key : Text) (start stop : ℕ)
    → Refills limit
    → l.limit ≡ limit
    → Within start stop requests
    → passed l requests key * token limit
      ≤ stock limit start key l.buckets + (stop - start) * limit.rate
unfolding passed Within
passed-stock limit l [] key start stop full same w = ground arith
passed-stock limit l ((now, j) ∷ requests) key start stop full same w =
    let full' : Refills l.limit = rw same full in
    let next = (allow l now j).0 in
    let rest =
      passed-stock limit next requests key now stop full (allow_limit l now j full' ∙ same) w.1 in
    let order = Within-le now stop requests w.1 in
    let later = stock_later limit start now key l.buckets w.0 in
    let time =
      mul_le limit.rate ((now - start) + (stop - now)) (stop - start) (omega (arith, order, w.0)) in
    let cost : counts (allow l now j).1 (j == key) * token limit + stock limit now key next.buckets
        ≤ stock limit now key l.buckets =
      rw (sym same) (step_stock l now j key full') in
    grind (arith, cost, later, time, rest)

-- In every stretch of time, whatever came before it and whatever other keys ask for in it, the
-- limiter lets through at most the burst of one key's requests, and as many more as the rate gives
-- in that time; the limit is one whose full burst comes back before an idle bucket is dropped.
pub passed_bounded :
    (l : Limiter) (requests : List (ℕ × Text)) (key : Text) (start stop : ℕ)
    → Refills l.limit
    → Within start stop requests
    → passed l requests key * token l.limit
      ≤ l.limit.burst * token l.limit + (stop - start) * l.limit.rate
passed_bounded l requests key start stop full w = omega (
  arith,
  passed-stock l.limit l requests key start stop full refl w,
  stock_capped l.limit start key l.buckets,
)
