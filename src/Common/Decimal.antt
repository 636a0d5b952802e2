-- ===== src/Common/Decimal.antt =====
-- Decimal numerals, as `strconv.FormatUint` and `fmt`'s `%d` write them.
use Prim.Native.Nat.{ℕ, zero, suc, ◌+◌, ◌-◌, ◌*◌, ◌/◌, ◌%◌, ◌≤◌, ◌<◌}
use mathlib.Core.Path.{◌≡◌, refl, ap, ◌∙◌, sym}
use mathlib.Core.Bool.{false}
use mathlib.Core.List.{[], ◌∷◌, ◌++◌}
use native.Mathlib.Omega.{arith}
use pivot.Common.Tests.{ltb, if◌then◌else◌, Bool-cases}
use mathlib.Core.Logic.{inl, inr}
use pivot.Common.Keys.{Text, nat_eq, contains, contains-append}

-- The digits of `n`, the most significant first. The fuel bounds their number.
unfoldable pub digits : ℕ → ℕ → Text
digits zero n = (48 + n % 10) ∷ []
digits (suc fuel) n =
    let more = digits fuel (n / 10) ++ ((48 + n % 10) ∷ []) in
    if ltb n 10 then (48 + n) ∷ [] else more

-- `n` digits of fuel are enough for `n`.
unfoldable pub decimal : ℕ → Text
decimal n = digits n n

-- The number that a numeral stands for, after one that has been read.
unfoldable pub value : ℕ → Text → ℕ
value n [] = n
value n (c ∷ s) = value (10 * n + (c - 48)) s

value-append : (n : ℕ) (s t : Text) → value n (s ++ t) ≡ value (value n s) t
unfolding value
value-append n [] t = refl
value-append n (c ∷ s) t = value-append (10 * n + (c - 48)) s t

value-digits : (fuel n : ℕ) → n ≤ fuel → value 0 (digits fuel n) ≡ n
unfolding digits value
value-digits zero n h = omega arith
value-digits (suc fuel) n h = elim (Bool-cases (ltb n 10)) [
  | inl small ↦ rw small (omega arith)
  | inr large ↦
      rw (large, value-append 0 (digits fuel (n / 10)) ((48 + n % 10) ∷ []))
        (omega (arith, value-digits fuel (n / 10) (ground arith)))
]

-- A numeral is read back.
pub value-decimal : (n : ℕ) → value 0 (decimal n) ≡ n
unfolding decimal
value-decimal n = value-digits n n (omega arith)

pub decimal-injective : (m n : ℕ) → decimal m ≡ decimal n → m ≡ n
decimal-injective m n e = sym (value-decimal m) ∙ ap (value 0) e ∙ value-decimal n

digits-lacks : (fuel n c : ℕ) → 57 < c → contains (digits fuel n) c ≡ false
unfolding digits contains
digits-lacks zero n c h = ground arith
digits-lacks (suc fuel) n c h = ground (
  arith,
  contains-append c (digits fuel (n / 10)) ((48 + n % 10) ∷ []),
  digits-lacks fuel (n / 10) c,
)

-- No byte above `9` stands in a numeral.
pub decimal-lacks : (n c : ℕ) → 57 < c → contains (decimal n) c ≡ false
unfolding decimal
decimal-lacks n c h = digits-lacks n n c h
