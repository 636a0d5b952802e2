-- ===== src/Common/Cut.antt =====
-- `strings.Cut` at a separator of one byte, and texts joined by such a separator.
use Prim.Native.Nat.{ℕ}
use mathlib.Core.Path.{◌≡◌, refl, ap}
use mathlib.Core.Bool.{Bool, true, false}
use mathlib.Core.List.{[], ◌∷◌, ◌++◌}
use native.Mathlib.Omega.{arith}
use pivot.Common.Tests.{nat_beq_iff, if◌then◌else◌}
use pivot.Common.Lists.{length}
use pivot.Common.Keys.{Text, nat_eq, ◌==◌, contains}

-- The text before the separator, the text after it, and whether it is there.
unfoldable pub cut : ℕ → Text → Text × Text × Bool
cut sep [] = ([], [], false)
cut sep (c ∷ s) =
    let rest = cut sep s in if c == sep then ([], s, true) else (c ∷ rest.0, rest.1, rest.2)

-- The byte does not occur in the text.
abbrev pub Lacks : Text → ℕ → Type 0
Lacks s c = contains s c ≡ false

-- A text without the separator is cut off whole in front of one.
pub cut-append : (sep : ℕ) (s t : Text) → Lacks s sep → cut sep (s ++ (sep ∷ t)) ≡ (s, t, true)
unfolding cut contains
cut-append sep [] t h = ground (arith, nat_beq_iff sep sep)
cut-append sep (c ∷ s) t h =
    ground (arith, cut-append sep s t, nat_beq_iff sep c, nat_beq_iff c sep)

pub cut_absent : (sep : ℕ) (s : Text) → Lacks s sep → cut sep s ≡ (s, [], false)
unfolding cut contains
cut_absent sep [] h = refl
cut_absent sep (c ∷ s) h = ground (arith, cut_absent sep s, nat_beq_iff sep c, nat_beq_iff c sep)

-- Two texts cut at the same separator, which neither first part holds, agree on both parts.
pub append-injective :
    (sep : ℕ) (s s' t t' : Text)
    → Lacks s sep
    → Lacks s' sep
    → s ++ (sep ∷ t) ≡ s' ++ (sep ∷ t')
    → (s ≡ s') × (t ≡ t')
append-injective sep s s' t t' h h' e =
    let same : cut sep (s ++ (sep ∷ t)) ≡ cut sep (s' ++ (sep ∷ t')) = ap (cut sep) e in
    ground (arith, cut-append sep s t h, cut-append sep s' t' h')

-- Two texts that start with parts of one length agree on these parts.
pub append-same_length :
    (s s' t t' : Text) → length s ≡ length s' → s ++ t ≡ s' ++ t' → (s ≡ s') × (t ≡ t')
append-same_length [] [] t t' l e = (refl, e)
append-same_length [] (c ∷ s') t t' l e = absurd (omega arith)
append-same_length (c ∷ s) [] t t' l e = absurd (omega arith)
append-same_length (c ∷ s) (c' ∷ s') t t' l e = ground (arith, append-same_length s s' t t')
