-- ===== src/Common/Texts.antt =====
-- What the code uses of Go's package strings, on bytes; a text that is trimmed or lowered is ASCII.
use Prim.Native.Nat.{ℕ, ◌+◌}
use mathlib.Core.Path.{◌≡◌, refl}
use mathlib.Core.Bool.{Bool, true, false, ◌&&◌, ◌||◌}
use mathlib.Core.List.{List, [], ◌∷◌, ◌++◌}
use native.Mathlib.Omega.{arith}
use pivot.Common.Tests.{leb, nat_beq_iff, if◌then◌else◌}
use pivot.Common.Lists.{All}
use pivot.Common.Keys.{Text, nat_eq, ◌==◌, contains}
use pivot.Common.Cut.{Lacks}

-- `strings.ToLower`, byte by byte.
unfoldable pub lower : ℕ → ℕ
lower c = if leb 65 c && leb c 90 then c + 32 else c

unfoldable pub is_space : ℕ → Bool
is_space c = leb 9 c && leb c 13 || c == 32

unfoldable pub trim_left : Text → Text
trim_left [] = []
trim_left (c ∷ s) = if is_space c then trim_left s else c ∷ s

unfoldable pub trim_right : Text → Text
trim_right [] = []
trim_right (c ∷ s) =
    let rest = trim_right s in
    elim rest [ [] ↦ if is_space c then [] else c ∷ [] | x ∷ xs ↦ c ∷ x ∷ xs ]

-- `strings.TrimSpace`.
unfoldable pub trim_space : Text → Text
trim_space s = trim_right (trim_left s)

-- `strings.HasPrefix`.
unfoldable pub has_prefix : Text → Text → Bool
has_prefix [] s = true
has_prefix (p ∷ ps) [] = false
has_prefix (p ∷ ps) (c ∷ s) = p == c && has_prefix ps s

-- A byte joins the first of some parts.
unfoldable pub onto_first : ℕ → List Text → List Text
onto_first c [] = (c ∷ []) ∷ []
onto_first c (part ∷ parts) = (c ∷ part) ∷ parts

-- `strings.Split` at a separator of one byte.
unfoldable pub split : ℕ → Text → List Text
split sep [] = [] ∷ []
split sep (c ∷ s) = let rest = split sep s in if c == sep then [] ∷ rest else onto_first c rest

-- `strings.Join` with a separator of one byte.
unfoldable pub join : ℕ → List Text → Text
join sep [] = []
join sep (part ∷ []) = part
join sep (part ∷ next ∷ parts) = part ++ (sep ∷ join sep (next ∷ parts))

pub split_absent : (sep : ℕ) (s : Text) → Lacks s sep → split sep s ≡ s ∷ []
unfolding split contains onto_first
split_absent sep [] h = refl
split_absent sep (c ∷ s) h =
    ground (arith, split_absent sep s, nat_beq_iff sep c, nat_beq_iff c sep)

pub split-append :
    (sep : ℕ) (s t : Text) → Lacks s sep → split sep (s ++ (sep ∷ t)) ≡ s ∷ split sep t
unfolding split contains onto_first
split-append sep [] t h = ground (arith, nat_beq_iff sep sep)
split-append sep (c ∷ s) t h =
    ground (arith, split-append sep s t, nat_beq_iff sep c, nat_beq_iff c sep)

-- Parts without the separator are what a join of them is split into.
pub split-join :
    (sep : ℕ) (part : Text) (parts : List Text)
    → All (λ s. Lacks s sep) (part ∷ parts)
    → split sep (join sep (part ∷ parts)) ≡ part ∷ parts
unfolding join
split-join sep part [] h = split_absent sep part h.0
split-join sep part (next ∷ parts) h =
    ground (arith, split-append sep part (join sep (next ∷ parts)), split-join sep next parts h.1)

pub has_prefix-append : (p s : Text) → has_prefix p (p ++ s) ≡ true
unfolding has_prefix
has_prefix-append [] s = refl
has_prefix-append (c ∷ p) s = ground (arith, nat_beq_iff c c, has_prefix-append p s)

-- Nothing is trimmed from a text without white space.
abbrev pub Solid : Text → Type 0
Solid s = All (λ c. is_space c ≡ false) s

trim_right-Solid : (s : Text) → Solid s → trim_right s ≡ s
unfolding trim_right
trim_right-Solid [] h = refl
trim_right-Solid (c ∷ []) h = ground arith
trim_right-Solid (c ∷ d ∷ s) h = ground (arith, trim_right-Solid (d ∷ s) h.1)

pub trim_space-Solid : (s : Text) → Solid s → trim_space s ≡ s
unfolding trim_space trim_left
trim_space-Solid [] h = trim_right-Solid [] h
trim_space-Solid (c ∷ s) h = ground (arith, trim_right-Solid (c ∷ s) h)

trim_right_line : (s : Text) → Solid s → trim_right (s ++ (10 ∷ [])) ≡ s
unfolding trim_right is_space
trim_right_line [] h = refl
trim_right_line (c ∷ []) h = ground arith
trim_right_line (c ∷ d ∷ s) h = ground (arith, trim_right_line (d ∷ s) h.1)

-- The end of a line is trimmed.
pub trim_space_line : (s : Text) → Solid s → trim_space (s ++ (10 ∷ [])) ≡ s
unfolding trim_space trim_left is_space trim_right
trim_space_line [] h = trim_right_line [] h
trim_space_line (c ∷ s) h = ground (arith, trim_right_line (c ∷ s) h)
