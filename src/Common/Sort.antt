-- ===== src/Common/Sort.antt =====
-- Go's order on strings, byte by byte, and `slices.Sort` on strings that are all different.
use mathlib.Core.Path.{◌≡◌, refl, sym, ◌∙◌}
use mathlib.Core.Logic.{inl, inr}
use mathlib.Core.Bool.{Bool, true, false, ◌||◌}
use mathlib.Core.List.{List, [], ◌∷◌, ◌++◌}
use native.Mathlib.Omega.{arith}
use pivot.Common.Tests.{ltb, nat_beq, if◌then◌else◌, Bool-cases}
use pivot.Common.Lists.{All, All-map}
use pivot.Common.Keys.{Text, text_eq, text_beq_iff, ◌==◌, contains, contains-head, contains-append}

unfoldable pub text_lt : Text → Text → Bool
text_lt s [] = false
text_lt [] (d ∷ t) = true
text_lt (c ∷ s) (d ∷ t) =
    let rest = text_lt s t in if ltb c d then true else if nat_beq c d then rest else false

-- One step of an insertion sort.
unfoldable pub insert_text : Text → List Text → List Text
insert_text x [] = x ∷ []
insert_text x (y ∷ ys) = let rest = insert_text x ys in if text_lt y x then y ∷ rest else x ∷ y ∷ ys

unfoldable pub sort_texts : List Text → List Text
sort_texts [] = []
sort_texts (x ∷ xs) = insert_text x (sort_texts xs)

text_lt_irrefl : (s : Text) → text_lt s s ≡ false
unfolding text_lt
text_lt_irrefl [] = refl
text_lt_irrefl (c ∷ s) = ground (arith, text_lt_irrefl s)

text_lt_trans : (s t u : Text) → text_lt s t ≡ true → text_lt t u ≡ true → text_lt s u ≡ true
unfolding text_lt
text_lt_trans s [] u h k = cc
text_lt_trans s (d ∷ t) [] h k = cc
text_lt_trans [] (d ∷ t) (e ∷ u) h k = refl
text_lt_trans (c ∷ s) (d ∷ t) (e ∷ u) h k = ground (arith, text_lt_trans s t u)

text_lt-total : (s t : Text) → text_lt s t ≡ false → text_lt t s ≡ false → s ≡ t
unfolding text_lt
text_lt-total [] [] h k = refl
text_lt-total [] (d ∷ t) h k = cc
text_lt-total (c ∷ s) [] h k = cc
text_lt-total (c ∷ s) (d ∷ t) h k = ground (arith, text_lt-total s t)

-- Each text comes before all that follow it.
abbrev pub IsAscending : List Text → Type 0
IsAscending [] = Unit
IsAscending (x ∷ xs) = All (λ y. text_lt x y ≡ true) xs × IsAscending xs

pub contains-insert_text :
    (a x : Text) (xs : List Text) → contains (insert_text x xs) a ≡ ((a == x) || contains xs a)
unfolding insert_text contains
contains-insert_text a x [] = refl
contains-insert_text a x (y ∷ ys) = ground (arith, contains-insert_text a x ys)

pub contains-sort_texts : (a : Text) (xs : List Text) → contains (sort_texts xs) a ≡ contains xs a
unfolding sort_texts contains
contains-sort_texts a [] = refl
contains-sort_texts a (x ∷ xs) =
    ground (arith, contains-insert_text a x (sort_texts xs), contains-sort_texts a xs)

above-insert :
    (z x : Text) (xs : List Text)
    → text_lt z x ≡ true
    → All (λ y. text_lt z y ≡ true) xs
    → All (λ y. text_lt z y ≡ true) (insert_text x xs)
unfolding insert_text
above-insert z x [] h a = (h, tt)
above-insert z x (y ∷ ys) h a = elim (Bool-cases (text_lt y x)) [
  | inl before ↦ rw before (a.0, above-insert z x ys h a.1)
  | inr after ↦ rw after (h, a)
]

insert_text-IsAscending :
    (x : Text) (xs : List Text)
    → contains xs x ≡ false
    → IsAscending xs
    → IsAscending (insert_text x xs)
unfolding insert_text contains
insert_text-IsAscending x [] fresh a = (tt, tt)
insert_text-IsAscending x (y ∷ ys) fresh a = elim (Bool-cases (text_lt y x)) [
  | inl before ↦
      rw before (above-insert y x ys before a.0, insert_text-IsAscending x ys (ground arith) a.1)
  | inr after ↦
      let first : text_lt x y ≡ true = ground (arith, text_lt-total x y, text_beq_iff x y) in
      rw after (
        (
          first,
          All-map (λ z. text_lt y z ≡ true) (λ z. text_lt x z ≡ true) ys
              (λ z h. text_lt_trans x y z first h) a.0,
        ),
        a,
      )
]

-- No text comes twice.
abbrev pub IsDistinct : List Text → Type 0
IsDistinct [] = Unit
IsDistinct (x ∷ xs) = (contains xs x ≡ false) × IsDistinct xs

pub sort_texts-IsAscending : (xs : List Text) → IsDistinct xs → IsAscending (sort_texts xs)
unfolding sort_texts
sort_texts-IsAscending [] d = tt
sort_texts-IsAscending (x ∷ xs) d =
    insert_text-IsAscending x (sort_texts xs) (ground (arith, contains-sort_texts x xs))
      (sort_texts-IsAscending xs d.1)

above-lacks : (x : Text) (xs : List Text) → All (λ y. text_lt x y ≡ true) xs → contains xs x ≡ false
unfolding contains
above-lacks x [] a = refl
above-lacks x (y ∷ ys) a = ground (arith, above-lacks x ys a.1, text_beq_iff x y, text_lt_irrefl x)

above-member :
    (x a : Text) (xs : List Text)
    → All (λ y. text_lt x y ≡ true) xs
    → contains xs a ≡ true
    → text_lt x a ≡ true
unfolding contains
above-member x a [] h c = cc
above-member x a (y ∷ ys) h c = ground (arith, above-member x a ys h.1, text_beq_iff a y)

same_head :
    (x y : Text) (xs ys : List Text)
    → IsAscending (x ∷ xs)
    → IsAscending (y ∷ ys)
    → contains (y ∷ ys) x ≡ true
    → contains (x ∷ xs) y ≡ true
    → x ≡ y
unfolding contains
same_head x y xs ys a b h k = ground (
  arith,
  text_beq_iff x y,
  text_beq_iff y x,
  above-member x y xs a.0,
  above-member y x ys b.0,
  text_lt_trans x y x,
  text_lt_irrefl x,
)

-- Two ascending lists with the same members are one list.
pub ascending_unique :
    (xs ys : List Text)
    → IsAscending xs
    → IsAscending ys
    → ((a : Text) → contains xs a ≡ contains ys a)
    → xs ≡ ys
unfolding contains
ascending_unique [] [] a b h = refl
ascending_unique [] (y ∷ ys) a b h = cc (h y, contains-head y ys)
ascending_unique (x ∷ xs) [] a b h = cc (h x, contains-head x xs)
ascending_unique (x ∷ xs) (y ∷ ys) a b h =
    let same =
      same_head x y xs ys a b (sym (h x) ∙ contains-head x xs) (h y ∙ contains-head y ys) in
    let tails = ascending_unique xs ys a.1 b.1 (λ c. ground (
      arith,
      h c,
      same,
      text_beq_iff c x,
      text_beq_iff c y,
      above-lacks x xs a.0,
      above-lacks y ys b.0,
    )) in
    cc

-- The loops that collect each text once: `seen` and the output hold the same texts.
unfoldable pub dedup_from : List Text → List Text → List Text
dedup_from out [] = out
dedup_from out (x ∷ xs) = dedup_from (if contains out x then out else out ++ (x ∷ [])) xs

unfoldable pub dedup : List Text → List Text
dedup xs = dedup_from [] xs

contains-dedup_from :
    (a : Text) (out xs : List Text)
    → contains (dedup_from out xs) a ≡ (contains out a || contains xs a)
unfolding dedup_from contains
contains-dedup_from a out [] = ground arith
contains-dedup_from a out (x ∷ xs) = ground (
  arith,
  contains-dedup_from a (if contains out x then out else out ++ (x ∷ [])) xs,
  contains-append a out (x ∷ []),
  text_beq_iff a x,
)

pub contains-dedup : (a : Text) (xs : List Text) → contains (dedup xs) a ≡ contains xs a
unfolding dedup contains
contains-dedup a xs = contains-dedup_from a [] xs

IsDistinct-snoc :
    (x : Text) (xs : List Text)
    → IsDistinct xs
    → contains xs x ≡ false
    → IsDistinct (xs ++ (x ∷ []))
unfolding contains
IsDistinct-snoc x [] d h = (refl, tt)
IsDistinct-snoc x (y ∷ ys) d h = (
  ground (arith, contains-append y ys (x ∷ []), text_beq_iff y x, text_beq_iff x y),
  IsDistinct-snoc x ys d.1 (ground arith),
)

dedup_from-IsDistinct : (out xs : List Text) → IsDistinct out → IsDistinct (dedup_from out xs)
unfolding dedup_from
dedup_from-IsDistinct out [] d = d
dedup_from-IsDistinct out (x ∷ xs) d = elim (Bool-cases (contains out x)) [
  | inl old ↦ rw old (dedup_from-IsDistinct out xs d)
  | inr new ↦ rw new (dedup_from-IsDistinct (out ++ (x ∷ [])) xs (IsDistinct-snoc x out d new))
]

pub dedup-IsDistinct : (xs : List Text) → IsDistinct (dedup xs)
unfolding dedup
dedup-IsDistinct xs = dedup_from-IsDistinct [] xs tt

-- Texts collected once and sorted: one list for each set of texts.
pub sort-dedup_unique :
    (xs ys : List Text)
    → ((a : Text) → contains xs a ≡ contains ys a)
    → sort_texts (dedup xs) ≡ sort_texts (dedup ys)
sort-dedup_unique xs ys h =
    ascending_unique (sort_texts (dedup xs)) (sort_texts (dedup ys))
      (sort_texts-IsAscending (dedup xs) (dedup-IsDistinct xs))
      (sort_texts-IsAscending (dedup ys) (dedup-IsDistinct ys))
      (λ a.
        contains-sort_texts a (dedup xs)
        ∙ contains-dedup a xs
        ∙ h a
        ∙ sym (contains-dedup a ys)
        ∙ sym (contains-sort_texts a (dedup ys)))

pub contains-sort-dedup :
    (a : Text) (xs : List Text) → contains (sort_texts (dedup xs)) a ≡ contains xs a
contains-sort-dedup a xs = contains-sort_texts a (dedup xs) ∙ contains-dedup a xs
