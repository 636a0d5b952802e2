-- ===== src/Query/Cache/Linked.antt =====
-- The order list of the result cache and its index: what removing and adding an element does to a
-- list whose identities and keys are all different.
use pivot.Common.{
  ℕ, ◌+◌, ◌<◌, ◌≡◌, refl, inl, inr, Option, none, some, List, [], ◌∷◌, Text, text_eq, nat_eq, ◌==◌,
  if◌then◌else◌, length, arith, text_beq_iff, nat_beq_iff, Bool-cases,
}
use pivot.Query.Cache.{Element, remove_id, back}

module _ {C V : Type 0} where
  -- The element of a key, found by walking the list.
  unfoldable pub find_key : Text → List (Element C V) → Option (Element C V)
  find_key k [] = none
  find_key k (x ∷ xs) = let rest = find_key k xs in if x.value.key == k then some x else rest

  unfoldable pub find_id : ℕ → List (Element C V) → Option (Element C V)
  find_id i [] = none
  find_id i (x ∷ xs) = let rest = find_id i xs in if x.id == i then some x else rest

  -- The bytes that the elements hold together.
  unfoldable pub total : List (Element C V) → ℕ
  total [] = 0
  total (x ∷ xs) = x.value.bytes + total xs

  -- No identity and no key comes twice, and the identities are below `fresh`.
  abbrev pub IsLinked : ℕ → List (Element C V) → Type 0
  IsLinked fresh [] = Unit
  IsLinked fresh (x ∷ xs) =
      (find_id x.id xs ≡ none)
      × (find_key x.value.key xs ≡ none)
      × (x.id < fresh)
      × IsLinked fresh xs

  pub find_key-key :
      (k : Text) (xs : List (Element C V)) (x : Element C V)
      → find_key k xs ≡ some x
      → x.value.key ≡ k
  unfolding find_key
  find_key-key k [] x h = cc
  find_key-key k (y ∷ ys) x h = ground (arith, text_beq_iff y.value.key k, find_key-key k ys x)

  pub find_key-find_id :
      (fresh : ℕ) (k : Text) (xs : List (Element C V)) (x : Element C V)
      → IsLinked fresh xs
      → find_key k xs ≡ some x
      → find_id x.id xs ≡ some x
  unfolding find_key find_id
  find_key-find_id fresh k [] x l h = cc
  find_key-find_id fresh k (y ∷ ys) x l h = ground (arith, find_key-find_id fresh k ys x l.3)

  remove_id_absent : (i : ℕ) (xs : List (Element C V)) → find_id i xs ≡ none → remove_id i xs ≡ xs
  unfolding find_id remove_id
  remove_id_absent i [] h = refl
  remove_id_absent i (y ∷ ys) h = ground (arith, remove_id_absent i ys)

  -- Removing the element of a key removes that key and no other.
  pub find_key-remove_id :
      (fresh : ℕ) (k j : Text) (xs : List (Element C V)) (x : Element C V)
      → IsLinked fresh xs
      → find_key k xs ≡ some x
      → find_key j (remove_id x.id xs) ≡ (if k == j then none else find_key j xs)
  unfolding find_key remove_id
  find_key-remove_id fresh k j [] x l h = cc
  find_key-remove_id fresh k j (y ∷ ys) x l h = ground (
    arith,
    text_beq_iff k j,
    text_beq_iff y.value.key k,
    text_beq_iff y.value.key j,
    nat_beq_iff y.id x.id,
    find_key-find_id fresh k ys x l.3,
    find_key-remove_id fresh k j ys x l.3,
  )

  pub total-remove_id :
      (fresh : ℕ) (k : Text) (xs : List (Element C V)) (x : Element C V)
      → IsLinked fresh xs
      → find_key k xs ≡ some x
      → total (remove_id x.id xs) + x.value.bytes ≡ total xs
  unfolding find_key remove_id total
  total-remove_id fresh k [] x l h = cc
  total-remove_id fresh k (y ∷ ys) x l h = ground (
    arith,
    nat_beq_iff y.id x.id,
    find_key-find_id fresh k ys x l.3,
    total-remove_id fresh k ys x l.3,
  )

  pub length-remove_id :
      (fresh : ℕ) (k : Text) (xs : List (Element C V)) (x : Element C V)
      → IsLinked fresh xs
      → find_key k xs ≡ some x
      → length (remove_id x.id xs) + 1 ≡ length xs
  unfolding find_key remove_id
  length-remove_id fresh k [] x l h = cc
  length-remove_id fresh k (y ∷ ys) x l h = ground (
    arith,
    nat_beq_iff y.id x.id,
    find_key-find_id fresh k ys x l.3,
    length-remove_id fresh k ys x l.3,
  )

  find_id-remove_id :
      (i j : ℕ) (xs : List (Element C V)) → find_id j xs ≡ none → find_id j (remove_id i xs) ≡ none
  unfolding find_id remove_id
  find_id-remove_id i j [] h = refl
  find_id-remove_id i j (y ∷ ys) h = ground (arith, find_id-remove_id i j ys)

  find_key-remove_id-none :
      (i : ℕ) (k : Text) (xs : List (Element C V))
      → find_key k xs ≡ none
      → find_key k (remove_id i xs) ≡ none
  unfolding find_key remove_id
  find_key-remove_id-none i k [] h = refl
  find_key-remove_id-none i k (y ∷ ys) h = ground (arith, find_key-remove_id-none i k ys)

  pub remove_id-IsLinked :
      (fresh i : ℕ) (xs : List (Element C V)) → IsLinked fresh xs → IsLinked fresh (remove_id i xs)
  unfolding remove_id
  remove_id-IsLinked fresh i [] l = tt
  remove_id-IsLinked fresh i (y ∷ ys) l = elim (Bool-cases (y.id == i)) [
    | inl here ↦ rw here l.3
    | inr there ↦ rw there (
      find_id-remove_id i y.id ys l.0,
      find_key-remove_id-none i y.value.key ys l.1,
      l.2,
      remove_id-IsLinked fresh i ys l.3,
    )
  ]

  -- More room for identities does no harm.
  pub IsLinked-fresh :
      (fresh : ℕ) (xs : List (Element C V)) → IsLinked fresh xs → IsLinked (fresh + 1) xs
  IsLinked-fresh fresh [] l = tt
  IsLinked-fresh fresh (y ∷ ys) l = (l.0, l.1, omega arith, IsLinked-fresh fresh ys l.3)

  pub find_id_fresh :
      (fresh : ℕ) (xs : List (Element C V)) → IsLinked fresh xs → find_id fresh xs ≡ none
  unfolding find_id
  find_id_fresh fresh [] l = refl
  find_id_fresh fresh (y ∷ ys) l = ground (arith, find_id_fresh fresh ys l.3)

  -- The last element is found under its key.
  pub find_key-back :
      (fresh : ℕ) (xs : List (Element C V)) (x : Element C V)
      → IsLinked fresh xs
      → back xs ≡ some x
      → find_key x.value.key xs ≡ some x
  unfolding find_key back
  find_key-back fresh [] x l h = cc
  find_key-back fresh (y ∷ []) x l h = ground (arith, text_beq_iff y.value.key x.value.key)
  find_key-back fresh (y ∷ z ∷ zs) x l h =
      ground (arith, find_key-back fresh (z ∷ zs) x l.3 h, text_beq_iff y.value.key x.value.key)

  find_id-removed :
      (fresh i : ℕ) (xs : List (Element C V))
      → IsLinked fresh xs
      → find_id i (remove_id i xs) ≡ none
  unfolding find_id remove_id
  find_id-removed fresh i [] l = refl
  find_id-removed fresh i (y ∷ ys) l =
      ground (arith, nat_beq_iff y.id i, find_id-removed fresh i ys l.3)

  find_key-fresh :
      (fresh : ℕ) (k : Text) (xs : List (Element C V)) (x : Element C V)
      → IsLinked fresh xs
      → find_key k xs ≡ some x
      → x.id < fresh
  unfolding find_key
  find_key-fresh fresh k [] x l h = cc
  find_key-fresh fresh k (y ∷ ys) x l h = ground (arith, find_key-fresh fresh k ys x l.3)

  -- An element moved to the front is still the only one of its key and of its identity.
  pub move_front-IsLinked :
      (fresh : ℕ) (k : Text) (xs : List (Element C V)) (x : Element C V)
      → IsLinked fresh xs
      → find_key k xs ≡ some x
      → IsLinked fresh (x ∷ remove_id x.id xs)
  move_front-IsLinked fresh k xs x l h = (
    find_id-removed fresh x.id xs l,
    ground (
      arith,
      find_key-remove_id fresh k x.value.key xs x l h,
      find_key-key k xs x h,
      text_beq_iff k x.value.key,
    ),
    find_key-fresh fresh k xs x l h,
    remove_id-IsLinked fresh x.id xs l,
  )

  pub find_key-move_front :
      (fresh : ℕ) (k j : Text) (xs : List (Element C V)) (x : Element C V)
      → IsLinked fresh xs
      → find_key k xs ≡ some x
      → find_key j (x ∷ remove_id x.id xs) ≡ find_key j xs
  unfolding find_key
  find_key-move_front fresh k j xs x l h = ground (
    arith,
    find_key-remove_id fresh k j xs x l h,
    find_key-key k xs x h,
    text_beq_iff k j,
    text_beq_iff x.value.key j,
  )
