-- ===== src/Query/Cache/Lasting.antt =====
-- How long a stored result is given back, whatever is read meanwhile.
use pivot.Common.{
  ℕ, ◌+◌, ◌≤◌, ◌<◌, ◌≡◌, ◌⊎◌, ◌∙◌, refl, sym, inl, inr, Bool, true, none, some, List, [], ◌∷◌, All,
  Text, text_eq, ◌==◌, lookup, delete, lookup-delete, if◌then◌else◌, ltb, arith, text_beq_iff,
  Bool-cases, Option-cases,
}
use pivot.Query.Cache.{Element, Cache, remove_locked, expire, touch, get, put}
use pivot.Query.Cache.Linked.{find_key-key}
use pivot.Query.Cache.Bounds.{IsValid, get-IsValid, put-IsValid}
use pivot.Query.Cache.Reads.{entry_of, element_of, put-found}

module _ {C V : Type 0} where
  -- The cache after some `Get`s, each at its time for its key.
  unfoldable pub after_gets : Cache C V → List (ℕ × Text) → Cache C V
  after_gets c [] = c
  after_gets c ((at, asked) ∷ more) = after_gets (get c at asked).0 more

  -- The element is there, or a `Get` by this time has found it expired.
  abbrev Kept : Text → Element C V → ℕ → Cache C V → Type 0
  Kept k x by c =
      (lookup k c.entries ≡ some x) ⊎ ((lookup k c.entries ≡ none) × (x.value.expires < by))

  expire_entries :
      (c : Cache C V) (y : Element C V) → (expire c y).entries ≡ delete y.value.key c.entries
  unfolding expire remove_locked
  expire_entries c y = refl

  get_entries :
      (c : Cache C V) (at : ℕ) (asked : Text)
      → ((get c at asked).0.entries ≡ c.entries)
        ⊎ ((y : Element C V) × (lookup asked c.entries ≡ some y)
            × (y.value.expires < at)
            × ((get c at asked).0.entries ≡ delete y.value.key c.entries))
  unfolding get touch
  get_entries c at asked = elim (Option-cases (lookup asked c.entries)) [
    | inl missing ↦ inl (ground arith)
    | inr (y, found) ↦ elim (Bool-cases (ltb y.value.expires at)) [
      | inl late ↦ inr (y, found, ground arith, ground (arith, expire_entries c y))
      | inr live ↦ inl (ground arith)
    ]
  ]

  get-Kept :
      (c : Cache C V) (k : Text) (x : Element C V) (by at : ℕ) (asked : Text)
      → IsValid c
      → at ≤ by
      → Kept k x by c
      → Kept k x by (get c at asked).0
  get-Kept c k x by at asked v soon kept = elim (get_entries c at asked) [
    | inl same ↦ rw same kept
    | inr (y, found, late, dropped) ↦
        let key : y.value.key ≡ asked =
          find_key-key asked c.order y (sym (v.wired.indexed asked) ∙ found) in
        let left = lookup-delete y.value.key k c.entries in
        elim (Bool-cases (asked == k)) [
          | inl same ↦ elim kept [
            | inl there ↦ inr (ground (arith, dropped, left, key, text_beq_iff asked k))
            | inr (gone, over) ↦ inr (ground (arith, dropped, left, gone), over)
          ]
          | inr other ↦ elim kept [
            | inl there ↦ inl (ground (arith, dropped, left, key))
            | inr (gone, over) ↦ inr (ground (arith, dropped, left, gone), over)
          ]
        ]
  ]

  after_gets-Kept :
      (c : Cache C V) (k : Text) (x : Element C V) (by : ℕ) (gets : List (ℕ × Text))
      → IsValid c
      → All (λ (g : ℕ × Text). g.0 ≤ by) gets
      → Kept k x by c
      → Kept k x by (after_gets c gets)
  unfolding after_gets
  after_gets-Kept c k x by [] v soon kept = kept
  after_gets-Kept c k x by ((at, asked) ∷ more) v soon kept =
      after_gets-Kept (get c at asked).0 k x by more (get-IsValid c at asked v) soon.1
        (get-Kept c k x by at asked v soon.0 kept)

  -- A result that a valid cache has stored is given back, whole, by every `Get` up to the
  -- moment at which it expires, and by none after, however many `Get`s of this and of other
  -- keys came before it since. Nothing else is stored in between, for which it could be
  -- evicted.
  pub get-put :
      (c : Cache C V) (now : ℕ) (k : Text) (columns : List C) (rows : List (List V))
      (truncated : Bool) (size later : ℕ) (gets : List (ℕ × Text))
      → IsValid c
      → (put c now k columns rows truncated size).1 ≡ true
      → All (λ (g : ℕ × Text). g.0 ≤ later) gets
      → (get (after_gets (put c now k columns rows truncated size).0 gets) later k).1 ≡ (
          if ltb (now + c.ttl) later
          then none
          else some (entry_of c now k columns rows truncated size))
  unfolding get
  get-put c now k columns rows truncated size later gets v stored before =
      let after = (put c now k columns rows truncated size).0 in
      let x = element_of c now k columns rows truncated size in
      elim (after_gets-Kept after k x later gets (put-IsValid c now k columns rows truncated size v)
        before (inl (put-found c now k columns rows truncated size v stored))) [
          | inl there ↦ ground arith
          | inr (gone, over) ↦ ground arith
        ]
