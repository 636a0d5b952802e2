-- ===== src/Query/Cache/Reads.antt =====
-- What a stored result gives back, and what is evicted for it.
use mathlib.Core.List.{append-nil, append_assoc}
use mathlib.Core.Bool.{false≢true}
use pivot.Common.{
  ℕ, zero, suc, ◌+◌, ◌≤◌, ◌<◌, ◌≡◌, ◌⊎◌, refl, ap, sym, ◌∙◌, inl, inr, Bool, true, false, ◌||◌,
  some, List, [], ◌∷◌, ◌++◌, Text, text_eq, nat_eq, lookup, ltb, length, arith, text_beq_iff,
  nat_beq_iff, Bool-cases, Option-cases,
}
use pivot.Query.Cache.{
  Entry, Element, Cache, remove_id, back, remove_locked, drop_oldest, evict, drop_key, push_front,
  put,
}
use pivot.Query.Cache.Linked.{find_key, total, IsLinked, find_key-find_id, find_key-back}
use pivot.Query.Cache.Bounds.{
  IsWired, IsValid, back-none, over-some, drop_oldest-IsWired, drop_key-IsWired, drop_key-free,
  push_front-IsWired, put-IsValid,
}

module _ {C V : Type 0} where
  -- All but the last element.
  init : List (Element C V) → List (Element C V)
  init [] = []
  init (x ∷ xs) = let rest = init xs in elim xs [ [] ↦ [] | y ∷ ys ↦ x ∷ rest ]

  init-back :
      (xs : List (Element C V)) (z : Element C V) → back xs ≡ some z → init xs ++ (z ∷ []) ≡ xs
  unfolding init back
  init-back [] z h = cc
  init-back (x ∷ []) z h = ground arith
  init-back (x ∷ y ∷ ys) z h = ap (◌∷◌ x) (init-back (y ∷ ys) z h)

  -- Removing the last element leaves the others in their order.
  remove_id-back :
      (fresh : ℕ) (xs : List (Element C V)) (z : Element C V)
      → IsLinked fresh xs
      → back xs ≡ some z
      → remove_id z.id xs ≡ init xs
  unfolding back remove_id init
  remove_id-back fresh [] z l h = refl
  remove_id-back fresh (x ∷ []) z l h = ground (arith, nat_beq_iff x.id z.id)
  remove_id-back fresh (x ∷ y ∷ ys) z l h =
      let found =
        find_key-find_id fresh z.value.key (y ∷ ys) z l.3 (find_key-back fresh (y ∷ ys) z l.3 h) in
      ground (arith, nat_beq_iff x.id z.id, found, remove_id-back fresh (y ∷ ys) z l.3 h)

  -- The front alone does not go over the bound, if it fits.
  front_fits :
      (c : Cache C V) (x : Element C V)
      → IsWired c
      → c.order ≡ x ∷ []
      → x.value.bytes ≤ c.max_bytes
      → ltb c.max_bytes c.bytes ≡ false
  unfolding total
  front_fits c x w e fits =
      let one : total c.order ≡ total (x ∷ []) = ap total e in ground (arith, w.counted)

  -- What is left of the elements behind the front after an eviction, and what is dropped: the
  -- dropped ones stood last.
  pub record Evicted (order behind : List (Element C V)) (x : Element C V) : Type 0 where
    pub kept : List (Element C V)
    pub dropped : List (Element C V)
    pub left : order ≡ x ∷ kept
    pub split : behind ≡ kept ++ dropped

  evict_step :
      (rounds : ℕ) (c : Cache C V) (x : Element C V) (xs : List (Element C V))
      → IsWired c
      → c.order ≡ x ∷ xs
      → x.value.bytes ≤ c.max_bytes
      → ltb c.max_bytes c.bytes ≡ true
      → ((c' : Cache C V) (x' : Element C V) (xs' : List (Element C V))
          → IsWired c'
          → c'.order ≡ x' ∷ xs'
          → x'.value.bytes ≤ c'.max_bytes
          → Evicted (evict rounds c').order xs' x')
      → Evicted (evict (suc rounds) c).order xs x
  unfolding evict
  evict_step rounds c x [] w e fits over rec =
      absurd (false≢true (sym (front_fits c x w e fits) ∙ over))
  evict_step rounds c x (y ∷ ys) w e fits over rec = elim (Option-cases (back c.order)) [
    | inl nothing ↦ absurd (over-some c w (back-none c.order nothing) over)
    | inr (z, last) ↦
        let behind : back (y ∷ ys) ≡ some z = unfold back in ground arith in
        let shorter : (drop_oldest c z).order ≡ x ∷ init (y ∷ ys) =
          unfold drop_oldest remove_locked init in
          remove_id-back c.fresh c.order z w.linked last ∙ ap init e in
        let rest =
          rec (drop_oldest c z) x (init (y ∷ ys)) (drop_oldest-IsWired c z w last).0 shorter
            (unfold drop_oldest remove_locked in fits) in
        rw (over, last, evict)
          (record {
            kept = rest.kept;
            dropped = rest.dropped ++ (z ∷ []);
            left = rest.left;
            split =
                sym (init-back (y ∷ ys) z behind)
                ∙ ap (λ (es : List (Element C V)). es ++ (z ∷ [])) rest.split
                ∙ append_assoc rest.kept rest.dropped (z ∷ []);
          })
  ]

  -- An eviction keeps the front, if that fits, and drops from the back.
  evict-Evicted :
      (rounds : ℕ) (c : Cache C V) (x : Element C V) (xs : List (Element C V))
      → IsWired c
      → c.order ≡ x ∷ xs
      → x.value.bytes ≤ c.max_bytes
      → Evicted (evict rounds c).order xs x
  evict-Evicted zero c x xs w e fits =
      unfold evict in record { kept = xs; dropped = []; left = e; split = sym (append-nil xs) }
  evict-Evicted (suc rounds) c x xs w e fits = elim (Bool-cases (ltb c.max_bytes c.bytes)) [
    | inl over ↦ evict_step rounds c x xs w e fits over (evict-Evicted rounds)
    | inr under ↦
        unfold evict in
        rw (under, evict)
          (record { kept = xs; dropped = []; left = e; split = sym (append-nil xs) })
  ]

  module _ (c : Cache C V) (now : ℕ) (k : Text) (columns : List C) (rows : List (List V))
      (truncated : Bool) (size : ℕ) where
    -- The entry that `put` stores.
    abbrev pub entry_of : Entry C V
    entry_of = record {
      key = k;
      columns = columns;
      rows = rows;
      truncated = truncated;
      bytes = size;
      expires = now + c.ttl;
    }

    abbrev pub element_of : Element C V
    element_of = record { id = (drop_key c k).fresh; value = entry_of }

    put-pushed :
        (ltb c.max_entry_bytes size || ltb c.max_bytes size) ≡ false
        → put c now k columns rows truncated size ≡ (
          evict
              (length (push_front (drop_key c k) entry_of).order)
              (push_front (drop_key c k) entry_of),
          true,
        )
    unfolding put
    put-pushed fits = ground arith

    pushed-IsWired : IsValid c → IsWired (push_front (drop_key c k) entry_of)
    pushed-IsWired v =
        push_front-IsWired (drop_key c k) entry_of (drop_key-IsWired c k v.wired)
          (drop_key-free c k v.wired)

    pushed-fits :
        (ltb c.max_entry_bytes size || ltb c.max_bytes size) ≡ false
        → size ≤ (push_front (drop_key c k) entry_of).max_bytes
    unfolding push_front drop_key remove_locked
    pushed-fits fits = ground arith

    -- A result that fits the bounds is stored in front of the others, and what is evicted for it
    -- are the least recently used of the others: those kept stand in their order behind it. A
    -- result that does not fit changes nothing and is refused.
    pub put_evicts_oldest :
        IsValid c
        → (((put c now k columns rows truncated size).1 ≡ true)
            × Evicted
                (put c now k columns rows truncated size).0.order
                (drop_key c k).order
                element_of)
          ⊎ ((put c now k columns rows truncated size ≡ (c, false))
              × ((c.max_entry_bytes < size) ⊎ (c.max_bytes < size)))
    put_evicts_oldest v = elim (Bool-cases (ltb c.max_entry_bytes size || ltb c.max_bytes size)) [
      | inl large ↦ inr (unfold put in ground arith, ground arith)
      | inr fits ↦
          let pushed = push_front (drop_key c k) entry_of in
          inl (
            rw (put-pushed fits) (
              refl,
              evict-Evicted (length pushed.order) pushed element_of (drop_key c k).order
                  (pushed-IsWired v) (unfold push_front in refl) (pushed-fits fits),
            ))
    ]

    -- A result that was stored is found under its key.
    pub put-found :
        IsValid c
        → (put c now k columns rows truncated size).1 ≡ true
        → lookup k (put c now k columns rows truncated size).0.entries ≡ some element_of
    put-found v stored =
        let valid = put-IsValid c now k columns rows truncated size v in
        elim (put_evicts_oldest v) [
          | inl (done, evicted) ↦
              valid.wired.indexed k
              ∙ ap (find_key k) evicted.left
              ∙ (unfold find_key in ground (arith, text_beq_iff k k))
          | inr (refused, large) ↦ absurd (ground arith)
        ]
