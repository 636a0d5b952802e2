-- ===== src/Query/Cache/Bounds.antt =====
-- The result cache keeps its index, its order and its byte count in step, and stays within its byte
-- bound, whatever is done with it.
use pivot.Common.{
  ℕ, zero, suc, ◌+◌, ◌≤◌, ◌≡◌, refl, ap, sym, ◌∙◌, inl, inr, Bool, true, ◌||◌, none, some, List, [],
  ◌∷◌, Text, text_eq, nat_eq, lookup, ltb, length, arith, text_beq_iff, Bool-cases, Option-cases,
  lookup-insert, lookup-delete,
}
use pivot.Tenant.{Uuid}
use pivot.Query.Cache.{
  Entry, Element, Cache, back, remove_locked, drop_oldest, expire, touch, get, evict, drop_key,
  push_front, put, invalidate, count_uncached, new_cache, apply_options, with_max_bytes,
  with_max_entry_bytes, with_ttl,
}
use pivot.Query.Cache.Linked.{
  find_key, total, IsLinked, find_key-key, find_key-remove_id, total-remove_id, length-remove_id,
  remove_id-IsLinked, IsLinked-fresh, find_id_fresh, move_front-IsLinked, find_key-move_front,
  find_key-back,
}

-- What can be done with a cache.
pub data Op (C V : Type 0) : Type 0 where
  put_op : ℕ → Text → List C → List (List V) → Bool → ℕ → Op C V
  get_op : ℕ → Text → Op C V
  invalidate_op : Uuid → Op C V
  uncached_op : Op C V

module _ {C V : Type 0} where
  -- The map finds exactly the elements of the list, and the counter is what these hold.
  pub record IsWired (c : Cache C V) : Type 0 where
    pub linked : IsLinked c.fresh c.order
    pub indexed : (k : Text) → lookup k c.entries ≡ find_key k c.order
    pub counted : c.bytes ≡ total c.order

  pub record IsValid (c : Cache C V) : Type 0 where
    pub wired : IsWired c
    pub bounded : c.bytes ≤ c.max_bytes

  pub remove_locked-IsWired :
      (c : Cache C V) (k : Text) (x : Element C V)
      → IsWired c
      → find_key k c.order ≡ some x
      → IsWired (remove_locked c x)
  unfolding remove_locked
  remove_locked-IsWired c k x w h =
      let same = find_key-key k c.order x h in
      record {
        linked = remove_id-IsLinked c.fresh x.id c.order w.linked;
        indexed = λ j. ground (
          arith,
          lookup-delete x.value.key j c.entries,
          w.indexed j,
          find_key-remove_id c.fresh k j c.order x w.linked h,
        );
        counted = omega (arith, total-remove_id c.fresh k c.order x w.linked h, w.counted);
      }

  pub drop_key-IsWired : (c : Cache C V) (k : Text) → IsWired c → IsWired (drop_key c k)
  unfolding drop_key
  drop_key-IsWired c k w = elim (Option-cases (lookup k c.entries)) [
    | inl missing ↦ rw (missing, drop_key) w
    | inr (x, found) ↦
        rw (found, drop_key) (remove_locked-IsWired c k x w (sym (w.indexed k) ∙ found))
  ]

  -- After the drop, the key is free.
  pub drop_key-free :
      (c : Cache C V) (k : Text) → IsWired c → find_key k (drop_key c k).order ≡ none
  unfolding drop_key remove_locked
  drop_key-free c k w = elim (Option-cases (lookup k c.entries)) [
    | inl missing ↦ rw (missing, drop_key) (sym (w.indexed k) ∙ missing)
    | inr (x, found) ↦
        rw (found, drop_key)
          (ground (
            arith,
            text_beq_iff k k,
            find_key-remove_id c.fresh k k c.order x w.linked (sym (w.indexed k) ∙ found),
          ))
  ]

  pub push_front-IsWired :
      (c : Cache C V) (e : Entry C V)
      → IsWired c
      → find_key e.key c.order ≡ none
      → IsWired (push_front c e)
  unfolding push_front find_key total
  push_front-IsWired c e w free = record {
    linked = (
      find_id_fresh c.fresh c.order w.linked,
      free,
      omega arith,
      IsLinked-fresh c.fresh c.order w.linked,
    );
    indexed = λ j.
        ground (
          arith,
          lookup-insert e.key j (record { id = c.fresh; value = e }) c.entries,
          w.indexed j,
        );
    counted = omega (arith, w.counted);
  }

  pub back-none : (xs : List (Element C V)) → back xs ≡ none → xs ≡ []
  unfolding back
  back-none [] h = refl
  back-none (x ∷ []) h = cc
  back-none (x ∷ y ∷ ys) h = cc (back-none (y ∷ ys) h)

  -- Over the bound there is something to evict.
  pub over-some : (c : Cache C V) → IsWired c → c.order ≡ [] → ltb c.max_bytes c.bytes ≡ true → ⊥
  unfolding total
  over-some c w e over =
      let empty : total c.order ≡ total {C = C} {V = V} [] = ap total e in ground (arith, w.counted)

  pub drop_oldest-IsWired :
      (c : Cache C V) (x : Element C V)
      → IsWired c
      → back c.order ≡ some x
      → IsWired (drop_oldest c x) × (length (drop_oldest c x).order + 1 ≡ length c.order)
  unfolding drop_oldest
  drop_oldest-IsWired c x w last =
      let found = find_key-back c.fresh c.order x w.linked last in
      let rest = remove_locked-IsWired c x.value.key x w found in
      (
        record { linked = rest.linked; indexed = rest.indexed; counted = rest.counted },
        unfold remove_locked in length-remove_id c.fresh x.value.key c.order x w.linked found,
      )

  -- The eviction loop: with a round for each element it ends within the bound.
  pub evict-IsValid :
      (rounds : ℕ) (c : Cache C V) → IsWired c → length c.order ≤ rounds → IsValid (evict rounds c)
  unfolding evict
  evict-IsValid zero c w l = elim (Option-cases (back c.order)) [
    | inl nothing ↦ record {
      wired = w;
      bounded = ground (arith, over-some c w (back-none c.order nothing));
    }
    | inr (x, last) ↦ absurd (omega (arith, (drop_oldest-IsWired c x w last).1))
  ]
  evict-IsValid (suc rounds) c w l = elim (Bool-cases (ltb c.max_bytes c.bytes)) [
    | inl over ↦ elim (Option-cases (back c.order)) [
      | inl nothing ↦ absurd (over-some c w (back-none c.order nothing) over)
      | inr (x, last) ↦
          let (rest, shorter) = drop_oldest-IsWired c x w last in
          rw (over, last, evict) (evict-IsValid rounds (drop_oldest c x) rest (omega arith))
    ]
    | inr fits ↦ rw (fits, evict) (record { wired = w; bounded = ground arith })
  ]

  pub put-IsValid :
      (c : Cache C V) (now : ℕ) (k : Text) (columns : List C) (rows : List (List V))
      (truncated : Bool) (size : ℕ)
      → IsValid c
      → IsValid (put c now k columns rows truncated size).0
  unfolding put
  put-IsValid c now k columns rows truncated size v =
      elim (Bool-cases (ltb c.max_entry_bytes size || ltb c.max_bytes size)) [
        | inl large ↦ rw large v
        | inr fits ↦
            let stored : Entry C V = record {
              key = k;
              columns = columns;
              rows = rows;
              truncated = truncated;
              bytes = size;
              expires = now + c.ttl;
            } in
            let pushed = push_front (drop_key c k) stored in
            rw fits (
              evict-IsValid (length pushed.order) pushed
                (push_front-IsWired (drop_key c k) stored (drop_key-IsWired c k v.wired)
                  (drop_key-free c k v.wired))
                (omega arith))
      ]

  expire-IsValid :
      (c : Cache C V) (k : Text) (x : Element C V)
      → IsValid c
      → find_key k c.order ≡ some x
      → IsValid (expire c x)
  unfolding expire
  expire-IsValid c k x v found =
      let w = remove_locked-IsWired c k x v.wired found in
      record {
        wired = record { linked = w.linked; indexed = w.indexed; counted = w.counted };
        bounded = unfold remove_locked in omega (arith, v.bounded);
      }

  touch-IsValid :
      (c : Cache C V) (k : Text) (x : Element C V)
      → IsValid c
      → find_key k c.order ≡ some x
      → IsValid (touch c x)
  unfolding touch total
  touch-IsValid c k x v found = record {
    wired = record {
      linked = move_front-IsLinked c.fresh k c.order x v.wired.linked found;
      indexed = λ j.
          v.wired.indexed j ∙ sym (find_key-move_front c.fresh k j c.order x v.wired.linked found);
      counted =
          omega (arith, total-remove_id c.fresh k c.order x v.wired.linked found, v.wired.counted);
    };
    bounded = v.bounded;
  }

  pub get-IsValid : (c : Cache C V) (now : ℕ) (k : Text) → IsValid c → IsValid (get c now k).0
  unfolding get
  get-IsValid c now k v = elim (Option-cases (lookup k c.entries)) [
    | inl missing ↦
        rw (missing, get)
          (record {
            wired = record {
              linked = v.wired.linked;
              indexed = v.wired.indexed;
              counted = v.wired.counted;
            };
            bounded = v.bounded;
          })
    | inr (x, entry) ↦
        let found = sym (v.wired.indexed k) ∙ entry in
        elim (Bool-cases (ltb x.value.expires now)) [
          | inl old ↦ rw (entry, old, get) (expire-IsValid c k x v found)
          | inr live ↦ rw (entry, live, get) (touch-IsValid c k x v found)
        ]
  ]

  unfoldable pub run : List (Op C V) → Cache C V → Cache C V
  run [] c = c
  run (put_op now k columns rows truncated size ∷ ops) c =
      run ops (put c now k columns rows truncated size).0
  run (get_op now k ∷ ops) c = run ops (get c now k).0
  run (invalidate_op connection_id ∷ ops) c = run ops (invalidate c connection_id)
  run (uncached_op ∷ ops) c = run ops (count_uncached c)

  -- Every operation keeps the map, the order and the byte count of a valid cache in step, and the
  -- bytes within the bound; so does every sequence of them.
  pub run-IsValid : (ops : List (Op C V)) (c : Cache C V) → IsValid c → IsValid (run ops c)
  unfolding run
  run-IsValid [] c v = v
  run-IsValid (put_op now k columns rows truncated size ∷ ops) c v =
      run-IsValid ops (put c now k columns rows truncated size).0
        (put-IsValid c now k columns rows truncated size v)
  run-IsValid (get_op now k ∷ ops) c v = run-IsValid ops (get c now k).0 (get-IsValid c now k v)
  run-IsValid (invalidate_op connection_id ∷ ops) c v =
      run-IsValid ops (invalidate c connection_id) (
        unfold invalidate in
        record {
          wired = record {
            linked = v.wired.linked;
            indexed = v.wired.indexed;
            counted = v.wired.counted;
          };
          bounded = v.bounded;
        })
  run-IsValid (uncached_op ∷ ops) c v = run-IsValid ops (count_uncached c) (
      unfold count_uncached in
      record {
        wired = record {
          linked = v.wired.linked;
          indexed = v.wired.indexed;
          counted = v.wired.counted;
        };
        bounded = v.bounded;
      })

  -- A cache built with any of the three bounds is valid.
  pub new_cache-IsValid :
      (max_bytes max_entry_bytes ttl : ℕ)
      → IsValid (
          new_cache {C = C} {V = V}
            (with_max_bytes max_bytes ∷ with_max_entry_bytes max_entry_bytes ∷ with_ttl ttl ∷ []))
  unfolding new_cache apply_options with_max_bytes with_max_entry_bytes with_ttl lookup find_key
      total
  new_cache-IsValid max_bytes max_entry_bytes ttl = ground arith
