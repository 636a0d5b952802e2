-- ===== src/Query/Stream/Filling.antt =====
-- What the stream of internal/query/logged_stream.go puts in the cache.
use pivot.Common.{
  ℕ, zero, suc, ◌+◌, ◌≡◌, ◌⊎◌, refl, ap, ◌∙◌, inl, inr, Bool, true, false, ◌&&◌, Option, none, some,
  List, [], ◌∷◌, ◌++◌, Bool-cases, Option-cases, arith,
}
use pivot.Query.Cache.{Cache, put}
use pivot.Query.Stream.{
  Column, Cell, estimate, SourceError, World, LoggedStream, tee, next, read, store, finish, forget,
  or_else, close, is_miss,
}

-- The bytes of some rows.
unfoldable pub size : List (List Cell) → ℕ
size [] = 0
size (row ∷ rows) = estimate row + size rows

-- What is still to come, behind what is teed already.
abbrev all_rows : LoggedStream → List (List Cell)
all_rows s = s.pending ++ s.source.rows

-- One stream is the other, read further.
unfoldable pub Follows : LoggedStream → LoggedStream → Type 0
Follows s t =
    (t.source.columns ≡ s.source.columns)
    × ((t.source.cut ≡ s.source.cut)
        × ((t.source.failure ≡ s.source.failure)
            × ((t.source.close_error ≡ s.source.close_error)
                × ((t.cache_key ≡ s.cache_key)
                    × ((t.bytes + size t.source.rows ≡ s.bytes + size s.source.rows)
                        × (t.caching ≡ true → (s.caching ≡ true) × (all_rows t ≡ all_rows s)))))))

append_assoc_one : {A : Type 0} (xs ys : List A) (a : A) → (xs ++ (a ∷ [])) ++ ys ≡ xs ++ (a ∷ ys)
append_assoc_one [] ys a = refl
append_assoc_one (x ∷ xs) ys a = ap (λ rest. x ∷ rest) (append_assoc_one xs ys a)

pub append_nil : {A : Type 0} (xs : List A) → xs ++ [] ≡ xs
append_nil [] = refl
append_nil (x ∷ xs) = ap (λ rest. x ∷ rest) (append_nil xs)

pub list_cases :
    {A : Type 0} (xs : List A) → (xs ≡ []) ⊎ ((x : A) × ((rest : List A) × (xs ≡ x ∷ rest)))
list_cases [] = inl refl
list_cases (x ∷ xs) = inr (x, (xs, refl))

next-Follows : (max : ℕ) (s : LoggedStream) → Follows s (next max s).0
unfolding next tee Follows size
next-Follows max s = elim (list_cases s.source.rows) [
  | inl e ↦ ground arith
  | inr (row, (rest, e)) ↦ ground (arith, append_assoc_one s.pending rest row)
]

pub read-Follows : (max n : ℕ) (s : LoggedStream) → Follows s (read max n s)
unfolding read Follows
read-Follows max zero s = ground arith
read-Follows max (suc n) s = ground (arith, next-Follows max s, read-Follows max n (next max s).0)

-- A stream that is exhausted has no rows left, did not fail, and says whether it was cut off.
unfoldable pub IsDone : LoggedStream → Type 0
IsDone s =
    s.exhausted ≡ true
    → (s.source.rows ≡ []) × ((s.source.failure ≡ none) × (s.source.truncated ≡ s.source.cut))

next-IsDone : (max : ℕ) (s : LoggedStream) → IsDone s → IsDone (next max s).0
unfolding next tee IsDone
next-IsDone max s h = elim (list_cases s.source.rows) [
  | inl e ↦ elim (Option-cases s.source.failure) [
    | inl f ↦ ground arith
    | inr (why, f) ↦ ground arith
  ]
  | inr (row, (rest, e)) ↦ ground arith
]

pub read-IsDone : (max n : ℕ) (s : LoggedStream) → IsDone s → IsDone (read max n s)
unfolding read
read-IsDone max zero s h = h
read-IsDone max (suc n) s h = read-IsDone max n (next max s).0 (next-IsDone max s h)

-- What a stream that has a whole result stores.
abbrev pub whole : ℕ → LoggedStream → Cache Column Cell → Cache Column Cell
whole now s cache =
    (put cache now s.cache_key s.source.columns s.source.rows s.source.cut
      (s.bytes + size s.source.rows)).0

-- Only a stream that teed to its end without an error stores, and stores what it teed.
store_cases :
    (w : World) (now : ℕ) (t : LoggedStream) (cause : Option SourceError)
    → ((store w now t cause).0.cache ≡ w.cache)
      ⊎ ((c : Cache Column Cell) × ((w.cache ≡ some c)
            × (((store w now t cause).0.cache
                  ≡ some
                      (put c now t.cache_key t.source.columns t.pending t.source.truncated
                        t.bytes).0)
                × ((t.caching ≡ true) × ((t.exhausted ≡ true) × (cause ≡ none))))))
unfolding store
store_cases w now t (some why) = inl (ground arith)
store_cases w now t none = elim (Option-cases w.cache) [
  | inl e ↦ inl (ground arith)
  | inr (c, e) ↦ elim (Bool-cases (is_miss t.cache_status && (t.caching && t.exhausted))) [
    | inl b ↦ inr (c, (e, ground arith))
    | inr b ↦ inl (ground arith)
  ]
]

pub close_cache :
    (now : ℕ) (lost killed : Bool) (w : World) (t : LoggedStream)
    → t.closed ≡ false
    → (close now lost killed w t).0.cache
      ≡ (store w now t (or_else t.err t.source.close_error)).0.cache
unfolding close finish forget
close_cache now lost killed w t h = ground arith

pub read_closed : (max n : ℕ) (s : LoggedStream) → (read max n s).closed ≡ s.closed
unfolding read next tee
read_closed max zero s = refl
read_closed max (suc n) s = elim (list_cases s.source.rows) [
  | inl e ↦ ground (arith, read_closed max n (next max s).0)
  | inr (row, (rest, e)) ↦ ground (arith, read_closed max n (next max s).0)
]

-- However many rows are read before the close, the cache is left as it was, or it has the whole
-- result under the query's key: every row of the source, in order, of a read that neither failed nor
-- closed badly. The stream is a new one, that has nothing teed.
pub close_caches_whole :
    (max_entry_bytes reads now : ℕ) (lost killed : Bool) (w : World) (s : LoggedStream)
    → s.closed ≡ false
    → s.exhausted ≡ false
    → s.pending ≡ []
    → ((close now lost killed w (read max_entry_bytes reads s)).0.cache ≡ w.cache)
      ⊎ ((c : Cache Column Cell) × ((w.cache ≡ some c)
            × (((close now lost killed w (read max_entry_bytes reads s)).0.cache
                  ≡ some (whole now s c))
                × ((s.source.failure ≡ none) × (s.source.close_error ≡ none)))))
unfolding Follows IsDone size
close_caches_whole max reads now lost killed w s still begun empty =
    let t = read max reads s in
    let closes = close_cache now lost killed w t (read_closed max reads s ∙ still) in
    let follows = read-Follows max reads s in
    let done = read-IsDone max reads s (λ h. ground (arith, h, begun)) in
    elim (store_cases w now t (or_else t.err t.source.close_error)) [
      | inl e ↦ inl (closes ∙ e)
      | inr (c, (e, (p, (teed, (over, fine))))) ↦
          inr (c, (e, ground (arith, closes, p, follows, done, append_nil t.pending)))
    ]
