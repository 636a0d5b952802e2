-- ===== src/Query/Stream/Stored.antt =====
-- When the stream of internal/query/logged_stream.go puts its result in the cache.
use pivot.Common.{
  ℕ, zero, suc, ◌+◌, ◌≡◌, ◌∙◌, inl, inr, Bool, true, false, none, some, List, [], ◌∷◌, ◌≤◌, ◌<◌,
  Text, All, ltb, if◌then◌else◌, length, arith,
}
use pivot.Query.Cache.{Cache, Entry, get, put}
use pivot.Query.Cache.Bounds.{IsValid}
use pivot.Query.Cache.Reads.{entry_of}
use pivot.Query.Cache.Lasting.{after_gets, get-put}
use pivot.Query.Stream.{Column, Cell, World, LoggedStream, tee, next, read, store, close, is_miss}
use pivot.Query.Stream.Filling.{
  size, Follows, IsDone, list_cases, read-Follows, read-IsDone, close_cache, read_closed,
  append_nil, whole,
}

-- A stream that still tees and whose rows fit has, once they are over, all of them.
unfoldable pub Fits : ℕ → LoggedStream → Type 0
Fits max s =
    (s.caching ≡ true)
    × ((is_miss s.cache_status ≡ true)
        × ((s.source.failure ≡ none) × ((s.err ≡ none) × (s.bytes + size s.source.rows ≤ max))))

next-Fits : (max : ℕ) (s : LoggedStream) → Fits max s → Fits max (next max s).0
unfolding next tee Fits size
next-Fits max s h = elim (list_cases s.source.rows) [
  | inl e ↦ ground arith
  | inr (row, (rest, e)) ↦ ground arith
]

next_over :
    (max : ℕ) (s : LoggedStream)
    → Fits max s
    → s.source.rows ≡ []
    → ((next max s).0.source.rows ≡ []) × ((next max s).0.exhausted ≡ true)
unfolding next Fits
next_over max s h r = ground arith

next_row :
    (max : ℕ) (s : LoggedStream) (row : List Cell) (rest : List (List Cell))
    → s.source.rows ≡ row ∷ rest
    → (next max s).0.source.rows ≡ rest
unfolding next tee
next_row max s row rest r = ground arith

over_stays :
    (max n : ℕ) (s : LoggedStream)
    → Fits max s
    → s.source.rows ≡ []
    → s.exhausted ≡ true
    → Fits max (read max n s) × ((read max n s).exhausted ≡ true)
unfolding read
over_stays max zero s h r x = (h, x)
over_stays max (suc n) s h r x =
    let after = next_over max s h r in
    over_stays max n (next max s).0 (next-Fits max s h) after.0 after.1

read_over :
    (max n : ℕ) (s : LoggedStream)
    → Fits max s
    → length s.source.rows < n
    → Fits max (read max n s) × ((read max n s).exhausted ≡ true)
unfolding read
read_over max zero s h k = absurd (omega arith)
read_over max (suc n) s h k = elim (list_cases s.source.rows) [
  | inl e ↦
      over_stays max n (next max s).0 (next-Fits max s h) (next_over max s h e).0
        (next_over max s h e).1
  | inr (row, (rest, e)) ↦
      read_over max n (next max s).0 (next-Fits max s h) (ground (arith, next_row max s row rest e))
]

close_leaves :
    (max_entry_bytes reads now : ℕ) (lost killed : Bool) (w : World) (s : LoggedStream)
    (c : Cache Column Cell)
    → s.closed ≡ false
    → s.exhausted ≡ false
    → s.pending ≡ []
    → Fits max_entry_bytes s
    → s.source.close_error ≡ none
    → length s.source.rows < reads
    → w.cache ≡ some c
    → (close now lost killed w (read max_entry_bytes reads s)).0.cache ≡ some (whole now s c)
unfolding Follows IsDone Fits size store
close_leaves max reads now lost killed w s c still begun empty fits well enough here =
    let t = read max reads s in
    let closes = close_cache now lost killed w t (read_closed max reads s ∙ still) in
    let follows = read-Follows max reads s in
    let done = read-IsDone max reads s (λ h. ground (arith, h, begun)) in
    let over = read_over max reads s fits enough in
    ground (arith, closes, follows, done, over, append_nil t.pending)

put-fits :
    (c : Cache Column Cell) (now : ℕ) (k : Text) (columns : List Column) (rows : List (List Cell))
    (truncated : Bool) (bytes : ℕ)
    → bytes ≤ c.max_entry_bytes
    → bytes ≤ c.max_bytes
    → (put c now k columns rows truncated bytes).1 ≡ true
unfolding put
put-fits c now k columns rows truncated bytes small enough = ground arith

-- What a stream that has a whole result has stored.
abbrev pub whole_entry : ℕ → LoggedStream → Cache Column Cell → Entry Column Cell
whole_entry now s c =
    entry_of c now s.cache_key s.source.columns s.source.rows s.source.cut
      (s.bytes + size s.source.rows)

-- A new stream of a query that is to be cached, read to its end without an error, whose rows
-- fit what a valid cache has room for, in an entry and in all, leaves its result in that cache:
-- while nothing else is stored, every `Get` of its key gives it back, all its rows in order, up
-- to the moment at which it expires, and none after, whatever was read before it.
pub close_stores :
    (reads now later : ℕ) (lost killed : Bool) (w : World) (s : LoggedStream)
    (c : Cache Column Cell) (gets : List (ℕ × Text))
    → IsValid c
    → w.cache ≡ some c
    → s.closed ≡ false
    → s.exhausted ≡ false
    → s.pending ≡ []
    → Fits c.max_entry_bytes s
    → s.bytes + size s.source.rows ≤ c.max_bytes
    → s.source.close_error ≡ none
    → length s.source.rows < reads
    → All (λ (g : ℕ × Text). g.0 ≤ later) gets
    → (after : Cache Column Cell) × (((close now lost killed w
            (read c.max_entry_bytes reads s)).0.cache
          ≡ some after)
        × ((get (after_gets after gets) later s.cache_key).1
            ≡ (if ltb (now + c.ttl) later then none else some (whole_entry now s c))))
unfolding Fits
close_stores reads now later lost killed w s c gets v here still begun empty fits room well enough
      before =
    let bytes = s.bytes + size s.source.rows in
    let stored =
      put-fits c now s.cache_key s.source.columns s.source.rows s.source.cut bytes fits.1.1.1.1
        room in
    (
      whole now s c,
      (
        close_leaves c.max_entry_bytes reads now lost killed w s c still begun empty fits well
            enough here,
        get-put c now s.cache_key s.source.columns s.source.rows s.source.cut bytes later gets v
            stored before,
      ),
    )
