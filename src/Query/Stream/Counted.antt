-- ===== src/Query/Stream/Counted.antt =====
-- What the log row of a stream of internal/query/logged_stream.go counts: the rows that were read, and
-- how the read ended.
use pivot.Common.{
  ℕ, zero, suc, ◌+◌, ◌≡◌, refl, inl, inr, Bool, true, false, Option, none, some, List, [], ◌∷◌,
  Text, codes, length, take, min, ltb, if◌then◌else◌, Option-cases, arith,
}
use pivot.Query.Stream.{
  Cell, estimate, Source, SourceError, canceled, failed, LogState, succeeded, was_canceled,
  was_failed, LogRow, World, LoggedStream, tee, next, read, store, outcome, finished_row,
  update_log, finish, forget, or_else, close,
}
use pivot.Query.Stream.Filling.{size, list_cases}

-- How a query that ended with this error, or with none, is recorded, and with which message: one that
-- an administrator stopped as canceled, and else as its error says.
pub data Ends : Bool → Option SourceError → LogState → Text → Type 0 where
  well : {killed : Bool} → Ends killed none succeeded []
  stopped :
      {e : SourceError}
      → Ends true (some e) was_canceled (codes "query: stopped by an administrator")
  left : {text : Text} → Ends false (some (canceled text)) was_canceled text
  broke : {text : Text} → Ends false (some (failed text)) was_failed text

pub outcome-Ends :
    (killed : Bool) (cause : Option SourceError)
    → Ends killed cause (outcome killed cause).0 (outcome killed cause).1
unfolding outcome
outcome-Ends true none = well
outcome-Ends false none = well
outcome-Ends true (some e) = stopped
outcome-Ends false (some (canceled text)) = left
outcome-Ends false (some (failed text)) = broke

-- More was asked for than there is.
abbrev pub meets_end : ℕ → Source → Bool
meets_end reads source = ltb (length source.rows) reads

-- The error that a read of so many rows ends with: the first of the read's own and the close's.
abbrev pub cause_of : ℕ → Source → Option SourceError
cause_of reads source =
    or_else (if meets_end reads source then source.failure else none) source.close_error

-- The row counts what was read: as many rows as were asked for, if there are, their bytes, and whether
-- they were cut off.
unfoldable pub Counted : ℕ → Bool → Source → LogRow → Type 0
Counted reads killed source row =
    (row.rows ≡ min reads (length source.rows))
    × ((row.bytes ≡ size (take reads source.rows))
        × ((row.truncated ≡ (if meets_end reads source then source.cut else source.truncated))
            × Ends killed (cause_of reads source) row.state row.error))

-- The stream `t` is `s` after so many reads.
unfoldable pub ReadTo : ℕ → LoggedStream → LoggedStream → Type 0
ReadTo n s t =
    (t.rows ≡ s.rows + min n (length s.source.rows))
    × ((t.bytes ≡ s.bytes + size (take n s.source.rows))
        × ((t.source.truncated
              ≡ (if meets_end n s.source then s.source.cut else s.source.truncated))
            × ((t.err ≡ (if meets_end n s.source then s.source.failure else s.err))
                × (t.source.close_error ≡ s.source.close_error))))

next_end :
    (max : ℕ) (s : LoggedStream)
    → s.source.rows ≡ []
    → (next max s).0 ≡ record s {
      source = record s.source { truncated = s.source.cut };
      err = s.source.failure;
      exhausted = (next max s).0.exhausted;
    }
unfolding next
next_end max s e = ground arith

-- What one row changes, of what is counted.
unfoldable Advanced : List Cell → List (List Cell) → LoggedStream → LoggedStream → Type 0
Advanced row rest s t =
    (t.rows ≡ s.rows + 1)
    × ((t.bytes ≡ s.bytes + estimate row)
        × ((t.err ≡ s.err) × (t.source ≡ record s.source { rows = rest })))

next_row :
    (max : ℕ) (s : LoggedStream) (row : List Cell) (rest : List (List Cell))
    → s.source.rows ≡ row ∷ rest
    → Advanced row rest s (next max s).0
unfolding next tee Advanced
next_row max s row rest e = ground arith

take_none : (n : ℕ) (rows : List (List Cell)) → rows ≡ [] → size (take n rows) ≡ 0
unfolding size
take_none zero rows e = refl
take_none (suc n) rows e = rw e refl

take_row :
    (n : ℕ) (row : List Cell) (rows rest : List (List Cell))
    → rows ≡ row ∷ rest
    → size (take (suc n) rows) ≡ estimate row + size (take n rest)
unfolding size
take_row n row rows rest e = rw e refl

pub read-ReadTo : (max n : ℕ) (s : LoggedStream) → ReadTo n s (read max n s)
unfolding read ReadTo size Advanced
read-ReadTo max zero s = ground arith
read-ReadTo max (suc n) s = elim (list_cases s.source.rows) [
  | inl e ↦
      let after = next_end max s e in
      let none_left : (next max s).0.source.rows ≡ [] = ground arith in
      ground (
        arith,
        after,
        none_left,
        take_none n (next max s).0.source.rows none_left,
        take_none (suc n) s.source.rows e,
        read-ReadTo max n (next max s).0,
      )
  | inr (row, (rest, e)) ↦ ground (
    arith,
    next_row max s row rest e,
    take_row n row s.source.rows rest e,
    read-ReadTo max n (next max s).0,
  )
]

pub store_counts :
    (w : World) (now : ℕ) (s : LoggedStream) (cause : Option SourceError)
    → ((store w now s cause).1.rows ≡ s.rows)
      × (((store w now s cause).1.bytes ≡ s.bytes) × ((store w now s cause).1.source ≡ s.source))
unfolding store
store_counts w now s cause = elim (Option-cases w.cache) [
  | inl e ↦ ground arith
  | inr (c, e) ↦ ground arith
]

pub close_log :
    (now : ℕ) (killed : Bool) (w : World) (s : LoggedStream)
    → s.closed ≡ false
    → (close now false killed w s).0.log
      ≡ update_log s.entry
          (finished_row
            (some (store w now s (or_else s.err s.source.close_error)).1)
            (outcome killed (or_else s.err s.source.close_error)))
          w.log
unfolding close store finish forget
close_log now killed w s h = ground arith
