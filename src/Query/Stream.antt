-- ===== src/Query/Stream.antt =====
-- internal/query/logged_stream.go, with `finish` of executor.go and the statements of
-- internal/store/repo/query_log.go: the stream that a caller reads and closes. The times of a log
-- row are left out, and so are log lines. The scope under which a query is recorded is the one it
-- was started in.
pub mod Filling
pub mod Stored
pub mod Counted
use pivot.Common.{
  zero, suc, ◌-◌, ℕ, ◌+◌, Bool, true, false, not, ◌&&◌, ◌||◌, Option, none, some, List, [], ◌∷◌,
  ◌++◌, Text, codes, length, ltb, nat_eq, ◌==◌, keep_if, if◌then◌else◌,
}
use pivot.Tenant.{Uuid, NullUuid}
use pivot.Query.Cache.{Cache, put}

pub record Column : Type 0 where
  pub name : Text
  pub kind : Text
  pub source_type : Text
  pub nullable : Bool

-- A cell as the driver decodes it; `other` is a number, or anything of a fixed width.
pub data Cell : Type 0 where
  nil : Cell
  string bytes : Text → Cell
  time : ℕ → Cell
  bool : Bool → Cell
  other : ℕ → Cell

unfoldable pub estimate_cell : Cell → ℕ
estimate_cell nil = 0
estimate_cell (string v) = length v
estimate_cell (bytes v) = length v
estimate_cell (time v) = 24
estimate_cell (bool v) = 1
estimate_cell (other v) = 8

unfoldable pub estimate : List Cell → ℕ
estimate [] = 0
estimate (cell ∷ row) = estimate_cell cell + estimate row

-- What a source says when a read ends badly: that it was canceled, or what went wrong.
pub data SourceError : Type 0 where
  canceled failed : Text → SourceError

unfoldable pub message : SourceError → Text
message (canceled text) = text
message (failed text) = text

-- A connector's stream: the rows that are still to come, and how it then ends. `truncated` is what
-- `Truncated` says now, and `cut` what it says once `Next` has met the end.
pub record Source : Type 0 where
  pub columns : List Column
  pub rows : List (List Cell)
  pub failure : Option SourceError
  pub truncated : Bool
  pub cut : Bool
  pub close_error : Option SourceError

pub data CacheStatus : Type 0 where
  hit miss uncached : CacheStatus

pub data LogState : Type 0 where
  running succeeded was_canceled was_failed : LogState

pub record LogRow : Type 0 where
  pub id : Uuid
  pub connection_id : Uuid
  pub user_id : NullUuid
  pub sql : Text
  pub owner : Text
  pub state : LogState
  pub rows : ℕ
  pub bytes : ℕ
  pub truncated : Bool
  pub cache_status : CacheStatus
  pub error : Text

-- What the executor shares between queries: the result cache, how many slots of the governor and
-- how many connectors are held, the queries that the monitor watches, and the log.
pub record World : Type 0 where
  pub cache : Option (Cache Column Cell)
  pub slots : ℕ
  pub connectors : ℕ
  pub watched : List Uuid
  pub log : List LogRow
  pub fresh : Uuid

-- The fields of `loggedStream`. `err` is what `Err` of its stream says, and `closed` is its
-- `sync.Once`. A function that may be nil is whether it is there.
pub record LoggedStream : Type 0 where
  pub source : Source
  pub err : Option SourceError
  pub entry : Uuid
  pub connector : Bool
  pub release : Bool
  pub unwatch : Bool
  pub rows : ℕ
  pub bytes : ℕ
  pub caching : Bool
  pub cache_key : Text
  pub cache_status : CacheStatus
  pub pending : List (List Cell)
  pub exhausted : Bool
  pub closed : Bool

unfoldable pub tee : ℕ → List Cell → LoggedStream → LoggedStream
tee max_entry_bytes row s =
    if not s.caching
    then s
    else if ltb max_entry_bytes s.bytes
    then record s { caching = false; cache_status = uncached; pending = [] }
    else record s { pending = s.pending ++ (row ∷ []) }

abbrev pub is_none {ℓ} : {A : Type ℓ} → Option A → Bool
is_none none = true
is_none (some a) = false

unfoldable pub next : ℕ → LoggedStream → LoggedStream × Bool
next max_entry_bytes s = elim s.source.rows [
  | [] ↦ (
    record s {
      source = record s.source { truncated = s.source.cut };
      err = s.source.failure;
      exhausted = is_none s.source.failure;
    },
    false,
  )
  | row ∷ rest ↦ (
    tee max_entry_bytes row (record s {
      source = record s.source { rows = rest };
      rows = s.rows + 1;
      bytes = s.bytes + estimate row;
    }),
    true,
  )
]

unfoldable pub read : ℕ → ℕ → LoggedStream → LoggedStream
read max_entry_bytes zero s = s
read max_entry_bytes (suc n) s = read max_entry_bytes n (next max_entry_bytes s).0

abbrev pub is_miss : CacheStatus → Bool
is_miss hit = false
is_miss miss = true
is_miss uncached = false

abbrev not_cached : LoggedStream → LoggedStream
not_cached s = record s { cache_status = uncached }

unfoldable pub store : World → ℕ → LoggedStream → Option SourceError → World × LoggedStream
store w now s cause =
    if not (is_miss s.cache_status)
    then (w, s)
    else if not s.caching || not s.exhausted || not (is_none cause)
    then (w, not_cached s)
    else elim w.cache [
      | none ↦ (w, s)
      | some cache ↦
          let stored =
            put cache now s.cache_key s.source.columns s.pending s.source.truncated s.bytes in
          (
            record w { cache = some stored.0 },
            record s { cache_status = if stored.1 then s.cache_status else uncached; pending = [] },
          )
    ]

abbrev pub killed_message : Text
killed_message = codes "query: stopped by an administrator"

-- The state that `finish` records, and its message. `killed` is whether the cause of the query's
-- context is `ErrKilled`.
unfoldable pub outcome : Bool → Option SourceError → LogState × Text
outcome killed none = (succeeded, [])
outcome true (some cause) = (was_canceled, killed_message)
outcome false (some (canceled text)) = (was_canceled, text)
outcome false (some (failed text)) = (was_failed, text)

-- What `finish` counts of a stream; of none it counts nothing.
unfoldable pub finished_row : Option LoggedStream → LogState × Text → LogRow → LogRow
finished_row none out row = record row {
  state = out.0;
  error = out.1;
  rows = 0;
  bytes = 0;
  truncated = false;
  cache_status = uncached;
}
finished_row (some s) out row = record row {
  state = out.0;
  error = out.1;
  rows = s.rows;
  bytes = s.bytes;
  truncated = s.source.truncated;
  cache_status = s.cache_status;
}

unfoldable pub update_log : Uuid → (LogRow → LogRow) → List LogRow → List LogRow
update_log id f [] = []
update_log id f (row ∷ rows) = (if row.id == id then f row else row) ∷ update_log id f rows

-- Whether the statement that completes the row fails is an argument; if it does, the row stays.
unfoldable pub finish :
    Bool → Bool → Uuid → Option LoggedStream → Option SourceError → World → World
finish lost killed entry s cause w =
    if lost
    then w
    else record w { log = update_log entry (finished_row s (outcome killed cause)) w.log }

unfoldable pub forget : Uuid → World → World
forget entry w = record w { watched = keep_if (λ id. not (id == entry)) w.watched }

abbrev pub close_connector : World → World
close_connector w = record w { connectors = w.connectors - 1 }

abbrev pub give_slot : World → World
give_slot w = record w { slots = w.slots - 1 }

-- The first of two errors.
abbrev pub or_else : Option SourceError → Option SourceError → Option SourceError
or_else none later = later
or_else (some first) later = some first

-- What `once` runs; the error of the connector's own `Close` only reaches the caller.
unfoldable pub close : ℕ → Bool → Bool → World → LoggedStream → World × LoggedStream
close now lost killed w s =
    if s.closed
    then (w, s)
    else (let cause = or_else s.err s.source.close_error in
        let stored = store w now s cause in
        let logged = finish lost killed s.entry (some stored.1) cause stored.0 in
        let unwatched = if s.unwatch then forget s.entry logged else logged in
        let released = if s.release then give_slot unwatched else unwatched in
        (
          if s.connector then close_connector released else released,
          record stored.1 { closed = true },
        ))
