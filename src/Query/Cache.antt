-- ===== src/Query/Cache.antt =====
-- internal/query/cache.go: the result cache. `C` is the type of a column and `V` that of a cell.
--
-- `container/list` is a list of elements, the front first; an element has an identity, as its
-- pointer does, so that `Remove` and `MoveToFront` find the element and not an equal one. Sizes and
-- row limits are not negative, as the callers count them. Times are nanoseconds, and the clock's
-- reading is an argument. The instruments are not modelled.
pub mod Linked
pub mod Bounds
pub mod Reads
pub mod Lasting
pub mod Apart
pub mod Keys
use pivot.Common.{
  ℕ, zero, suc, ◌+◌, ◌-◌, ◌*◌, ◌%◌, ◌^◌, Bool, true, false, ◌&&◌, ◌||◌, not, Option, none, some,
  List, [], ◌∷◌, ◌++◌, Text, codes, text_eq, nat_eq, ltb, nat_beq, ◌==◌, lookup, lookup_or, insert,
  delete, if◌then◌else◌, decimal, length,
}
use pivot.Tenant.{Uuid}
use pivot.Policy.{Fingerprint, resolved, fingerprint_string}

abbrev pub default_max_bytes : ℕ
default_max_bytes = 64 * 2 ^ 20

abbrev pub default_max_entry_bytes : ℕ
default_max_entry_bytes = 8 * 2 ^ 20

-- Sixty seconds.
abbrev pub default_ttl : ℕ
default_ttl = 60_000_000_000

abbrev pub u64 : ℕ → ℕ
u64 n = n % 2 ^ 64

pub record Stats : Type 0 where
  pub hits : ℕ  -- uint64
  pub misses : ℕ  -- uint64
  pub uncached : ℕ  -- uint64
  pub evictions : ℕ  -- uint64
  pub expired : ℕ  -- uint64
  pub entries : ℕ
  pub bytes : ℕ

pub record Entry (C V : Type 0) : Type 0 where
  pub key : Text
  pub columns : List C
  pub rows : List (List V)
  pub truncated : Bool
  pub bytes : ℕ
  pub expires : ℕ

-- A `*list.Element`.
pub record Element (C V : Type 0) : Type 0 where
  pub id : ℕ
  pub value : Entry C V

-- `fresh` is the identity of the next element.
pub record Cache (C V : Type 0) : Type 0 where
  pub entries : List (Text × Element C V)
  pub order : List (Element C V)
  pub fresh : ℕ
  pub bytes : ℕ
  pub max_bytes : ℕ
  pub max_entry_bytes : ℕ
  pub ttl : ℕ
  pub generations : List (Uuid × ℕ)
  pub stats : Stats

module _ {C V : Type 0} where
  unfoldable pub with_max_bytes : ℕ → Cache C V → Cache C V
  with_max_bytes n c = if ltb 0 n then record c { max_bytes = n } else c

  unfoldable pub with_max_entry_bytes : ℕ → Cache C V → Cache C V
  with_max_entry_bytes n c = if ltb 0 n then record c { max_entry_bytes = n } else c

  unfoldable pub with_ttl : ℕ → Cache C V → Cache C V
  with_ttl d c = if ltb 0 d then record c { ttl = d } else c

  -- The loop over the options.
  unfoldable pub apply_options : List (Cache C V → Cache C V) → Cache C V → Cache C V
  apply_options [] c = c
  apply_options (opt ∷ opts) c = apply_options opts (opt c)

unfoldable pub new_cache : {C V : Type 0} → List (Cache C V → Cache C V) → Cache C V
new_cache opts = apply_options opts (record {
  entries = [];
  order = [];
  fresh = 0;
  bytes = 0;
  max_bytes = default_max_bytes;
  max_entry_bytes = default_max_entry_bytes;
  ttl = default_ttl;
  generations = [];
  stats = record {
    hits = 0;
    misses = 0;
    uncached = 0;
    evictions = 0;
    expired = 0;
    entries = 0;
    bytes = 0;
  };
})

-- `writeKeyPart`: `|`, the length, `:` and the part.
unfoldable pub write_key_part : Text → Text
write_key_part part = codes "|" ++ (decimal (length part) ++ (codes ":" ++ part))

-- What `Key` hashes.
unfoldable pub key_input : (Uuid → Text) → Fingerprint → Uuid → Uuid → Text → ℕ → ℕ → Text
key_input uuid_string fp org_id connection_id statement max_rows generation =
    codes "query/v1"
    ++ (write_key_part (uuid_string org_id)
        ++ (write_key_part (uuid_string connection_id)
            ++ (write_key_part (fingerprint_string fp)
                ++ (write_key_part (decimal max_rows)
                    ++ (write_key_part (decimal generation) ++ (write_key_part statement ++ []))))))

module _ {C V : Type 0} where
  unfoldable pub generation : Cache C V → Uuid → ℕ
  generation c connection_id = lookup_or 0 connection_id c.generations

  -- `Key`: `none` for a caller with no fingerprint. `digest` is the hexadecimal SHA-256.
  unfoldable pub key :
      (Uuid → Text) → (Text → Text) → Cache C V → Fingerprint → Uuid → Uuid → Text → ℕ → Option Text
  key uuid_string digest c fp org_id connection_id statement max_rows =
      if not (resolved fp)
      then none
      else some (
          digest (
            key_input uuid_string fp org_id connection_id statement max_rows
              (generation c connection_id)))

  unfoldable pub invalidate : Cache C V → Uuid → Cache C V
  invalidate c connection_id = record c {
    generations = insert connection_id (u64 (generation c connection_id + 1)) c.generations;
  }

  -- `list.Remove`.
  unfoldable pub remove_id : ℕ → List (Element C V) → List (Element C V)
  remove_id i [] = []
  remove_id i (x ∷ xs) = let rest = remove_id i xs in if x.id == i then xs else x ∷ rest

  -- `list.Back`.
  unfoldable pub back : List (Element C V) → Option (Element C V)
  back [] = none
  back (x ∷ xs) = let rest = back xs in elim xs [ [] ↦ some x | y ∷ ys ↦ rest ]

  unfoldable pub remove_locked : Cache C V → Element C V → Cache C V
  remove_locked c element = record c {
    order = remove_id element.id c.order;
    entries = delete element.value.key c.entries;
    bytes = c.bytes - element.value.bytes;
  }

  abbrev count_miss : Cache C V → Cache C V
  count_miss c = record c { stats = record c.stats { misses = u64 (c.stats.misses + 1) } }

  -- The branch of `Get` for an entry past its time.
  unfoldable pub expire : Cache C V → Element C V → Cache C V
  expire c element =
      let c' = remove_locked c element in
      record c' {
        stats = record c'.stats {
          expired = u64 (c'.stats.expired + 1);
          misses = u64 (c'.stats.misses + 1);
        };
      }

  -- The branch of `Get` for a live entry: `MoveToFront`, and the count.
  unfoldable pub touch : Cache C V → Element C V → Cache C V
  touch c element = record c {
    order = element ∷ remove_id element.id c.order;
    stats = record c.stats { hits = u64 (c.stats.hits + 1) };
  }

  -- `Get`: the entry that is replayed.
  unfoldable pub get : Cache C V → ℕ → Text → Cache C V × Option (Entry C V)
  get c now k = elim (lookup k c.entries) [
    | none ↦ (count_miss c, none)
    | some element ↦
        if ltb element.value.expires now
        then (expire c element, none)
        else (touch c element, some element.value)
  ]

  -- One round of the eviction.
  unfoldable pub drop_oldest : Cache C V → Element C V → Cache C V
  drop_oldest c oldest =
      let c' = remove_locked c oldest in
      record c' { stats = record c'.stats { evictions = u64 (c'.stats.evictions + 1) } }

  -- The loop that evicts from the back. Each round removes one element, so as many rounds as there
  -- are elements are enough.
  unfoldable pub evict : ℕ → Cache C V → Cache C V
  evict zero c = c
  evict (suc rounds) c =
      if ltb c.max_bytes c.bytes
      then elim (back c.order) [ none ↦ c | some oldest ↦ evict rounds (drop_oldest c oldest) ]
      else c

  -- The part of `Put` that drops the entry which the key has already.
  unfoldable pub drop_key : Cache C V → Text → Cache C V
  drop_key c k = elim (lookup k c.entries) [ none ↦ c | some element ↦ remove_locked c element ]

  -- The part of `Put` that links the new entry in front.
  unfoldable pub push_front : Cache C V → Entry C V → Cache C V
  push_front c stored =
      let element : Element C V = record { id = c.fresh; value = stored } in
      record c {
        entries = insert stored.key element c.entries;
        order = element ∷ c.order;
        fresh = c.fresh + 1;
        bytes = c.bytes + stored.bytes;
      }

  unfoldable pub put : Cache C V → ℕ → Text → List C → List (List V) → Bool → ℕ → Cache C V × Bool
  put c now k columns rows truncated size =
      if ltb c.max_entry_bytes size || ltb c.max_bytes size
      then (c, false)
      else (let stored : Entry C V = record {
        key = k;
        columns = columns;
        rows = rows;
        truncated = truncated;
        bytes = size;
        expires = now + c.ttl;
      } in
          let pushed = push_front (drop_key c k) stored in
          (evict (length pushed.order) pushed, true))

  unfoldable pub stats : Cache C V → Stats
  stats c = record c.stats { entries = length c.entries; bytes = c.bytes }

  unfoldable pub count_uncached : Cache C V → Cache C V
  count_uncached c = record c { stats = record c.stats { uncached = u64 (c.stats.uncached + 1) } }
