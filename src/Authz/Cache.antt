-- ===== src/Authz/Cache.antt =====
-- internal/authz/cache.go: decisions and standings remembered in process. Times are nanoseconds; the
-- clock's reading is an argument of each operation that takes one. The mutex makes each of `key`,
-- `lookup`, `store` and `Invalidate` atomic, so each is one function here; `Interleave` has what
-- may happen between them.
pub mod Interleave
use pivot.Common.{
  ℕ, ◌+◌, ◌%◌, ◌^◌, Bool, true, false, Option, none, some, List, [], ◌∷◌, ◌++◌, Text, codes,
  text_eq, ltb, nat_beq, lookup, insert, if◌then◌else◌, Result, ok, err, decimal, length,
}
use pivot.Authz.Model.{Relation, Subject, Object, subject_string, object_string}
use pivot.Authz.Check.{Request, Decision, Explanation, Failure, unavailable, request_string}

-- Three seconds.
abbrev pub cache_ttl : ℕ
cache_ttl = 3_000_000_000

abbrev pub u64 : ℕ → ℕ
u64 n = n % 2 ^ 64

pub record GrantEntry : Type 0 where
  pub relations : List Relation
  pub expires : ℕ

pub record CacheEntry : Type 0 where
  pub decision : Decision
  pub expires : ℕ

pub record Cache : Type 0 where
  pub ttl : ℕ
  pub entries : List (Text × CacheEntry)
  pub grants : List (Text × GrantEntry)
  pub generation : ℕ  -- uint64
  pub hits : ℕ  -- uint64
  pub misses : ℕ  -- uint64

unfoldable pub new_cache : Cache
new_cache = record {
  ttl = cache_ttl;
  entries = [];
  grants = [];
  generation = 0;
  hits = 0;
  misses = 0;
}

-- `key`: the key of a question, and the generation.
unfoldable pub key : Cache → Request → Text × ℕ
key c req = (request_string req, c.generation)

abbrev count_hit : Cache → Cache
count_hit c = record c { hits = u64 (c.hits + 1) }

abbrev count_miss : Cache → Cache
count_miss c = record c { misses = u64 (c.misses + 1) }

-- `lookup`: a decision is live strictly before it expires.
unfoldable pub lookup_decision : Cache → ℕ → Text → Cache × Option Decision
lookup_decision c now k = elim (lookup k c.entries) [
  | none ↦ (count_miss c, none)
  | some e ↦ if ltb now e.expires then (count_hit c, some e.decision) else (count_miss c, none)
]

-- `store`: dropped if the generation has moved.
unfoldable pub store_decision : Cache → ℕ → Text → ℕ → Decision → Cache
store_decision c now k generation d =
    if nat_beq generation c.generation
    then record c { entries = insert k (record { decision = d; expires = now + c.ttl }) c.entries }
    else c

-- `Check`, with the clock's two readings and the inner checker's answer.
unfoldable pub cached_check :
    Cache → ℕ → ℕ → (Request → Result Failure Decision) → Request → Cache × Result Failure Decision
cached_check c now later inner req =
    let (k, generation) = key c req in
    let found = lookup_decision c now k in
    elim found.1 [
      | some d ↦ (found.0, ok d)
      | none ↦ elim (inner req) [
        | err e ↦ (found.0, err e)
        | ok d ↦ (store_decision found.0 later k generation d, ok d)
      ]
    ]

-- `Explain`: never cached.
unfoldable pub cached_explain :
    Cache
    → (Request → Explanation × Option Failure)
    → Request
    → Cache × (Explanation × Option Failure)
cached_explain c inner req = (c, inner req)

unfoldable pub invalidate : Cache → Cache
invalidate c = record c { generation = u64 (c.generation + 1); entries = []; grants = [] }

unfoldable pub grant_key : Cache → Subject → Object → Text × ℕ
grant_key c subject object = (
  decimal c.generation
      ++ (codes "|" ++ (subject_string subject ++ (codes "|" ++ object_string object))),
  c.generation,
)

-- `lookupGrants`: a standing is live until it expires, that moment included.
unfoldable pub lookup_grants : Cache → ℕ → Text → Option (List Relation)
lookup_grants c now k = elim (lookup k c.grants) [
  | none ↦ none
  | some e ↦ if ltb e.expires now then none else some e.relations
]

unfoldable pub store_grants : Cache → ℕ → Text → ℕ → List Relation → Cache
store_grants c now k generation relations =
    if nat_beq generation c.generation
    then record c {
      grants = insert k (record { relations = relations; expires = now + c.ttl }) c.grants;
    }
    else c

-- `Grants`; `none` for an inner checker that is no `Granter`.
unfoldable pub cached_grants :
    Cache
    → ℕ
    → ℕ
    → Option (Subject → Object → Result Failure (List Relation))
    → Subject
    → Object
    → Cache × Result Failure (List Relation)
cached_grants c now later none subject object = (c, err unavailable)
cached_grants c now later (some inner) subject object =
    let (k, generation) = grant_key c subject object in
    elim (lookup_grants c now k) [
      | some relations ↦ (count_hit c, ok relations)
      | none ↦ elim (inner subject object) [
        | err e ↦ (count_miss c, err e)
        | ok relations ↦ (store_grants (count_miss c) later k generation relations, ok relations)
      ]
    ]

unfoldable pub stats : Cache → ℕ × ℕ × ℕ
stats c = (c.hits, c.misses, length c.entries + length c.grants)
