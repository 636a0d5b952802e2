-- ===== src/Query/Cache/Keys.antt =====
-- The keys of the result cache: what two questions have in common if they have one key, and what an
-- invalidation does to the keys.
use pivot.Common.{
  ℕ, ◌+◌, ◌^◌, ◌<◌, ◌≡◌, ◌≢◌, refl, some, [], ◌++◌, Text, codes, nat_eq, ◌==◌, lookup_or,
  if◌then◌else◌, decimal, arith, nat_beq_iff, lookup-insert, append-same_length, decimal-injective,
}
use pivot.Tenant.{Uuid}
use pivot.Policy.{Fingerprint, fingerprint_string, write_element}
use pivot.Policy.Sharing.{IsInjective, write_element-injective}
use pivot.Query.Cache.{Cache, write_key_part, key_input, key, generation, invalidate, u64}

write_key_part-injective :
    (a b s t : Text) → write_key_part a ++ s ≡ write_key_part b ++ t → (a ≡ b) × (s ≡ t)
unfolding write_key_part write_element
write_key_part-injective a b s t e = write_element-injective a b s t e

-- The same question, asked for by callers with the same fingerprint, of the same generation.
pub record SameQuestion (fp fp' : Fingerprint) (org org' connection connection' : Uuid)
    (statement statement' : Text) (rows rows' generation generation' : ℕ) : Type 0 where
  pub same_org : org ≡ org'
  pub same_connection : connection ≡ connection'
  pub same_fingerprint : fingerprint_string fp ≡ fingerprint_string fp'
  pub same_rows : rows ≡ rows'
  pub same_generation : generation ≡ generation'
  pub same_statement : statement ≡ statement'

key_input-injective :
    (uuid_string : Uuid → Text)
    → IsInjective uuid_string
    → (fp fp' : Fingerprint) (org org' connection connection' : Uuid) (statement statement' : Text)
      (rows rows' g g' : ℕ)
    → key_input uuid_string fp org connection statement rows g
      ≡ key_input uuid_string fp' org' connection' statement' rows' g'
    → SameQuestion fp fp' org org' connection connection' statement statement' rows rows' g g'
unfolding key_input
key_input-injective us inj fp fp' org org' connection connection' statement statement' rows rows' g
      g' e =
    let e0 = (append-same_length (codes "query/v1") (codes "query/v1") _ _ refl e).1 in
    let (e1, r1) = write_key_part-injective (us org) (us org') _ _ e0 in
    let (e2, r2) = write_key_part-injective (us connection) (us connection') _ _ r1 in
    let (e3, r3) =
      write_key_part-injective (fingerprint_string fp) (fingerprint_string fp') _ _ r2 in
    let (e4, r4) = write_key_part-injective (decimal rows) (decimal rows') _ _ r3 in
    let (e5, r5) = write_key_part-injective (decimal g) (decimal g') _ _ r4 in
    let (e6, r6) = write_key_part-injective statement statement' [] [] r5 in
    record {
      same_org = inj org org' e1;
      same_connection = inj connection connection' e2;
      same_fingerprint = e3;
      same_rows = decimal-injective rows rows' e4;
      same_generation = decimal-injective g g' e5;
      same_statement = e6;
    }

generation-invalidate :
    {C V : Type 0} (c : Cache C V) (connection other : Uuid)
    → generation (invalidate c connection) other
      ≡ (if connection == other then u64 (generation c connection + 1) else generation c other)
unfolding generation invalidate
generation-invalidate c connection other = ground (
  arith,
  lookup-insert connection other (u64 (lookup_or 0 connection c.generations + 1)) c.generations,
)

module _ (uuid_string : Uuid → Text) (digest : Text → Text)
    (uuid_string-inj : IsInjective uuid_string) (digest-inj : IsInjective digest)
    {C V : Type 0} where
  -- Two callers who are given one key ask the same statement of the same connection of the same
  -- organization with the same row limit, their fingerprints read alike, and the connection's
  -- generation is the same. It is assumed that the digest and the rendering of a uuid have no
  -- collisions.
  pub key-SameQuestion :
      (c c' : Cache C V) (fp fp' : Fingerprint) (org org' connection connection' : Uuid)
      (statement statement' : Text) (rows rows' : ℕ) (k : Text)
      → key uuid_string digest c fp org connection statement rows ≡ some k
      → key uuid_string digest c' fp' org' connection' statement' rows' ≡ some k
      → SameQuestion fp fp' org org' connection connection' statement statement' rows rows'
          (generation c connection)
          (generation c' connection')
  unfolding key
  key-SameQuestion c c' fp fp' org org' connection connection' statement statement' rows rows' k e
        e' =
      key_input-injective uuid_string uuid_string-inj fp fp' org org' connection connection'
        statement statement' rows rows' (generation c connection) (generation c' connection')
        (digest-inj
          (key_input uuid_string fp org connection statement rows (generation c connection))
          (key_input uuid_string fp' org' connection' statement' rows' (generation c' connection'))
          (ground arith))

  -- After an invalidation no question about the connection has a key that some question about it
  -- had before, the counter not having wrapped; the generation of every other connection is what
  -- it was.
  pub invalidate-unreachable :
      (c : Cache C V) (fp fp' : Fingerprint) (org org' connection : Uuid)
      (statement statement' : Text) (rows rows' : ℕ) (k : Text)
      → generation c connection + 1 < 2 ^ 64
      → key uuid_string digest c fp org connection statement rows ≡ some k
      → (key uuid_string digest (invalidate c connection) fp' org' connection statement' rows'
          ≢ some k)
        × ((other : Uuid)
            → other ≢ connection
            → generation (invalidate c connection) other ≡ generation c other)
  invalidate-unreachable c fp fp' org org' connection statement statement' rows rows' k room e = (
    λ e'.
        let same =
          key-SameQuestion c (invalidate c connection) fp fp' org org' connection connection
            statement statement' rows rows' k e e' in
        ground (
          arith,
          same.same_generation,
          generation-invalidate c connection connection,
          nat_beq_iff connection connection,
        ),
    λ other differ.
        ground (arith, generation-invalidate c connection other, nat_beq_iff connection other),
  )
