-- ===== src/Secrets/Resolve/Race.antt =====
-- Two processes of internal/secrets/resolve.go that start at once on a new key file.
use pivot.Common.{
  ℕ, zero, suc, ◌+◌, ◌<◌, ◌≡◌, ◌⊎◌, refl, inl, inr, false, Option, none, some, List, [], ◌∷◌, All,
  Text, text_eq, text_beq, ◌==◌, length, trim_space, trim_left, trim_right, trim_space-Solid,
  trim_space_line, ok, err, Bool-cases, ◌≤◌, nat_beq, nat_beq_iff, Result-cases, arith,
}
use pivot.Secrets.{
  no_key, Crypto, IsSound, Key, Keyring, key_size, new_aead, new_key, first_decoded, parse_key,
  encode_key, generate_key, new_keyring,
}
use pivot.Secrets.Envelope.{IsKey}
use pivot.Secrets.Resolve.{
  from_file, no_key_file, unusable_file, Resolved, ResolveError, Reading, missing, contents,
  Machine, parse_all, encode_all, ring_of, read_key, resolve_waiting, await_loop, attempts,
  await_key, key_file, generate,
}

pub new_key-IsKey :
    (c : Crypto) (material : Text) (key : Key) → new_key c material ≡ ok key → IsKey c key
unfolding new_key new_aead
new_key-IsKey c material key h = ground arith

generate_key-IsKey :
    (c : Crypto) (random : Option Text) (key : Key) → generate_key c random ≡ ok key → IsKey c key
unfolding generate_key
generate_key-IsKey c none key h = cc
generate_key-IsKey c (some material) key h = new_key-IsKey c material key h

key_length : (c : Crypto) (key : Key) → IsKey c key → length key.material ≡ key_size
unfolding new_key
key_length c key h = ground arith

nonempty_length : (s : Text) → length s ≡ 44 → (s == []) ≡ false
unfolding text_beq
nonempty_length [] h = absurd (omega arith)
nonempty_length (c ∷ s) h = refl

-- A text that is trimmed to the encoding of a key is parsed to the key.
parse_key-encode_key :
    (c : Crypto) (key : Key) (text : Text)
    → IsSound c
    → IsKey c key
    → trim_space text ≡ encode_key c key
    → parse_key c text ≡ ok key
unfolding parse_key encode_key first_decoded
parse_key-encode_key c key text s k e = ground (
  arith,
  s.std_decodes key.material,
  key_length c key k,
  nonempty_length (c.std_encode key.material),
  s.std_length key.material,
)

trim_key : (c : Crypto) (key : Key) → IsSound c → trim_space (encode_key c key) ≡ encode_key c key
unfolding encode_key
trim_key c key s = trim_space-Solid (c.std_encode key.material) (s.std_solid key.material)

trim_key_file :
    (c : Crypto) (key : Key) → IsSound c → trim_space (key_file c key) ≡ encode_key c key
unfolding encode_key
trim_key_file c key s = trim_space_line (c.std_encode key.material) (s.std_solid key.material)

parse_all-encode_all :
    (c : Crypto) (i : ℕ) (keys : List Key)
    → IsSound c
    → All (IsKey c) keys
    → parse_all c i (encode_all c keys) ≡ ok keys
unfolding parse_all encode_all
parse_all-encode_all c i [] s h = refl
parse_all-encode_all c i (key ∷ keys) s h = ground (
  arith,
  parse_key-encode_key c key (encode_key c key) s h.0 (trim_key c key s),
  parse_all-encode_all c (i + 1) keys s h.1,
)

generate_created :
    (c : Crypto) (m : Machine) (path : Text) (previous : List Key) (resolved : Resolved)
    (text : Text)
    → generate c m path previous ≡ (ok resolved, some text)
    → (key : Key) × IsKey c key
      × (text ≡ key_file c key)
      × (new_keyring key previous ≡ ok resolved.keyring)
unfolding generate ring_of
generate_created c m path previous resolved text h = elim (Result-cases (generate_key c m.random)) [
  | inr (x, e) ↦ ground arith
  | inl (key, e) ↦ elim (Result-cases (new_keyring key previous)) [
    | inl (ring, r) ↦ (key, generate_key-IsKey c m.random key e, ground arith, ground arith)
    | inr (x, r) ↦ ground arith
  ]
]

-- A reading before the winner's text is there: no file yet, or the empty one that O_EXCL made.
abbrev pub IsBlank : Reading → Type 0
IsBlank r = (r ≡ missing) ⊎ (r ≡ contents [])

blank_fails :
    (c : Crypto) (path : Text) (previous : List Text) (r : Reading)
    → IsBlank r
    → (e : ResolveError) × (resolve_waiting c path previous r ≡ err e)
unfolding resolve_waiting read_key parse_key trim_space trim_left trim_right text_beq
blank_fails c path previous r b = elim (Result-cases (parse_all c 0 previous)) [
  | inr (x, p) ↦ (x, ground arith)
  | inl (keys, p) ↦ elim b [
    | inl e ↦ (no_key_file, ground arith)
    | inr e ↦ (unusable_file no_key, ground arith)
  ]
]

read_key_file :
    (c : Crypto) (path : Text) (previous : List Key) (key : Key) (ring : Keyring)
    → IsSound c
    → IsKey c key
    → All (IsKey c) previous
    → new_keyring key previous ≡ ok ring
    → resolve_waiting c path (encode_all c previous) (contents (key_file c key))
      ≡ ok (record { keyring = ring; source = from_file; path = path })
unfolding resolve_waiting read_key ring_of
read_key_file c path previous key ring s k all n = ground (
  arith,
  parse_all-encode_all c 0 previous s all,
  parse_key-encode_key c key (key_file c key) s k (trim_key_file c key s),
)

await_loop_reads :
    (c : Crypto) (path : Text) (previous : List Text) (awaited : ℕ → Reading) (resolved : Resolved)
    (n left i : ℕ) (last : ResolveError)
    → i ≤ n
    → n < i + left
    → ((k : ℕ) → k < n → IsBlank (awaited k))
    → resolve_waiting c path previous (awaited n) ≡ ok resolved
    → await_loop c path previous awaited left i last ≡ ok resolved
unfolding await_loop
await_loop_reads c path previous awaited resolved n zero i last h k blank read =
    absurd (omega arith)
await_loop_reads c path previous awaited resolved n (suc left) i last h k blank read =
    elim (Bool-cases (nat_beq i n)) [
      | inl same ↦
          let e : n ≡ i = ground (arith, nat_beq_iff i n) in rw (rw e at read, await_loop) refl
      | inr other ↦
          let (e, fails) = blank_fails c path previous (awaited i) (blank i (ground arith)) in
          rw (fails, await_loop)
            (await_loop_reads c path previous awaited resolved n left (i + 1) e (ground arith)
              (omega arith) blank read)
    ]

-- Whoever waits for the winner's key ends with the winner's key ring, if what the winner wrote
-- is there at one of its twenty attempts, and the file was missing or empty at those before.
pub await_key-generate :
    (c : Crypto) (m : Machine) (path : Text) (previous : List Key) (resolved : Resolved)
    (text : Text) (awaited : ℕ → Reading) (n : ℕ)
    → IsSound c
    → All (IsKey c) previous
    → generate c m path previous ≡ (ok resolved, some text)
    → n < attempts
    → ((k : ℕ) → k < n → IsBlank (awaited k))
    → awaited n ≡ contents text
    → await_key c path previous awaited
      ≡ ok (record { keyring = resolved.keyring; source = from_file; path = path })
unfolding await_key
await_key-generate c m path previous resolved text awaited n s all won soon blank there =
    let (key, k, written, ring) = generate_created c m path previous resolved text won in
    await_loop_reads c path (encode_all c previous) awaited
      (record { keyring = resolved.keyring; source = from_file; path = path }) n attempts 0
      no_key_file (omega arith) (omega arith) blank
      (rw (there, written) (read_key_file c path previous key resolved.keyring s k all ring))
