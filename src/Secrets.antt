-- ===== src/Secrets.antt =====
-- internal/secrets/secrets.go: the cipher for stored secrets. AES-GCM, SHA-256, base64 and the
-- random source are outside; a `cipher.AEAD` is the key that it was built from.
pub mod Envelope
pub mod Resolve
use pivot.Common.{
  ℕ, ◌+◌, ◌/◌, ◌%◌, ◌*◌, Bool, true, false, not, ◌||◌, Option, none, some, List, [], ◌∷◌, ◌++◌,
  Text, codes, length, take, drop, ltb, ◌==◌, nat_eq, text_eq, if◌then◌else◌, lookup, insert, Lacks,
  Solid, trim_space, has_prefix, split, join, Result, ok, err, ◌>>=◌, ◌≡◌,
}

pub data SecretError : Type 0 where
  no_key malformed bad_size bad_encoding no_randomness : SecretError
  unknown_key : Text → SecretError

pub record Crypto : Type 0 where
  pub gcm_seal : Text → Text → Text → Text → Text
  pub gcm_open : Text → Text → Text → Text → Option Text
  pub sha256 : Text → Text
  pub raw_url_encode : Text → Text
  pub raw_url_decode : Text → Option Text
  pub std_encode : Text → Text
  pub std_decode : Text → Option Text
  pub raw_std_decode : Text → Option Text
  pub url_decode : Text → Option Text

-- What the packages document: a sealed text opens under its key, nonce and additional data;
-- decoding undoes encoding; an encoding has no dot and no white space, and is as long as `EncodedLen`
-- says.
pub record IsSound (c : Crypto) : Type 0 where
  pub opens :
      (key nonce plaintext ad : Text)
      → c.gcm_open key nonce (c.gcm_seal key nonce plaintext ad) ad ≡ some plaintext
  pub url_decodes : (b : Text) → c.raw_url_decode (c.raw_url_encode b) ≡ some b
  pub url_undotted : (b : Text) → Lacks (c.raw_url_encode b) 46
  pub std_decodes : (b : Text) → c.std_decode (c.std_encode b) ≡ some b
  pub std_solid : (b : Text) → Solid (c.std_encode b)
  pub std_length : (b : Text) → length (c.std_encode b) ≡ 4 * ((length b + 2) / 3)

-- What the random source gives for a data key and for the nonces of the two seals; `none` where the
-- read fails.
pub record Random : Type 0 where
  pub data_key : Option Text
  pub text_nonce : Option Text
  pub key_nonce : Option Text

abbrev pub key_size : ℕ
key_size = 32

abbrev pub nonce_size : ℕ
nonce_size = 12

abbrev pub fields : ℕ
fields = 5

abbrev pub dot : ℕ
dot = 46

abbrev pub marker : Text
marker = codes "pivot"

abbrev pub version : Text
version = codes "v1"

-- A zero `Key` has no AEAD.
pub record Key : Type 0 where
  pub id : Text
  pub material : Text
  pub aead : Option Text

unfoldable pub hex_digit : ℕ → ℕ
hex_digit n = if ltb n 10 then 48 + n else 87 + n

unfoldable pub hex : Text → Text
hex [] = []
hex (b ∷ bs) = hex_digit (b / 16) ∷ hex_digit (b % 16) ∷ hex bs

-- `aes.NewCipher` takes keys of three sizes.
unfoldable pub new_aead : Text → Result SecretError Text
new_aead key =
    if (length key == 16 || length key == 24) || length key == 32 then ok key else err bad_size

module _ (c : Crypto) where
  unfoldable pub fingerprint : Text → Text
  fingerprint material = hex (take 4 (c.sha256 material))

  unfoldable pub new_key : Text → Result SecretError Key
  new_key material = if not (length material == key_size) then err bad_size else (do
    aead ← new_aead material
    ok (record { id = fingerprint material; material = material; aead = some aead }))

  -- The loop of `ParseKey` over the encodings: the first that decodes.
  unfoldable pub first_decoded : List (Text → Option Text) → Text → Option Text
  first_decoded [] s = none
  first_decoded (decode ∷ more) s =
      let rest = first_decoded more s in elim (decode s) [ some b ↦ some b | none ↦ rest ]

  unfoldable pub parse_key : Text → Result SecretError Key
  parse_key encoded =
      if trim_space encoded == []
      then err no_key
      else elim (first_decoded
          (c.std_decode ∷ c.raw_std_decode ∷ c.url_decode ∷ c.raw_url_decode ∷ [])
          (trim_space encoded)) [ some material ↦ new_key material | none ↦ err bad_encoding ]

  unfoldable pub encode_key : Key → Text
  encode_key k = c.std_encode k.material

  -- `GenerateKey`, from what the random source gives.
  unfoldable pub generate_key : Option Text → Result SecretError Key
  generate_key none = err no_randomness
  generate_key (some material) = new_key material

  unfoldable pub seal : Option Text → Text → Text → Text → Result SecretError Text
  seal none aead plaintext purpose = err no_randomness
  seal (some nonce) aead plaintext purpose = ok (nonce ++ c.gcm_seal aead nonce plaintext purpose)

  unfoldable pub open_sealed : Text → Text → Text → Result SecretError Text
  open_sealed aead sealed purpose =
      if ltb (length sealed) nonce_size
      then err malformed
      else elim (c.gcm_open aead (take nonce_size sealed) (drop nonce_size sealed) purpose) [
        | none ↦ err malformed
        | some plaintext ↦ ok plaintext
      ]

pub record Keyring : Type 0 where
  pub primary : Key
  pub aead : Text
  pub by_id : List (Text × Key)

-- The loop of `NewKeyring` over the previous keys.
unfoldable pub add_keys : List (Text × Key) → List Key → Result SecretError (List (Text × Key))
add_keys by_id [] = ok by_id
add_keys by_id (key ∷ previous) = elim key.aead [
  | none ↦ err no_key
  | some aead ↦ add_keys (insert key.id key by_id) previous
]

unfoldable pub new_keyring : Key → List Key → Result SecretError Keyring
new_keyring primary previous = elim primary.aead [
  | none ↦ err no_key
  | some aead ↦ do
    by_id ← add_keys ((primary.id, primary) ∷ []) previous
    ok (record { primary = primary; aead = aead; by_id = by_id })
]

unfoldable pub is_envelope : Text → Bool
is_envelope stored = has_prefix (marker ++ (dot ∷ version ++ (dot ∷ []))) stored

unfoldable pub needs_rewrap : Keyring → Text → Bool
needs_rewrap ring [] = false
needs_rewrap ring (b ∷ bs) =
    if not (is_envelope (b ∷ bs)) then true else elim (split dot (b ∷ bs)) [
      | _ ∷ _ ∷ id ∷ _ ∷ _ ∷ [] ↦ not (id == ring.primary.id)
      | _ ↦ true
    ]

module _ (c : Crypto) where
  unfoldable pub encrypt : Keyring → Random → Text → Text → Result SecretError Text
  encrypt ring random purpose [] = ok []
  encrypt ring random purpose (b ∷ bs) = elim random.data_key [
    | none ↦ err no_randomness
    | some data_key ↦ do
      data_aead ← new_aead data_key
      sealed ← seal c random.text_nonce data_aead (b ∷ bs) purpose
      wrapped ← seal c random.key_nonce ring.aead data_key purpose
      ok (
          join dot (
            marker
            ∷ version
            ∷ ring.primary.id
            ∷ c.raw_url_encode wrapped
            ∷ c.raw_url_encode sealed
            ∷ []))
  ]

  -- A base64 field of an envelope.
  unfoldable pub decode_field : Text → Result SecretError Text
  decode_field s = elim (c.raw_url_decode s) [ none ↦ err malformed | some b ↦ ok b ]

  -- The part of `Decrypt` that reads the fields of an envelope.
  unfoldable pub open_fields : Keyring → Text → List Text → Result SecretError Text
  open_fields ring purpose (_ ∷ _ ∷ id ∷ w ∷ s ∷ []) = elim (lookup id ring.by_id) [
    | none ↦ err (unknown_key id)
    | some key ↦ elim key.aead [
      | none ↦ err no_key
      | some aead ↦ do
        wrapped ← decode_field w
        sealed ← decode_field s
        data_key ← open_sealed c aead wrapped purpose
        data_aead ← new_aead data_key
        open_sealed c data_aead sealed purpose
    ]
  ]
  open_fields ring purpose _ = err malformed

  unfoldable pub decrypt : Keyring → Text → Text → Result SecretError Text
  decrypt ring purpose [] = ok []
  decrypt ring purpose (b ∷ bs) =
      if not (is_envelope (b ∷ bs))
      then ok (b ∷ bs)
      else open_fields ring purpose (split dot (b ∷ bs))

-- `refusing`, the cipher without a key.
unfoldable pub refusing_encrypt : Text → Text → Result SecretError Text
refusing_encrypt purpose [] = ok []
refusing_encrypt purpose (b ∷ bs) = err no_key

unfoldable pub refusing_decrypt : Text → Text → Result SecretError Text
refusing_decrypt purpose stored = if is_envelope stored then err no_key else ok stored
