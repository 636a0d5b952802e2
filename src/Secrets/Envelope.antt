-- ===== src/Secrets/Envelope.antt =====
-- An envelope of internal/secrets/secrets.go is read back by every ring that holds its key.
use pivot.Common.{
  text_beq, ℕ, ◌/◌, ◌%◌, ◌≡◌, refl, ap, ◌∙◌, inl, inr, true, false, not, ◌&&◌, Option, none, some,
  List, [], ◌∷◌, ◌++◌, Text, length, length-append, take, drop, ◌==◌, nat_eq, text_eq, contains,
  lookup, Lacks, has_prefix, split, join, split-join, ok, Option-cases, Result-cases, arith,
}
use pivot.Secrets.{
  Crypto, IsSound, Random, Key, Keyring, nonce_size, dot, marker, version, hex_digit, hex, new_aead,
  fingerprint, new_key, seal, open_sealed, is_envelope, needs_rewrap, encrypt, decode_field,
  open_fields, decrypt,
}

take-append {ℓ} : {A : Type ℓ} (xs ys : List A) → take (length xs) (xs ++ ys) ≡ xs
take-append [] ys = refl
take-append (x ∷ xs) ys = ap (◌∷◌ x) (take-append xs ys)

drop-append {ℓ} : {A : Type ℓ} (xs ys : List A) → drop (length xs) (xs ++ ys) ≡ ys
drop-append [] ys = refl
drop-append (x ∷ xs) ys = drop-append xs ys

hex_digit_undotted : (n : ℕ) → (dot == hex_digit n) ≡ false
unfolding hex_digit
hex_digit_undotted n = ground arith

hex_undotted : (bs : Text) → Lacks (hex bs) dot
unfolding hex contains
hex_undotted [] = refl
hex_undotted (b ∷ bs) =
    ground (arith, hex_digit_undotted (b / 16), hex_digit_undotted (b % 16), hex_undotted bs)

-- A key that `NewKey` built.
abbrev pub IsKey : Crypto → Key → Type 0
IsKey c key = new_key c key.material ≡ ok key

key_id : (c : Crypto) (key : Key) → IsKey c key → key.id ≡ fingerprint c key.material
unfolding new_key new_aead
key_id c key h = ground arith

key_aead : (c : Crypto) (key : Key) → IsKey c key → key.aead ≡ some key.material
unfolding new_key new_aead
key_aead c key h = ground arith

id_undotted : (c : Crypto) (key : Key) → IsKey c key → Lacks key.id dot
unfolding fingerprint
id_undotted c key h = rw (key_id c key h) (hex_undotted (take 4 (c.sha256 key.material)))

-- The nonces that were read are as long as was asked for.
abbrev pub IsFull : Option Text → Type 0
IsFull none = Unit
IsFull (some nonce) = length nonce ≡ nonce_size

open_sealed-seal :
    (c : Crypto) (nonce : Option Text) (aead plaintext purpose sealed : Text)
    → IsSound c
    → IsFull nonce
    → seal c nonce aead plaintext purpose ≡ ok sealed
    → open_sealed c aead sealed purpose ≡ ok plaintext
unfolding seal open_sealed
open_sealed-seal c none aead plaintext purpose sealed s f h = cc
open_sealed-seal c (some nonce) aead plaintext purpose sealed s f h =
    let text = c.gcm_seal aead nonce plaintext purpose in
    ground (
      arith,
      length-append nonce text,
      rw f at (take-append nonce text),
      rw f at (drop-append nonce text),
      s.opens aead nonce plaintext purpose,
    )

-- The text of an envelope.
abbrev envelope : Text → Text → Text → Text
envelope id w s = join dot (marker ∷ version ∷ id ∷ w ∷ s ∷ [])

split-envelope :
    (id w s : Text)
    → Lacks id dot
    → Lacks w dot
    → Lacks s dot
    → split dot (envelope id w s) ≡ marker ∷ version ∷ id ∷ w ∷ s ∷ []
unfolding contains
split-envelope id w s h k l =
    split-join dot marker (version ∷ id ∷ w ∷ s ∷ []) (refl, (refl, (h, (k, (l, tt)))))

envelope_marked : (id w s : Text) → is_envelope (envelope id w s) ≡ true
unfolding join is_envelope has_prefix
envelope_marked id w s = refl

needs_rewrap_marked :
    (ring : Keyring) (stored id w s : Text)
    → is_envelope stored ≡ true
    → split dot stored ≡ marker ∷ version ∷ id ∷ w ∷ s ∷ []
    → needs_rewrap ring stored ≡ not (id == ring.primary.id)
unfolding needs_rewrap is_envelope has_prefix
needs_rewrap_marked ring [] id w s h e = cc
needs_rewrap_marked ring (b ∷ bs) id w s h e = rw (h, e) refl

decrypt_marked :
    (c : Crypto) (ring : Keyring) (purpose stored : Text)
    → is_envelope stored ≡ true
    → decrypt c ring purpose stored ≡ open_fields c ring purpose (split dot stored)
unfolding decrypt is_envelope has_prefix
decrypt_marked c ring purpose [] h = cc
decrypt_marked c ring purpose (b ∷ bs) h = rw h refl

needs_rewrap-envelope :
    (ring : Keyring) (id w s : Text)
    → Lacks id dot
    → Lacks w dot
    → Lacks s dot
    → needs_rewrap ring (envelope id w s) ≡ not (id == ring.primary.id)
needs_rewrap-envelope ring id w s h k l =
    needs_rewrap_marked ring (envelope id w s) id w s (envelope_marked id w s)
      (split-envelope id w s h k l)

decrypt-envelope :
    (c : Crypto) (ring : Keyring) (purpose id w s : Text)
    → Lacks id dot
    → Lacks w dot
    → Lacks s dot
    → decrypt c ring purpose (envelope id w s)
      ≡ open_fields c ring purpose (marker ∷ version ∷ id ∷ w ∷ s ∷ [])
decrypt-envelope c ring purpose id w s h k l =
    decrypt_marked c ring purpose (envelope id w s) (envelope_marked id w s)
    ∙ ap (open_fields c ring purpose) (split-envelope id w s h k l)

-- The fields of an envelope open to what was sealed under a key that the ring holds.
open_fields_sealed :
    (c : Crypto) (ring : Keyring) (key : Key) (random : Random)
    (purpose plaintext data_key wrapped sealed : Text)
    → IsSound c
    → IsKey c key
    → IsFull random.text_nonce
    → IsFull random.key_nonce
    → lookup key.id ring.by_id ≡ some key
    → new_aead data_key ≡ ok data_key
    → seal c random.text_nonce data_key plaintext purpose ≡ ok sealed
    → seal c random.key_nonce key.material data_key purpose ≡ ok wrapped
    → open_fields c ring purpose
        (marker ∷ version ∷ key.id ∷ c.raw_url_encode wrapped ∷ c.raw_url_encode sealed ∷ [])
      ≡ ok plaintext
unfolding open_fields decode_field
open_fields_sealed c ring key random purpose plaintext data_key wrapped sealed s k ft fk held sized
      st sk =
    ground (
      arith,
      key_aead c key k,
      s.url_decodes wrapped,
      s.url_decodes sealed,
      open_sealed-seal c random.key_nonce key.material data_key purpose wrapped s fk sk,
      open_sealed-seal c random.text_nonce data_key plaintext purpose sealed s ft st,
    )

new_aead_same : (key aead : Text) → new_aead key ≡ ok aead → aead ≡ key
unfolding new_aead
new_aead_same key aead h = ground arith

-- An encryption that succeeds has these parts.
encrypt_parts :
    (c : Crypto) (ring : Keyring) (random : Random) (purpose stored : Text) (b : ℕ) (bs : Text)
    → encrypt c ring random purpose (b ∷ bs) ≡ ok stored
    → (data_key : Text) × (sealed : Text) × (wrapped : Text) × (new_aead data_key ≡ ok data_key)
      × (seal c random.text_nonce data_key (b ∷ bs) purpose ≡ ok sealed)
      × (seal c random.key_nonce ring.aead data_key purpose ≡ ok wrapped)
      × (stored ≡ envelope ring.primary.id (c.raw_url_encode wrapped) (c.raw_url_encode sealed))
unfolding encrypt
encrypt_parts c ring random purpose stored b bs h = elim (Option-cases random.data_key) [
  | inl e ↦ ground arith
  | inr (data_key, e) ↦ elim (Result-cases (new_aead data_key)) [
    | inr (x, a) ↦ ground arith
    | inl (aead, a) ↦ elim (Result-cases (seal c random.text_nonce data_key (b ∷ bs) purpose)) [
      | inr (x, t) ↦ ground (arith, new_aead_same data_key aead)
      | inl (sealed, t) ↦ elim (Result-cases (seal c random.key_nonce ring.aead data_key purpose)) [
        | inr (x, k) ↦ ground (arith, new_aead_same data_key aead)
        | inl (wrapped, k) ↦ (
          data_key,
          sealed,
          wrapped,
          ground (arith, new_aead_same data_key aead),
          t,
          k,
          ground (arith, new_aead_same data_key aead),
        )
      ]
    ]
  ]
]

decrypt_empty :
    (c : Crypto) (ring ring' : Keyring) (random : Random) (purpose stored : Text)
    → encrypt c ring random purpose [] ≡ ok stored
    → (decrypt c ring' purpose stored ≡ ok []) × (needs_rewrap ring' stored ≡ false)
unfolding encrypt decrypt needs_rewrap
decrypt_empty c ring ring' random purpose [] h = (refl, refl)
decrypt_empty c ring ring' random purpose (x ∷ xs) h = cc

-- What a ring has encrypted is decrypted by every ring that holds its primary key, for the same
-- purpose, and is to be encrypted again exactly where that ring's primary key is another.
pub decrypt-encrypt :
    (c : Crypto) (ring ring' : Keyring) (random : Random) (purpose plaintext stored : Text)
    → IsSound c
    → IsKey c ring.primary
    → ring.primary.aead ≡ some ring.aead
    → IsFull random.text_nonce
    → IsFull random.key_nonce
    → lookup ring.primary.id ring'.by_id ≡ some ring.primary
    → encrypt c ring random purpose plaintext ≡ ok stored
    → (decrypt c ring' purpose stored ≡ ok plaintext)
      × (needs_rewrap ring' stored
          ≡ (not (plaintext == []) && not (ring.primary.id == ring'.primary.id)))
unfolding text_beq
decrypt-encrypt c ring ring' random purpose [] stored s k a ft fk held h =
    decrypt_empty c ring ring' random purpose stored h
decrypt-encrypt c ring ring' random purpose (b ∷ bs) stored s k a ft fk held h =
    let (data_key, sealed, wrapped, sized, t, w, e) =
      encrypt_parts c ring random purpose stored b bs h in
    let same : ring.aead ≡ ring.primary.material = ground (arith, key_aead c ring.primary k) in
    let i = id_undotted c ring.primary k in
    let u = s.url_undotted wrapped in
    let v = s.url_undotted sealed in
    rw e (
      decrypt-envelope c ring' purpose ring.primary.id (c.raw_url_encode wrapped)
            (c.raw_url_encode sealed) i u v
          ∙ open_fields_sealed c ring' ring.primary random purpose (b ∷ bs) data_key wrapped sealed
              s k ft fk held sized t (rw same at w),
      needs_rewrap-envelope ring' ring.primary.id (c.raw_url_encode wrapped)
          (c.raw_url_encode sealed) i u v,
    )
