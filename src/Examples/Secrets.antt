-- ===== src/Examples/Secrets.antt =====
-- internal/secrets over packages that stand in for the real ones: sealing leaves the text as it is,
-- and an encoding shifts each byte out of the way of dots and white space.
use pivot.Common.{
  ℕ, zero, suc, ◌+◌, ◌-◌, ◌*◌, ◌/◌, ◌≡◌, refl, true, not, ◌&&◌, none, some, [], ◌∷◌, ◌++◌, Text,
  text_beq, text_eq, ◌==◌, codes, length, lookup, insert, contains, Lacks, Solid, is_space,
  trim_space, trim_left, trim_right, nat_eq, join, ok, map, if◌then◌else◌, inr, ap, ◌<◌, arith,
}
use pivot.Secrets.{
  Crypto, IsSound, Random, Key, Keyring, new_key, new_aead, new_keyring, add_keys, fingerprint, hex,
  hex_digit, seal, encrypt, decrypt, needs_rewrap, generate_key, encode_key,
}
use pivot.Secrets.Envelope.{decrypt-encrypt}
use pivot.Secrets.Resolve.{
  Reading, contents, missing, created, exists, from_file, generated, Machine, Options, parse_all,
  resolve, generate, ring_of,
}
use pivot.Secrets.Resolve.Race.{IsBlank}
use pivot.Secrets.Resolve.Lost.{HasLost, loser_resolves}

shift : Text → Text
shift [] = []
shift (b ∷ bs) = (b + 47) ∷ shift bs

unshift : Text → Text
unshift [] = []
unshift (b ∷ bs) = (b - 47) ∷ unshift bs

unshift-shift : (bs : Text) → unshift (shift bs) ≡ bs
unfolding shift unshift
unshift-shift [] = refl
unshift-shift (b ∷ bs) = ground (arith, unshift-shift bs)

shift_undotted : (bs : Text) → Lacks (shift bs) 46
unfolding shift contains
shift_undotted [] = refl
shift_undotted (b ∷ bs) = ground (arith, shift_undotted bs)

-- Three bytes to four, with what is missing filled up.
pad : Text → Text
pad [] = []
pad (a ∷ []) = (a + 47) ∷ 40 ∷ 40 ∷ 40 ∷ []
pad (a ∷ b ∷ []) = (a + 47) ∷ (b + 47) ∷ 40 ∷ 40 ∷ []
pad (a ∷ b ∷ c ∷ bs) = (a + 47) ∷ (b + 47) ∷ (c + 47) ∷ 40 ∷ pad bs

unpad : Text → Text
unpad (a ∷ b ∷ c ∷ d ∷ bs) =
    let rest = unpad bs in
    if b == 40
    then (a - 47) ∷ []
    else if c == 40
    then (a - 47) ∷ (b - 47) ∷ []
    else (a - 47) ∷ (b - 47) ∷ (c - 47) ∷ rest
unpad _ = []

unpad-pad : (bs : Text) → unpad (pad bs) ≡ bs
unfolding pad unpad
unpad-pad [] = refl
unpad-pad (a ∷ []) = ground arith
unpad-pad (a ∷ b ∷ []) = ground arith
unpad-pad (a ∷ b ∷ c ∷ bs) = ground (arith, unpad-pad bs)

pad-Solid : (bs : Text) → Solid (pad bs)
unfolding pad is_space
pad-Solid [] = tt
pad-Solid (a ∷ []) = ground arith
pad-Solid (a ∷ b ∷ []) = ground arith
pad-Solid (a ∷ b ∷ c ∷ bs) = ground (arith, pad-Solid bs)

length-pad : (bs : Text) → length (pad bs) ≡ 4 * ((length bs + 2) / 3)
unfolding pad
length-pad [] = refl
length-pad (a ∷ []) = refl
length-pad (a ∷ b ∷ []) = refl
length-pad (a ∷ b ∷ c ∷ bs) = omega (arith, length-pad bs)

abbrev toy : Crypto
toy = record {
  gcm_seal = λ key nonce plaintext ad. plaintext;
  gcm_open = λ key nonce sealed ad. some sealed;
  sha256 = λ b. b;
  raw_url_encode = shift;
  raw_url_decode = λ s. some (unshift s);
  std_encode = pad;
  std_decode = λ s. some (unpad s);
  raw_std_decode = λ s. none;
  url_decode = λ s. none;
}

toy-IsSound : IsSound toy
toy-IsSound = record {
  opens = λ key nonce plaintext ad. refl;
  url_decodes = λ b. ap some (unshift-shift b);
  url_undotted = shift_undotted;
  std_decodes = λ b. ap some (unpad-pad b);
  std_solid = pad-Solid;
  std_length = length-pad;
}

abbrev bytes : Text
bytes = codes "0123456789abcdef0123456789abcdef"

abbrev key : Key
key = record { id = codes "30313233"; material = bytes; aead = some bytes }

abbrev newer : Key
newer = record {
  id = codes "66666666";
  material = map (λ b. 102) bytes;
  aead = some (map (λ b. 102) bytes);
}

abbrev random : Random
random = record {
  data_key = some bytes;
  text_nonce = some (codes "nonce-of-12b");
  key_nonce = some (codes "nonce-of-12b");
}

abbrev ring : Keyring
ring = record { primary = key; aead = bytes; by_id = (codes "30313233", key) ∷ [] }

abbrev rotated : Keyring
rotated = record {
  primary = newer;
  aead = map (λ b. 102) bytes;
  by_id = (codes "66666666", newer) ∷ (codes "30313233", key) ∷ [];
}

program : Unit {0}
unfolding shift join new_key new_aead new_keyring add_keys fingerprint hex hex_digit seal encrypt
    lookup insert text_beq generate_key generate ring_of resolve parse_all HasLost trim_space
    trim_left trim_right is_space
program = tt

rotated_ring : new_keyring newer (key ∷ []) ≡ ok rotated
unfolding program
rotated_ring = refl

abbrev stored : Text
stored =
    codes "pivot.v1.30313233."
    ++ (shift (codes "nonce-of-12b" ++ bytes)
        ++ (codes "." ++ shift (codes "nonce-of-12b" ++ codes "hunter2")))

decrypt-encrypt_example :
    (decrypt toy rotated (codes "oidc") stored ≡ ok (codes "hunter2"))
    × (needs_rewrap rotated stored ≡ (not (codes "hunter2" == []) && not (key.id == newer.id)))
unfolding program
decrypt-encrypt_example =
    decrypt-encrypt toy ring rotated random (codes "oidc") (codes "hunter2") stored toy-IsSound refl
      refl refl refl refl refl

abbrev winner : Machine
winner = record {
  reading = missing;
  random = some bytes;
  directory = true;
  creation = created;
  written = true;
  awaited = λ i. missing;
}

-- The loser finds the empty file, and then the winner's text.
abbrev second : ℕ → Reading
second zero = contents []
second (suc i) = contents (encode_key toy key ++ (10 ∷ []))

first-IsBlank : (k : ℕ) → k < 1 → IsBlank (second k)
first-IsBlank zero h = inr refl
first-IsBlank (suc k) h = absurd (omega arith)

abbrev other_bytes : Text
other_bytes = map (λ b. 103) bytes

abbrev loser : Machine
loser = record {
  reading = missing;
  random = some other_bytes;
  directory = true;
  creation = exists;
  written = true;
  awaited = second;
}

abbrev options : Options
options = record { key = []; file = codes "pivot.key"; previous_keys = []; generate = true }

loser_resolves_example :
    resolve toy loser options
    ≡ (ok (record { keyring = ring; source = from_file; path = codes "pivot.key" }), none)
unfolding program
loser_resolves_example =
    loser_resolves toy winner loser options
      (record { keyring = ring; source = generated; path = codes "pivot.key" })
      (encode_key toy key ++ (10 ∷ [])) 1 toy-IsSound refl
      (inr (other_bytes, refl, refl, refl, refl, refl)) (omega arith) first-IsBlank refl
