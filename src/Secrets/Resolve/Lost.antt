-- ===== src/Secrets/Resolve/Lost.antt =====
-- `Resolve` of internal/secrets/resolve.go in the process that lost the race for a new key file.
use pivot.Common.{
  ℕ, ◌+◌, ◌<◌, ◌≡◌, ◌⊎◌, refl, ap, inl, inr, true, false, none, some, List, [], ◌∷◌, All, Text,
  text_eq, text_beq, ◌==◌, length, trim_space, trim_left, trim_right, ok, Bool-cases, Option-cases,
  Result-cases, arith,
}
use pivot.Secrets.{
  Crypto, IsSound, Key, key_size, new_aead, fingerprint, new_key, first_decoded, parse_key,
  generate_key,
}
use pivot.Secrets.Envelope.{IsKey}
use pivot.Secrets.Resolve.{
  from_file, Resolved, Options, Reading, missing, unreadable, contents, exists, Machine, parse_all,
  attempts, await_key, generate, resolve,
}
use pivot.Secrets.Resolve.Race.{new_key-IsKey, IsBlank, await_key-generate}

parse_key-IsKey : (c : Crypto) (raw : Text) (key : Key) → parse_key c raw ≡ ok key → IsKey c key
unfolding parse_key
parse_key-IsKey c raw key h =
    let decoders = c.std_decode ∷ c.raw_std_decode ∷ c.url_decode ∷ c.raw_url_decode ∷ [] in
    elim (Option-cases (first_decoded c decoders (trim_space raw))) [
      | inl e ↦ absurd (ground arith)
      | inr (material, e) ↦ new_key-IsKey c material key (ground arith)
    ]

-- The keys that were configured are keys.
parse_all-IsKey :
    (c : Crypto) (i : ℕ) (raws : List Text) (keys : List Key)
    → parse_all c i raws ≡ ok keys
    → All (IsKey c) keys
unfolding parse_all
parse_all-IsKey c i [] keys h = let e : keys ≡ [] = ground arith in rw e tt
parse_all-IsKey c i (raw ∷ raws) keys h = elim (Result-cases (parse_key c raw)) [
  | inr (why, p) ↦ absurd (ground arith)
  | inl (key, p) ↦ elim (Result-cases (parse_all c (i + 1) raws)) [
    | inr (why, q) ↦ absurd (ground arith)
    | inl (more, q) ↦
        let e : keys ≡ key ∷ more = ground arith in
        rw e (parse_key-IsKey c raw key p, parse_all-IsKey c (i + 1) raws more q)
  ]
]

Reading-cases :
    (r : Reading) → (r ≡ missing) ⊎ ((r ≡ unreadable) ⊎ ((text : Text) × (r ≡ contents text)))
Reading-cases missing = inl refl
Reading-cases unreadable = inr (inl refl)
Reading-cases (contents text) = inr (inr (text, refl))

-- A process that wrote a key found no file, had no key configured, and was allowed to generate.
resolve_wrote :
    (c : Crypto) (m : Machine) (opts : Options) (resolved : Resolved) (text : Text)
    → resolve c m opts ≡ (ok resolved, some text)
    → (previous : List Key) × (parse_all c 0 opts.previous_keys ≡ ok previous)
      × ((trim_space opts.key == []) ≡ true)
      × ((opts.file == []) ≡ false)
      × (opts.generate ≡ true)
      × (generate c m opts.file previous ≡ (ok resolved, some text))
unfolding resolve
resolve_wrote c m opts resolved text h = elim (Result-cases (parse_all c 0 opts.previous_keys)) [
  | inr (why, p) ↦ absurd (ground arith)
  | inl (previous, p) ↦ elim (Bool-cases (trim_space opts.key == [])) [
    | inr configured ↦ elim (Result-cases (parse_key c opts.key)) [
      | inl (key, k) ↦ absurd (ground arith)
      | inr (why, k) ↦ absurd (ground arith)
    ]
    | inl no_key ↦ elim (Bool-cases (opts.file == [])) [
      | inl no_file ↦ absurd (ground arith)
      | inr file ↦ elim (Reading-cases m.reading) [
        | inl r ↦ elim (Bool-cases opts.generate) [
          | inl g ↦ (previous, p, no_key, file, g, ground arith)
          | inr g ↦ absurd (ground arith)
        ]
        | inr (inl r) ↦ absurd (ground arith)
        | inr (inr (material, r)) ↦ elim (Bool-cases (trim_space material == [])) [
          | inl blank ↦ absurd (ground arith)
          | inr full ↦ absurd (ground arith)
        ]
      ]
    ]
  ]
]

-- What a process meets that lost the race: the file is there and empty, or it was not there when it was
-- read and is there when it is to be created, a key having been drawn.
unfoldable pub HasLost : Machine → Type 0
HasLost m =
    (m.reading ≡ contents [])
    ⊎ ((material : Text) × (m.reading ≡ missing)
        × (m.random ≡ some material)
        × (length material ≡ key_size)
        × (m.directory ≡ true)
        × (m.creation ≡ exists))

new_key_of_size :
    (c : Crypto) (material : Text)
    → length material ≡ key_size
    → (key : Key) × (new_key c material ≡ ok key)
unfolding new_key new_aead
new_key_of_size c material h = (
  record { id = fingerprint c material; material = material; aead = some material },
  ground arith,
)

-- It waits.
resolve_waits :
    (c : Crypto) (m : Machine) (opts : Options) (previous : List Key)
    → parse_all c 0 opts.previous_keys ≡ ok previous
    → (trim_space opts.key == []) ≡ true
    → (opts.file == []) ≡ false
    → opts.generate ≡ true
    → HasLost m
    → resolve c m opts ≡ (await_key c opts.file previous m.awaited, none)
unfolding resolve HasLost generate generate_key trim_space trim_left trim_right text_beq
resolve_waits c m opts previous p k f g lost = elim lost [
  | inl blank ↦ ground arith
  | inr (material, r, random, size, directory, creation) ↦
      ground (arith, new_key_of_size c material size)
]

-- Two processes start on one new key file. One of them resolves to a ring and has written a text. The
-- other lost the race: it draws a key and finds the file created meanwhile, or finds it there and
-- empty. If that text is there at one of the other's twenty attempts to read, and the
-- file was missing or empty at those before, then the other also resolves, to the same ring read
-- from the file, and writes nothing.
pub loser_resolves :
    (c : Crypto) (winner loser : Machine) (opts : Options) (resolved : Resolved) (text : Text)
    (n : ℕ)
    → IsSound c
    → resolve c winner opts ≡ (ok resolved, some text)
    → HasLost loser
    → n < attempts
    → ((k : ℕ) → k < n → IsBlank (loser.awaited k))
    → loser.awaited n ≡ contents text
    → resolve c loser opts
      ≡ (ok (record { keyring = resolved.keyring; source = from_file; path = opts.file }), none)
loser_resolves c winner loser opts resolved text n s won lost soon blank there =
    let (previous, p, key, file, may, wrote) = resolve_wrote c winner opts resolved text won in
    rw (resolve_waits c loser opts previous p key file may lost) (
      ap (λ answer. (answer, none))
        (await_key-generate c winner opts.file previous resolved text loser.awaited n s
          (parse_all-IsKey c 0 opts.previous_keys previous p) wrote soon blank there))
