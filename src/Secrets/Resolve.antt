-- ===== src/Secrets/Resolve.antt =====
-- internal/secrets/resolve.go: where the key ring comes from. The file system is what a read of the
-- key file gives, and what its creation gives; logging is left out.
pub mod Race
pub mod Lost
use pivot.Common.{
  ℕ, zero, suc, ◌+◌, Bool, true, false, not, ◌&&◌, Option, none, some, List, [], ◌∷◌, ◌++◌, Text,
  ◌==◌, text_eq, if◌then◌else◌, trim_space, Result, ok, err, ◌>>=◌, map,
}
use pivot.Secrets.{
  SecretError, Crypto, Key, Keyring, parse_key, encode_key, generate_key, new_keyring,
}

pub data KeySource : Type 0 where
  from_config from_file generated : KeySource

pub record Resolved : Type 0 where
  pub keyring : Keyring
  pub source : KeySource
  pub path : Text

pub record Options : Type 0 where
  pub key : Text
  pub file : Text
  pub previous_keys : List Text
  pub generate : Bool

pub data ResolveError : Type 0 where
  bad_previous : ℕ → SecretError → ResolveError
  bad_key unusable_file ring_error : SecretError → ResolveError
  no_file no_key_file unreadable_file cannot_create cannot_write : ResolveError

-- What `os.ReadFile` gives, and what opening the file with O_EXCL gives.
pub data Reading : Type 0 where
  missing unreadable : Reading
  contents : Text → Reading

pub data Creation : Type 0 where
  created exists failed : Creation

-- One start: the reading of the file, what generating meets, and the readings while it waits.
pub record Machine : Type 0 where
  pub reading : Reading
  pub random : Option Text
  pub directory : Bool
  pub creation : Creation
  pub written : Bool
  pub awaited : ℕ → Reading

unfoldable pub parse_all : Crypto → ℕ → List Text → Result ResolveError (List Key)
parse_all c i [] = ok []
parse_all c i (raw ∷ more) = elim (parse_key c raw) [
  | err e ↦ err (bad_previous (i + 1) e)
  | ok key ↦ do keys ← parse_all c (i + 1) more; ok (key ∷ keys)
]

unfoldable pub encode_all : Crypto → List Key → List Text
encode_all c [] = []
encode_all c (key ∷ keys) = encode_key c key ∷ encode_all c keys

unfoldable pub ring_of : Key → List Key → KeySource → Text → Result ResolveError Resolved
ring_of key previous source path = elim (new_keyring key previous) [
  | err e ↦ err (ring_error e)
  | ok ring ↦ ok (record { keyring = ring; source = source; path = path })
]

-- The branch of `Resolve` for a file that was read.
unfoldable pub read_key : Crypto → Text → List Key → Text → Result ResolveError Resolved
read_key c path previous material = elim (parse_key c material) [
  | err e ↦ err (unusable_file e)
  | ok key ↦ ring_of key previous from_file path
]

-- `Resolve` as `awaitKey` calls it: no configured key, and no generating.
unfoldable pub resolve_waiting : Crypto → Text → List Text → Reading → Result ResolveError Resolved
resolve_waiting c path previous_keys reading = do
  previous ← parse_all c 0 previous_keys
  elim reading [
    | contents material ↦ read_key c path previous material
    | missing ↦ err no_key_file
    | unreadable ↦ err unreadable_file
  ]

-- The loop of `awaitKey`, with the attempts left, the number of the next and the last error.
unfoldable pub await_loop :
    Crypto → Text → List Text → (ℕ → Reading) → ℕ → ℕ → ResolveError → Result ResolveError Resolved
await_loop c path previous_keys awaited zero i last = err last
await_loop c path previous_keys awaited (suc attempts) i last =
    elim (resolve_waiting c path previous_keys (awaited i)) [
      | ok resolved ↦ ok resolved
      | err e ↦ await_loop c path previous_keys awaited attempts (i + 1) e
    ]

abbrev pub attempts : ℕ
attempts = 20

unfoldable pub await_key : Crypto → Text → List Key → (ℕ → Reading) → Result ResolveError Resolved
await_key c path previous awaited =
    await_loop c path (encode_all c previous) awaited attempts 0 no_key_file

-- What is written to a new key file.
abbrev pub key_file : Crypto → Key → Text
key_file c key = encode_key c key ++ (10 ∷ [])

-- `generate`, with what it has written if it got that far.
unfoldable pub generate :
    Crypto → Machine → Text → List Key → Result ResolveError Resolved × Option Text
generate c m path previous = elim (generate_key c m.random) [
  | err e ↦ (err (ring_error e), none)
  | ok key ↦ if not m.directory then (err cannot_create, none) else elim m.creation [
    | exists ↦ (await_key c path previous m.awaited, none)
    | failed ↦ (err cannot_create, none)
    | created ↦
        if not m.written
        then (err cannot_write, none)
        else (ring_of key previous generated path, some (key_file c key))
  ]
]

unfoldable pub resolve : Crypto → Machine → Options → Result ResolveError Resolved × Option Text
resolve c m opts = elim (parse_all c 0 opts.previous_keys) [
  | err e ↦ (err e, none)
  | ok previous ↦
      if not (trim_space opts.key == [])
      then (elim (parse_key c opts.key) [
        | err e ↦ (err (bad_key e), none)
        | ok key ↦ (ring_of key previous from_config [], none)
      ])
      else if opts.file == []
      then (err no_file, none)
      else elim m.reading [
        | contents material ↦
            if trim_space material == [] && opts.generate
            then (await_key c opts.file previous m.awaited, none)
            else (read_key c opts.file previous material, none)
        | missing ↦
            if opts.generate then generate c m opts.file previous else (err no_key_file, none)
        | unreadable ↦ (err unreadable_file, none)
      ]
]
