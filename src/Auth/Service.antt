-- ===== src/Auth/Service.antt =====
-- internal/auth/service.go up to Login, and the parts of password.go and token.go that it calls.
-- Logging is left out. `record_failure` only changes the store, as `recordFailure` reports nothing.
use pivot.Common.{
  ℕ, zero, suc, ◌+◌, ◌-◌, ◌*◌, ◌%◌, ◌^◌, Bool, not, Option, none, some, [], ◌∷◌, Text, ◌==◌,
  text_eq, ltb, leb, if◌then◌else◌, length, Result, ok, err,
}
use pivot.Tenant.{Uuid, new_system_scope}
use pivot.Auth.Store.{
  new_time, Db, User, Session, LoginAttempt, StoreError, not_found, Outage, normalize_email,
  locked_until, record_failed_login, lock_login, clear_login_attempts, get_by_email, record_login,
}
use pivot.Auth.SessionStore.{create_session}

pub data AuthError : Type 0 where
  invalid_credentials account_locked session_invalid password_incorrect : AuthError
  password_too_short password_too_long no_randomness invalid_hash : AuthError
  store_error : StoreError → AuthError

-- The durations of a policy, as the bits of an int64.
pub record Policy : Type 0 where
  pub idle_timeout : ℕ
  pub absolute_timeout : ℕ
  pub max_failed_attempts : ℕ
  pub lockout_duration : ℕ
  pub max_lockout_duration : ℕ
  pub touch_interval : ℕ

-- What a hash decodes to; argon2 and the decoding of its fields are outside.
pub record Argon : Type 1 where
  pub Params : Type 0
  pub decode_hash : Text → Option (Params × Text)
  pub id_key : Text → Params → Text
  pub encode_hash : Text → Text → Text

-- One call's surroundings: the readings of the service's clock, when the operation starts and when
-- StartSession does, and of the repositories' clock, the statements that fail, and what the random source gives.
pub record Env : Type 1 where
  pub policy : Policy
  pub argon : Argon
  pub hash_token : Text → Text
  pub now : ℕ
  pub start_now : ℕ
  pub store_now : ℕ
  pub down : Outage
  pub new_token : Option Text
  pub new_salt : Option Text
  pub new_id : Uuid

pub record Credentials : Type 0 where
  pub org_id : Uuid
  pub email : Text
  pub password : Text
  pub ip : Text
  pub user_agent : Text

pub record LoginResult : Type 0 where
  pub token : Text
  pub session : Session
  pub user : User

abbrev pub min_password_length : ℕ
min_password_length = 12

abbrev pub max_password_length : ℕ
max_password_length = 1024

unfoldable pub hash_password : Env → Text → Result AuthError Text
hash_password env password =
    if ltb (length password) min_password_length
    then err password_too_short
    else if ltb max_password_length (length password)
    then err password_too_long
    else elim env.new_salt [
      | none ↦ err no_randomness
      | some salt ↦ ok (env.argon.encode_hash salt password)
    ]

unfoldable pub verify_password : Env → Text → Text → Result AuthError Bool
verify_password env password encoded = elim (env.argon.decode_hash encoded) [
  | none ↦ err invalid_hash
  | some d ↦ ok (env.argon.id_key password d.0 == d.1)
]

-- A duration twice as long, and `>=` on durations: int64 in two's complement.
unfoldable pub twice : ℕ → ℕ
twice d = (d * 2) % 2 ^ 64

unfoldable pub at_least : ℕ → ℕ → Bool
at_least a b = leb ((b + 2 ^ 63) % 2 ^ 64) ((a + 2 ^ 63) % 2 ^ 64)

-- The loop of `recordFailure` that doubles the window, once for each failure past the threshold.
unfoldable pub lengthen : ℕ → ℕ → ℕ → ℕ
lengthen cap zero lockout = lockout
lengthen cap (suc excess) lockout =
    let rest = lengthen cap excess (twice lockout) in
    if at_least (twice lockout) cap then cap else rest

unfoldable pub lockout_window : Policy → ℕ → ℕ
lockout_window p failed_count =
    lengthen p.max_lockout_duration (failed_count - p.max_failed_attempts) p.lockout_duration

unfoldable pub record_failure : Env → Db → Uuid → Text → Db
record_failure env db org email =
    let counted : Db × Result StoreError LoginAttempt =
      record_failed_login env.down env.new_id db org email env.now in
    elim counted.1 [
      | err e ↦ counted.0
      | ok attempt ↦
          if ltb attempt.failed_count env.policy.max_failed_attempts
          then counted.0
          else (lock_login env.down counted.0 org email
              (env.now + lockout_window env.policy attempt.failed_count)).0
    ]

-- A stored hash that is NULL or empty is no password.
unfoldable pub stored_hash : User → Option Text
stored_hash user = elim user.password_hash [
  | none ↦ none
  | some [] ↦ none
  | some (c ∷ s) ↦ some (c ∷ s)
]

-- The row that `StartSession` asks for, with the columns that the statement fills in.
abbrev pub opened : Env → User → Text → Text → Text → Session
opened env user token ip user_agent = record {
  id = env.new_id;
  org_id = user.org_id;
  user_id = user.id;
  token_hash = env.hash_token token;
  expires_at = new_time (env.start_now + env.policy.idle_timeout);
  absolute_expires_at = new_time (env.start_now + env.policy.absolute_timeout);
  last_seen_at = env.store_now;
  ip = ip;
  user_agent = user_agent;
  revoked_at = none;
}

-- `StartSession`. The stamp of the login may fail; the session stands.
unfoldable pub start_session : Env → Db → User → Text → Text → Db × Result AuthError LoginResult
start_session env db user ip user_agent =
    if not user.is_active
    then (db, err invalid_credentials)
    else elim (new_system_scope user.org_id) [
      | err e ↦ (db, err invalid_credentials)
      | ok scope ↦ elim env.new_token [
        | none ↦ (db, err no_randomness)
        | some token ↦
            let created : Db × Result StoreError Session =
              create_session env.down db (opened env user token ip user_agent) in
            elim created.1 [
              | err e ↦ (created.0, err (store_error e))
              | ok session ↦ (
                (record_login env.down created.0 scope user.id env.store_now).0,
                ok (record { token = token; session = session; user = user }),
              )
            ]
      ]
    ]

abbrev pub refuse : Env → Db → Credentials → Db × Result AuthError LoginResult
refuse env db cred =
    (record_failure env db cred.org_id (normalize_email cred.email), err invalid_credentials)

-- The second half of `Login`, once the account is found: the password, the account, the session.
unfoldable pub login_user : Env → Db → Credentials → User → Db × Result AuthError LoginResult
login_user env db cred user = elim (stored_hash user) [
  | none ↦ refuse env db cred
  | some hash ↦ elim (verify_password env cred.password hash) [
    | err e ↦ refuse env db cred
    | ok matches ↦
        if not matches
        then refuse env db cred
        else if not user.is_active
        then refuse env db cred
        else start_session env
            (clear_login_attempts env.down db cred.org_id (normalize_email cred.email)).0 user
            cred.ip cred.user_agent
  ]
]

unfoldable pub login : Env → Db → Credentials → Db × Result AuthError LoginResult
login env db cred =
    elim (locked_until env.down db cred.org_id (normalize_email cred.email) env.now) [
      | err e ↦ (db, err (store_error e))
      | ok (some until) ↦ (db, err account_locked)
      | ok none ↦ elim (new_system_scope cred.org_id) [
        | err e ↦ (db, err invalid_credentials)
        | ok scope ↦ elim (get_by_email env.down db scope (normalize_email cred.email)) [
          | err not_found ↦ refuse env db cred
          | err e ↦ (db, err (store_error e))
          | ok user ↦ login_user env db cred user
        ]
      ]
    ]
