-- ===== src/Auth/Store.antt =====
-- The rows that authentication reads and writes, and the repositories over them:
-- internal/store/repo/login_attempts.go, sessions.go and users.go, with the statements that their
-- queries run (internal/store/queries). A row has the columns that authentication uses; a time is
-- in nanoseconds; a NULL is `none`.
use pivot.Common.{
  pair_eq, lower, trim_space, ◌%◌, ℕ, ◌+◌, ◌-◌, Bool, true, false, not, ◌&&◌, Option, none, some,
  List, [], ◌∷◌, map, Text, ◌==◌, nat_eq, text_eq, ltb, if◌then◌else◌, lookup, insert, delete,
  keep_if, length, Result, ok, err,
}
use pivot.Tenant.{Uuid, Scope}

pub record LoginAttempt : Type 0 where
  pub id : Uuid
  pub failed_count : ℕ
  pub first_failed_at : ℕ
  pub last_failed_at : ℕ
  pub locked_until : Option ℕ

pub record User : Type 0 where
  pub id : Uuid
  pub org_id : Uuid
  pub email : Text
  pub password_hash : Option Text
  pub is_active : Bool
  pub last_login_at : Option ℕ
  pub updated_at : ℕ
  pub version : ℕ
  pub deleted_at : Option ℕ

pub record Session : Type 0 where
  pub id : Uuid
  pub org_id : Uuid
  pub user_id : Uuid
  pub token_hash : Text
  pub expires_at : ℕ
  pub absolute_expires_at : ℕ
  pub last_seen_at : ℕ
  pub ip : Text
  pub user_agent : Text
  pub revoked_at : Option ℕ

-- `attempts` is keyed by the unique index on organization and address.
pub record Db : Type 0 where
  pub attempts : List ((Uuid × Text) × LoginAttempt)
  pub users : List User
  pub sessions : List Session

pub data StoreError : Type 0 where
  not_found duplicate : StoreError
  failed : Text → StoreError

-- The statements that an operation sends. An outage names those that fail, and why; one that fails
-- changes nothing.
pub data Call : Type 0 where
  get_login_attempt record_failed set_login_lock clear_attempts delete_stale : Call
  get_user get_user_by_email update_user_password record_user_login : Call
  insert_session get_session touch revoke revoke_user revoke_others delete_expired : Call

abbrev pub Outage : Type 0
Outage = Call → Option Text

-- `dbtypes.NewTime`: a stored time is cut to the millisecond.
unfoldable pub new_time : ℕ → ℕ
new_time t = t - t % 1000000

-- An address is ASCII.
unfoldable pub normalize_email : Text → Text
normalize_email email = map lower (trim_space email)

-- The first row that a WHERE clause selects.
unfoldable pub find {ℓ} : {A : Type ℓ} → (A → Bool) → List A → Option A
find p [] = none
find p (x ∷ xs) = if p x then some x else find p xs

-- UPDATE: the rows that a WHERE clause selects are changed.
unfoldable pub update {ℓ} : {A : Type ℓ} → (A → Bool) → (A → A) → List A → List A
update p f [] = []
update p f (x ∷ xs) = (if p x then f x else x) ∷ update p f xs

-- `affectedOrNotFound`, of the rows that were selected.
unfoldable pub affected_or_not_found {ℓ} : {A : Type ℓ} → (A → Bool) → List A → Option StoreError
affected_or_not_found p xs = elim (find p xs) [ none ↦ some not_found | some x ↦ none ]

abbrev pub attempt_key : Uuid → Text → Uuid × Text
attempt_key org email = (org, normalize_email email)

-- The row that `RecordFailedLogin` leaves: a new one, or the old one counted up and unlocked.
unfoldable pub counted : Uuid → ℕ → Option LoginAttempt → LoginAttempt
counted id now none = record {
  id = id;
  failed_count = 1;
  first_failed_at = now;
  last_failed_at = now;
  locked_until = none;
}
counted id now (some attempt) = record attempt {
  failed_count = attempt.failed_count + 1;
  last_failed_at = now;
  locked_until = none;
}

-- A row that is stale: its last failure is before `since`, and no lock reaches `now`.
unfoldable pub is_stale : ℕ → ℕ → LoginAttempt → Bool
is_stale since now attempt =
    ltb attempt.last_failed_at since
    && (elim attempt.locked_until [ none ↦ true | some until ↦ ltb until now ])

abbrev pub is_live : User → Bool
is_live user = elim user.deleted_at [ none ↦ true | some t ↦ false ]

abbrev pub is_user : Scope → Uuid → User → Bool
is_user scope id user = (user.id == id && user.org_id == scope.org_id) && is_live user

module _ (down : Outage) where
  unfoldable pub get_attempt : Db → Uuid → Text → Result StoreError LoginAttempt
  get_attempt db org email = elim (down get_login_attempt) [
    | some why ↦ err (failed why)
    | none ↦ elim (lookup (attempt_key org email) db.attempts) [
      | none ↦ err not_found
      | some attempt ↦ ok attempt
    ]
  ]

  -- `LockedUntil`: the end of the lock that is active at `now`.
  unfoldable pub locked_until : Db → Uuid → Text → ℕ → Result StoreError (Option ℕ)
  locked_until db org email now = elim (get_attempt db org email) [
    | err not_found ↦ ok none
    | err e ↦ err e
    | ok attempt ↦ elim attempt.locked_until [
      | none ↦ ok none
      | some until ↦ if ltb now until then ok (some until) else ok none
    ]
  ]

  unfoldable pub record_failed_login :
      Uuid → Db → Uuid → Text → ℕ → Db × Result StoreError LoginAttempt
  record_failed_login id db org email now = elim (down record_failed) [
    | some why ↦ (db, err (failed why))
    | none ↦
        let k = attempt_key org email in
        let attempt = counted id (new_time now) (lookup k db.attempts) in
        (record db { attempts = insert k attempt db.attempts }, ok attempt)
  ]

  unfoldable pub lock_login : Db → Uuid → Text → ℕ → Db × Option StoreError
  lock_login db org email until = elim (down set_login_lock) [
    | some why ↦ (db, some (failed why))
    | none ↦
        let k = attempt_key org email in
        elim (lookup k db.attempts) [
          | none ↦ (db, some not_found)
          | some attempt ↦ (
            record db {
              attempts =
                  insert k (record attempt { locked_until = some (new_time until) }) db.attempts;
            },
            none,
          )
        ]
  ]

  unfoldable pub clear_login_attempts : Db → Uuid → Text → Db × Option StoreError
  clear_login_attempts db org email = elim (down clear_attempts) [
    | some why ↦ (db, some (failed why))
    | none ↦ (record db { attempts = delete (attempt_key org email) db.attempts }, none)
  ]

  unfoldable pub sweep_login_attempts : Db → ℕ → ℕ → Db × Result StoreError ℕ
  sweep_login_attempts db now retain = elim (down delete_stale) [
    | some why ↦ (db, err (failed why))
    | none ↦
        let kept =
          keep_if (λ row. not (is_stale (new_time (now - retain)) (new_time now) row.1))
            db.attempts in
        (record db { attempts = kept }, ok (length db.attempts - length kept))
  ]

  unfoldable pub get_by_email : Db → Scope → Text → Result StoreError User
  get_by_email db scope email = elim (down get_user_by_email) [
    | some why ↦ err (failed why)
    | none ↦
        elim (find (λ user. (user.org_id == scope.org_id && user.email == email) && is_live user)
          db.users) [ none ↦ err not_found | some user ↦ ok user ]
  ]

  unfoldable pub get_by_id : Db → Scope → Uuid → Result StoreError User
  get_by_id db scope id = elim (down get_user) [
    | some why ↦ err (failed why)
    | none ↦ elim (find (is_user scope id) db.users) [ none ↦ err not_found | some user ↦ ok user ]
  ]

  unfoldable pub store_password : Db → Scope → Uuid → Text → ℕ → Db × Option StoreError
  store_password db scope id hash now = elim (down update_user_password) [
    | some why ↦ (db, some (failed why))
    | none ↦ (
      record db {
        users =
            update (is_user scope id)
              (λ user. record user {
                password_hash = some hash;
                updated_at = now;
                version = user.version + 1;
              })
              db.users;
      },
      affected_or_not_found (is_user scope id) db.users,
    )
  ]

  unfoldable pub record_login : Db → Scope → Uuid → ℕ → Db × Option StoreError
  record_login db scope id now = elim (down record_user_login) [
    | some why ↦ (db, some (failed why))
    | none ↦ (
      record db {
        users =
            update (is_user scope id) (λ user. record user { last_login_at = some now }) db.users;
      },
      affected_or_not_found (is_user scope id) db.users,
    )
  ]
