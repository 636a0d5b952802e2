-- ===== src/Auth/Refusal.antt =====
-- What a refused login of internal/auth/service.go answers and leaves behind.
use pivot.Common.{
  pair_eq, ℕ, suc, ◌+◌, ◌≤◌, ◌<◌, ◌≡◌, ◌≢◌, refl, sym, ap, ◌∙◌, inl, inr, Bool, true, false, not,
  ◌&&◌, Option, none, some, Text, ◌==◌, nat_eq, text_eq, ne→beq, ltb, lookup, insert,
  lookup-insert_self, if◌then◌else◌, Result, ok, err, Option-cases, Result-cases, arith,
}
use pivot.Tenant.{uuid_nil, Uuid, new_scope, new_system_scope}
use pivot.Auth.Store.{
  new_time, Db, User, LoginAttempt, StoreError, Outage, normalize_email, attempt_key, is_live, find,
  counted, get_login_attempt, record_failed, set_login_lock, get_user_by_email, get_attempt,
  locked_until, record_failed_login, lock_login, get_by_email,
}
use pivot.Auth.Service.{
  Env, Credentials, AuthError, LoginResult, store_error, account_locked, stored_hash,
  verify_password, lockout_window, record_failure, refuse, login_user, login,
}

-- The account that an address names in an organization.
unfoldable pub account : Db → Credentials → Option User
account db cred =
    find
      (λ user.
        (user.org_id == cred.org_id && user.email == normalize_email cred.email) && is_live user)
      db.users

-- The password is that of the account, and the account is active.
unfoldable pub is_proven : Env → Credentials → User → Bool
is_proven env cred user = elim (stored_hash user) [
  | none ↦ false
  | some hash ↦ elim (verify_password env cred.password hash) [
    | err e ↦ false
    | ok matches ↦ matches && user.is_active
  ]
]

unfoldable pub is_rejected : Env → Db → Credentials → Bool
is_rejected env db cred = elim (account db cred) [
  | none ↦ true
  | some user ↦ not (is_proven env cred user)
]

-- The failures on record for the address of a login.
unfoldable pub record_of : Db → Credentials → Option LoginAttempt
record_of db cred = lookup (attempt_key cred.org_id (normalize_email cred.email)) db.attempts

pub login_user_refuses :
    (env : Env) (db : Db) (cred : Credentials) (user : User)
    → is_proven env cred user ≡ false
    → login_user env db cred user ≡ refuse env db cred
unfolding login_user is_proven
login_user_refuses env db cred user h = elim (Option-cases (stored_hash user)) [
  | inl e ↦ ground arith
  | inr (hash, e) ↦ elim (Result-cases (verify_password env cred.password hash)) [
    | inl (true, v) ↦ ground arith
    | inl (false, v) ↦ ground arith
    | inr (x, v) ↦ ground arith
  ]
]

-- A login in an organization, on an address that is not locked, whose credentials are not those of
-- an active account, is refused as invalid, and a failure is recorded.
pub login_refuses :
    (env : Env) (db : Db) (cred : Credentials)
    → cred.org_id ≢ uuid_nil
    → env.down get_user_by_email ≡ none
    → locked_until env.down db cred.org_id (normalize_email cred.email) env.now ≡ ok none
    → is_rejected env db cred ≡ true
    → login env db cred ≡ refuse env db cred
unfolding login new_system_scope new_scope get_by_email account is_rejected
login_refuses env db cred org up unlocked h = elim (Option-cases (account db cred)) [
  | inl e ↦ ground (arith, ne→beq cred.org_id uuid_nil org)
  | inr (user, e) ↦
      ground (arith, ne→beq cred.org_id uuid_nil org, login_user_refuses env db cred user)
]

locked_until_attempts :
    (down : Outage) (a b : Db) (org : Uuid) (email : Text) (now : ℕ)
    → a.attempts ≡ b.attempts
    → locked_until down a org email now ≡ locked_until down b org email now
unfolding locked_until get_attempt
locked_until_attempts down a b org email now h = rw h refl

record_failure_attempts :
    (env : Env) (a b : Db) (org : Uuid) (email : Text)
    → a.attempts ≡ b.attempts
    → (record_failure env a org email).attempts ≡ (record_failure env b org email).attempts
unfolding record_failure record_failed_login lock_login
record_failure_attempts env a b org email h = ground arith

login_locked :
    (env : Env) (db : Db) (cred : Credentials) (until : ℕ)
    → locked_until env.down db cred.org_id (normalize_email cred.email) env.now ≡ ok (some until)
    → login env db cred ≡ (db, err account_locked)
unfolding login
login_locked env db cred until h = ground arith

login_failed :
    (env : Env) (db : Db) (cred : Credentials) (e : StoreError)
    → locked_until env.down db cred.org_id (normalize_email cred.email) env.now ≡ err e
    → login env db cred ≡ (db, err (store_error e))
unfolding login
login_failed env db cred e h = ground arith

login_shut :
    (env : Env) (a b : Db) (cred : Credentials) (out : Result AuthError LoginResult)
    → a.attempts ≡ b.attempts
    → (login env a cred ≡ (a, out))
    → (login env b cred ≡ (b, out))
    → ((login env a cred).1 ≡ (login env b cred).1)
      × ((login env a cred).0.attempts ≡ (login env b cred).0.attempts)
login_shut env a b cred out h p q = (
  ap (λ x. x.1) p ∙ sym (ap (λ x. x.1) q),
  ap (λ x. x.0.attempts) p ∙ (h ∙ sym (ap (λ x. x.0.attempts) q)),
)

-- Whatever the accounts are, a login that no account's credentials back answers the same and leaves
-- the same record of failures: an unknown address, an account without a password, a wrong password
-- and an inactive account cannot be told apart.
pub login_no_oracle :
    (env : Env) (a b : Db) (cred : Credentials)
    → a.attempts ≡ b.attempts
    → cred.org_id ≢ uuid_nil
    → env.down get_user_by_email ≡ none
    → is_rejected env a cred ≡ true
    → is_rejected env b cred ≡ true
    → ((login env a cred).1 ≡ (login env b cred).1)
      × ((login env a cred).0.attempts ≡ (login env b cred).0.attempts)
login_no_oracle env a b cred h org up ra rb =
    let email = normalize_email cred.email in
    let same = locked_until_attempts env.down a b cred.org_id email env.now h in
    elim (Result-cases (locked_until env.down a cred.org_id email env.now)) [
      | inl (none, e) ↦
          rw
            (
              login_refuses env a cred org up e ra,
              login_refuses env b cred org up (sym same ∙ e) rb,
            )
            (refl, record_failure_attempts env a b cred.org_id email h)
      | inl (some until, e) ↦
          login_shut env a b cred (err account_locked) h (login_locked env a cred until e)
            (login_locked env b cred until (sym same ∙ e))
      | inr (x, e) ↦
          login_shut env a b cred (err (store_error x)) h (login_failed env a cred x e)
            (login_failed env b cred x (sym same ∙ e))
    ]

-- The row of an address after a failure with both statements up.
lookup-record_failure :
    (env : Env) (db : Db) (org : Uuid) (email : Text) (attempt : LoginAttempt)
    → env.down record_failed ≡ none
    → env.down set_login_lock ≡ none
    → counted env.new_id (new_time env.now) (lookup (attempt_key org email) db.attempts) ≡ attempt
    → lookup (attempt_key org email) (record_failure env db org email).attempts
      ≡ some (
          if ltb attempt.failed_count env.policy.max_failed_attempts
          then attempt
          else record attempt {
            locked_until =
                some (new_time (env.now + lockout_window env.policy attempt.failed_count));
          })
unfolding record_failure record_failed_login lock_login
lookup-record_failure env db org email attempt up up' h =
    let k = attempt_key org email in
    let lock : LoginAttempt = record attempt {
      locked_until = some (new_time (env.now + lockout_window env.policy attempt.failed_count));
    } in
    ground (
      arith,
      lookup-insert_self k attempt db.attempts,
      lookup-insert_self k lock (insert k attempt db.attempts),
    )

-- The failures on record for an address, none if there is no row.
unfoldable pub failures : Option LoginAttempt → ℕ
failures none = 0
failures (some attempt) = attempt.failed_count

failures-counted :
    (id : Uuid) (now : ℕ) (old : Option LoginAttempt)
    → (counted id now old).failed_count ≡ suc (failures old)
unfolding counted failures
failures-counted id now none = refl
failures-counted id now (some attempt) = omega arith

record_failure_locks :
    (env : Env) (db : Db) (org : Uuid) (email : Text) (old : Option LoginAttempt)
    → env.down record_failed ≡ none
    → env.down set_login_lock ≡ none
    → lookup (attempt_key org email) db.attempts ≡ old
    → env.policy.max_failed_attempts ≤ suc (failures old)
    → lookup (attempt_key org email) (record_failure env db org email).attempts
      ≡ some (record (counted env.new_id (new_time env.now) old) {
        locked_until = some (new_time (env.now + lockout_window env.policy (suc (failures old))));
      })
record_failure_locks env db org email old up up' h max = ground (
  arith,
  lookup-record_failure env db org email (counted env.new_id (new_time env.now) old) up up',
  failures-counted env.new_id (new_time env.now) old,
)

-- A row whose lock reaches past `now` turns a login away.
locked_until_found :
    (down : Outage) (db : Db) (org : Uuid) (email : Text) (now until : ℕ) (attempt : LoginAttempt)
    → down get_login_attempt ≡ none
    → lookup (attempt_key org email) db.attempts ≡ some attempt
    → attempt.locked_until ≡ some until
    → now < until
    → locked_until down db org email now ≡ ok (some until)
unfolding locked_until get_attempt
locked_until_found down db org email now until attempt up row h soon = ground arith

-- Once as many failures are on record as the policy allows, with the statements up, the refusal of
-- one login locks the address: up to the end of the window, cut to the millisecond, every further
-- login under it, whatever its password and the spelling of the address, is turned away and changes
-- nothing.
pub login_locks :
    (env env' : Env) (db : Db) (cred cred' : Credentials)
    → env.down record_failed ≡ none
    → env.down set_login_lock ≡ none
    → env.down get_user_by_email ≡ none
    → env'.down get_login_attempt ≡ none
    → cred.org_id ≢ uuid_nil
    → locked_until env.down db cred.org_id (normalize_email cred.email) env.now ≡ ok none
    → is_rejected env db cred ≡ true
    → cred'.org_id ≡ cred.org_id
    → normalize_email cred'.email ≡ normalize_email cred.email
    → env.policy.max_failed_attempts ≤ suc (failures (record_of db cred))
    → env'.now < new_time (env.now + lockout_window env.policy (suc (failures (record_of db cred))))
    → login env' (login env db cred).0 cred' ≡ ((login env db cred).0, err account_locked)
unfolding record_of
login_locks env env' db cred cred' u1 u2 u3 u4 org unlocked r same_org same_email max soon =
    let email = normalize_email cred.email in
    let until =
      new_time (env.now + lockout_window env.policy (suc (failures (record_of db cred)))) in
    rw (login_refuses env db cred org u3 unlocked r) (
      login_locked env' (record_failure env db cred.org_id email) cred' until (
        rw (same_org, same_email)
          (locked_until_found env'.down (record_failure env db cred.org_id email) cred.org_id email
            env'.now until
            (record (counted env.new_id (new_time env.now) (record_of db cred)) {
              locked_until = some until;
            })
            u4 (record_failure_locks env db cred.org_id email (record_of db cred) u1 u2 refl max)
            refl soon)))
