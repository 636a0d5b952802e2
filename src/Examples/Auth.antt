-- ===== src/Examples/Auth.antt =====
-- internal/auth at one account. A hash stands in for itself, and so does a token's hash.
use pivot.Common.{
  pair_beq, lower, is_space, trim_left, trim_right, trim_space, ℕ, ◌-◌, ◌*◌, ◌^◌, min, ◌≡◌, refl,
  ◌&&◌, ◌==◌, nat_eq, true, none, some, List, [], ◌∷◌, Text, codes, lookup, insert, delete,
  text_beq, ok, err, arith,
}
use pivot.Auth.Store.{
  new_time, Db, User, Session, LoginAttempt, Outage, normalize_email, find, update, get_attempt,
  locked_until, counted, get_by_id, store_password, affected_or_not_found,
}
use pivot.Auth.Service.{
  Policy, Argon, Env, Credentials, account_locked, session_invalid, stored_hash, verify_password,
  lockout_window, login, opened, hash_password,
}
use pivot.Auth.Access.{authenticate, logout, change_password}
use pivot.Auth.Lockout.{lockout_window_exact}
use pivot.Auth.Refusal.{
  account, is_proven, is_rejected, record_of, failures, login_no_oracle, login_locks,
}
use pivot.Auth.Sessions.{row_of, authenticate-logout, stands}
use pivot.Auth.Cap.{requests, authenticate_capped}
use pivot.Auth.Passwords.{change_password_ends_others}
use pivot.Auth.SessionStore.{revoke_all_for_user_except}
use pivot.Auth.Login.{scope_of, authenticate-login}

abbrev policy : Policy
policy = record {
  idle_timeout = 100000000;
  absolute_timeout = 1000000000;
  max_failed_attempts = 2;
  lockout_duration = 10000000;
  max_lockout_duration = 60000000;
  touch_interval = 5000000;
}

abbrev plain : Argon
plain = record {
  Params = Unit;
  decode_hash = λ hash. some (tt, hash);
  id_key = λ password params. password;
  encode_hash = λ salt password. password;
}

abbrev all_up : Outage
all_up call = none

-- The clocks are at a number of milliseconds.
abbrev env_at : ℕ → Env
env_at ms = record {
  policy = policy;
  argon = plain;
  hash_token = λ token. token;
  now = ms * 1000000;
  start_now = ms * 1000000;
  store_now = ms * 1000000;
  down = all_up;
  new_token = some (codes "t1");
  new_salt = some (codes "salt");
  new_id = 9;
}

abbrev ada : User
ada = record {
  id = 7;
  org_id = 1;
  email = codes "ada";
  password_hash = some (codes "horse");
  is_active = true;
  last_login_at = none;
  updated_at = 0;
  version = 1;
  deleted_at = none;
}

abbrev one_failure : List ((ℕ × Text) × LoginAttempt)
one_failure =
    (
      (1, codes "ada"),
      record {
        id = 3;
        failed_count = 1;
        first_failed_at = 40000000;
        last_failed_at = 40000000;
        locked_until = none;
      },
    )
    ∷ []

abbrev with_ada : Db
with_ada = record { attempts = one_failure; users = ada ∷ []; sessions = [] }

abbrev without_ada : Db
without_ada = record { attempts = one_failure; users = []; sessions = [] }

abbrev typed : Text → Text → Credentials
typed email password = record {
  org_id = 1;
  email = email;
  password = password;
  ip = codes "::1";
  user_agent = [];
}

program : Unit {0}
unfolding new_time normalize_email trim_space lower is_space trim_left trim_right find update
    pair_beq text_beq get_attempt locked_until counted lookup insert delete account is_proven
    is_rejected record_of failures stored_hash verify_password row_of lockout_window
program = tt

lockout_window_exact_example : lockout_window policy 4 ≡ min 60000000 (10000000 * 2 ^ (4 - 2))
lockout_window_exact_example = lockout_window_exact policy 4 (omega arith) (omega arith)

login_no_oracle_example :
    ((login (env_at 50) with_ada (typed (codes "ada") (codes "cow"))).1
      ≡ (login (env_at 50) without_ada (typed (codes "ada") (codes "cow"))).1)
    × ((login (env_at 50) with_ada (typed (codes "ada") (codes "cow"))).0.attempts
        ≡ (login (env_at 50) without_ada (typed (codes "ada") (codes "cow"))).0.attempts)
unfolding program
login_no_oracle_example =
    login_no_oracle (env_at 50) with_ada without_ada (typed (codes "ada") (codes "cow")) refl
      (ground arith) refl refl refl

login_locks_example :
    login
      (env_at 55)
      (login (env_at 50) with_ada (typed (codes "ada") (codes "cow"))).0
      (typed (codes " ADA ") (codes "horse"))
    ≡ ((login (env_at 50) with_ada (typed (codes "ada") (codes "cow"))).0, err account_locked)
unfolding program
login_locks_example =
    login_locks (env_at 50) (env_at 55) with_ada (typed (codes "ada") (codes "cow"))
      (typed (codes " ADA ") (codes "horse")) refl refl refl refl (ground arith) refl refl refl refl
      (omega arith) (ground (arith, lockout_window_exact policy 2 (omega arith) (omega arith)))

abbrev opened_at_50 : Session
opened_at_50 = opened (env_at 50) ada (codes "t1") (codes "::1") []

abbrev signed_in : Db
signed_in = record { attempts = []; users = ada ∷ []; sessions = opened_at_50 ∷ [] }

authenticate-login_example :
    ((login (env_at 50) with_ada (typed (codes "ada") (codes "horse"))).1
      ≡ ok (record { token = codes "t1"; session = opened_at_50; user = ada }))
    × ((authenticate
          (env_at 60)
          (login (env_at 50) with_ada (typed (codes "ada") (codes "horse"))).0
          (codes "t1")).1
        ≡ ok (record { session = opened_at_50; scope = scope_of ada }))
unfolding program
authenticate-login_example =
    authenticate-login (env_at 50) (env_at 60) with_ada (typed (codes "ada") (codes "horse")) ada
      116 (49 ∷ []) (ground arith) refl refl refl refl refl refl refl refl refl (omega arith)
      (omega arith)

authenticate-logout_example :
    authenticate (env_at 70) (logout (env_at 60) signed_in (codes "t1")).0 (codes "t1")
    ≡ ((logout (env_at 60) signed_in (codes "t1")).0, err session_invalid)
authenticate-logout_example =
    authenticate-logout (env_at 60) (env_at 70) signed_in (codes "t1") refl refl refl refl
      (omega arith)

authenticate_capped_example :
    authenticate (env_at 1050) (requests ((env_at 80, codes "t1") ∷ []) signed_in) (codes "t1")
    ≡ (requests ((env_at 80, codes "t1") ∷ []) signed_in, err session_invalid)
unfolding program
authenticate_capped_example =
    authenticate_capped ((env_at 80, codes "t1") ∷ []) signed_in (env_at 1050) (codes "t1")
      opened_at_50 refl refl (omega arith)

change_password_ends_others_example :
    stands 70000000 (
      row_of
        (change_password
          (env_at 60)
          signed_in
          (scope_of ada)
          7
          8
          (codes "horse")
          (codes "battery staple")).0
        (codes "t1"))
    ≡ (opened_at_50.id == 8 && stands 70000000 (some opened_at_50))
unfolding program change_password get_by_id store_password revoke_all_for_user_except hash_password
    affected_or_not_found
change_password_ends_others_example =
    change_password_ends_others (env_at 60) signed_in (scope_of ada) 7 8 (codes "horse")
      (codes "battery staple") (codes "t1") opened_at_50 70000000 refl refl refl refl
