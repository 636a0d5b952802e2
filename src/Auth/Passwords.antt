-- ===== src/Auth/Passwords.antt =====
-- ChangePassword and SetPassword of internal/auth/service.go: which sessions they end.
use pivot.Common.{ℕ, ◌≡◌, refl, false, ◌&&◌, none, some, Text, ◌==◌, nat_eq, arith}
use pivot.Tenant.{Uuid, Scope}
use pivot.Auth.Store.{Db, Session, update, store_password}
use pivot.Auth.SessionStore.{
  has_hash, is_of_user, is_other, revoke_at, revoke_all_for_user, revoke_all_for_user_except,
}
use pivot.Auth.Service.{Env}
use pivot.Auth.Access.{set_password, change_password}
use pivot.Auth.Sessions.{find-update, stands, row_of}

change_password_sessions :
    (env : Env) (db : Db) (scope : Scope) (user session : Uuid) (current next : Text)
    → (change_password env db scope user session current next).1 ≡ none
    → (change_password env db scope user session current next).0.sessions
      ≡ update (is_other scope user session) (revoke_at env.store_now) db.sessions
unfolding change_password store_password revoke_all_for_user_except
change_password_sessions env db scope user session current next h = ground arith

set_password_sessions :
    (env : Env) (db : Db) (scope : Scope) (user : Uuid) (password : Text)
    → (set_password env db scope user password).1 ≡ none
    → (set_password env db scope user password).0.sessions
      ≡ update (is_of_user scope user) (revoke_at env.store_now) db.sessions
unfolding set_password store_password revoke_all_for_user
set_password_sessions env db scope user password h = ground arith

-- After a person has changed their password, no session of theirs in the organization stands but
-- the one they changed it in, and that one stands as it did.
pub change_password_ends_others :
    (env : Env) (db : Db) (scope : Scope) (user session : Uuid) (current next hash : Text)
    (row : Session) (later : ℕ)
    → (change_password env db scope user session current next).1 ≡ none
    → row_of db hash ≡ some row
    → row.user_id ≡ user
    → row.org_id ≡ scope.org_id
    → stands later (row_of (change_password env db scope user session current next).0 hash)
      ≡ (row.id == session && stands later (some row))
unfolding row_of stands
change_password_ends_others env db scope user session current next hash row later done found of_user
      of_org =
    rw (change_password_sessions env db scope user session current next done) (
      ground (
        arith,
        find-update (has_hash hash) (is_other scope user session) (revoke_at env.store_now)
            db.sessions (λ x. refl),
        nat_eq.beq_iff row.user_id user,
        nat_eq.beq_iff row.org_id scope.org_id,
      ))

-- After a password was set for a person, no session of theirs in the organization stands.
pub set_password_ends_all :
    (env : Env) (db : Db) (scope : Scope) (user : Uuid) (password hash : Text) (row : Session)
    (later : ℕ)
    → (set_password env db scope user password).1 ≡ none
    → row_of db hash ≡ some row
    → row.user_id ≡ user
    → row.org_id ≡ scope.org_id
    → stands later (row_of (set_password env db scope user password).0 hash) ≡ false
unfolding row_of stands
set_password_ends_all env db scope user password hash row later done found of_user of_org =
    rw (set_password_sessions env db scope user password done) (
      ground (
        arith,
        find-update (has_hash hash) (is_of_user scope user) (revoke_at env.store_now) db.sessions
            (λ x. refl),
        nat_eq.beq_iff row.user_id user,
        nat_eq.beq_iff row.org_id scope.org_id,
      ))
