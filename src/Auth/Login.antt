-- ===== src/Auth/Login.antt =====
-- A login of internal/auth/service.go that is accepted, and the session it opens.
use pivot.Common.{
  ℕ, ◌+◌, ◌<◌, ◌≡◌, ◌≢◌, refl, sym, ◌∙◌, Bool, true, false, ◌&&◌, none, some, List, [], ◌∷◌, Text,
  ◌==◌, beq→eq, beq_refl, ne→beq, nat_eq, text_eq, ok, arith,
}
use pivot.Tenant.{uuid_nil, Scope, new_scope, new_system_scope}
use pivot.Auth.Store.{
  new_time, Db, User, normalize_email, find, get_user_by_email, insert_session, get_session,
  locked_until, clear_login_attempts, get_by_email, record_login, is_live,
}
use pivot.Auth.SessionStore.{create_session}
use pivot.Auth.Service.{Env, Credentials, opened, start_session, login_user, login}
use pivot.Auth.Access.{Authenticated, authenticate}
use pivot.Auth.Refusal.{account, is_proven}
use pivot.Auth.Sessions.{stands, row_of, slide_ok, authenticate_standing}

find_holds {ℓ} : {A : Type ℓ} (p : A → Bool) (x : A) (xs : List A) → find p xs ≡ some x → p x ≡ true
unfolding find
find_holds p x [] h = cc
find_holds p x (y ∷ ys) h = ground (arith, find_holds p x ys)

record_login_sessions :
    (env : Env) (db : Db) (scope : Scope) (user : User)
    → (record_login env.down db scope user.id env.store_now).0.sessions ≡ db.sessions
unfolding record_login
record_login_sessions env db scope user = ground arith

clear_sessions :
    (env : Env) (db : Db) (cred : Credentials)
    → (clear_login_attempts env.down db cred.org_id (normalize_email cred.email)).0.sessions
      ≡ db.sessions
unfolding clear_login_attempts
clear_sessions env db cred = ground arith

start_session_opens :
    (env : Env) (db : Db) (user : User) (ip user_agent token : Text)
    → user.is_active ≡ true
    → user.org_id ≢ uuid_nil
    → env.new_token ≡ some token
    → env.down insert_session ≡ none
    → row_of db (env.hash_token token) ≡ none
    → ((start_session env db user ip user_agent).1
        ≡ ok (record { token = token; session = opened env user token ip user_agent; user = user }))
      × (row_of (start_session env db user ip user_agent).0 (env.hash_token token)
          ≡ some (opened env user token ip user_agent))
unfolding start_session new_system_scope new_scope create_session row_of find
start_session_opens env db user ip user_agent token active org fresh up free =
    let row = opened env user token ip user_agent in
    let created : Db = record db { sessions = row ∷ db.sessions } in
    ground (
      arith,
      ne→beq user.org_id uuid_nil org,
      beq_refl (env.hash_token token),
      record_login_sessions env created
          (record { org_id = user.org_id; actor_id = record { uuid = uuid_nil; valid = false } })
          user,
    )

account_org :
    (db : Db) (cred : Credentials) (user : User)
    → account db cred ≡ some user
    → user.org_id ≡ cred.org_id
unfolding account
account_org db cred user h =
    let holds =
      find_holds
        (λ user.
          (user.org_id == cred.org_id && user.email == normalize_email cred.email) && is_live user)
        user db.users h in
    beq→eq user.org_id cred.org_id (ground arith)

proven_active :
    (env : Env) (cred : Credentials) (user : User)
    → is_proven env cred user ≡ true
    → user.is_active ≡ true
unfolding is_proven
proven_active env cred user h = ground arith

login_starts :
    (env : Env) (db : Db) (cred : Credentials) (user : User)
    → cred.org_id ≢ uuid_nil
    → env.down get_user_by_email ≡ none
    → locked_until env.down db cred.org_id (normalize_email cred.email) env.now ≡ ok none
    → account db cred ≡ some user
    → is_proven env cred user ≡ true
    → login env db cred
      ≡ start_session env
          (clear_login_attempts env.down db cred.org_id (normalize_email cred.email)).0
          user
          cred.ip
          cred.user_agent
unfolding login login_user new_system_scope new_scope get_by_email account is_proven
login_starts env db cred user org up unlocked found h =
    ground (arith, ne→beq cred.org_id uuid_nil org)

abbrev pub scope_of : User → Scope
scope_of user = record { org_id = user.org_id; actor_id = record { uuid = user.id; valid = true } }

-- A login in an organization, on an address that is not locked, with the password of an active
-- account, opens a session, given the statements it needs and a token that is not empty and whose
-- hash is not taken; and up to either expiry, cut to the millisecond, the token is resolved to that
-- session and to the scope of the account.
pub authenticate-login :
    (env later : Env) (db : Db) (cred : Credentials) (user : User) (c : ℕ) (token : Text)
    → cred.org_id ≢ uuid_nil
    → env.down get_user_by_email ≡ none
    → env.down insert_session ≡ none
    → later.down get_session ≡ none
    → locked_until env.down db cred.org_id (normalize_email cred.email) env.now ≡ ok none
    → account db cred ≡ some user
    → is_proven env cred user ≡ true
    → env.new_token ≡ some (c ∷ token)
    → row_of db (env.hash_token (c ∷ token)) ≡ none
    → later.hash_token (c ∷ token) ≡ env.hash_token (c ∷ token)
    → later.now < new_time (env.start_now + env.policy.idle_timeout)
    → later.now < new_time (env.start_now + env.policy.absolute_timeout)
    → ((login env db cred).1
        ≡ ok (record {
          token = c ∷ token;
          session = opened env user (c ∷ token) cred.ip cred.user_agent;
          user = user;
        }))
      × ((authenticate later (login env db cred).0 (c ∷ token)).1
          ≡ ok (record {
            session = opened env user (c ∷ token) cred.ip cred.user_agent;
            scope = scope_of user;
          }))
unfolding row_of stands
authenticate-login env later db cred user c token org up up' up'' unlocked found proven fresh free
      same idle within =
    let cleared = (clear_login_attempts env.down db cred.org_id (normalize_email cred.email)).0 in
    let session = opened env user (c ∷ token) cred.ip cred.user_agent in
    let auth : Authenticated = record { session = session; scope = scope_of user } in
    let user_org : user.org_id ≢ uuid_nil = λ e. org (sym (account_org db cred user found) ∙ e) in
    let started =
      start_session_opens env cleared user cred.ip cred.user_agent (c ∷ token)
        (proven_active env cred user proven) user_org fresh up'
        (rw (clear_sessions env db cred) free) in
    let out = (start_session env cleared user cred.ip cred.user_agent).0 in
    let row : row_of out (later.hash_token (c ∷ token)) ≡ some session = rw same started.1 in
    rw (login_starts env db cred user org up unlocked found proven) (
      started.0,
      rw
          (authenticate_standing later out c token session up'' row
            (ground (arith, ne→beq user.org_id uuid_nil user_org)))
          (slide_ok later out auth (later.hash_token (c ∷ token)) row refl),
    )
