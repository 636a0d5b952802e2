-- ===== src/Auth/Sessions.antt =====
-- The sessions of internal/auth/service.go: what ends one, and that use does not extend its cap.
use pivot.Common.{
  ℕ, ◌+◌, ◌≤◌, ◌≡◌, ◌⊎◌, refl, sym, inl, inr, Bool, true, false, not, ◌&&◌, Option, none, some,
  List, [], ◌∷◌, Text, ◌==◌, beq_refl, nat_eq, text_eq, ltb, if◌then◌else◌, ok, err, Bool-cases,
  Option-cases, arith,
}
use pivot.Tenant.{uuid_nil, Uuid, Scope, new_scope}
use pivot.Auth.Store.{
  new_time, Db, Session, not_found, get_session, touch, revoke, find, update, affected_or_not_found,
}
use pivot.Auth.SessionStore.{
  is_unrevoked, has_hash, is_touched, is_revoked_by, revoke_at, touch_at, get_session_by_token_hash,
  touch_session, revoke_session,
}
use pivot.Auth.Service.{Env, session_invalid}
use pivot.Auth.Access.{Authenticated, is_live_at, slide, authenticate, logout}

-- A change that the test does not see leaves the row that is found, changed where it is selected.
pub find-update :
    (p q : Session → Bool) (f : Session → Session) (xs : List Session)
    → ((x : Session) → p (f x) ≡ p x)
    → find p (update q f xs)
      ≡ (elim (find p xs) [ none ↦ none | some x ↦ some (if q x then f x else x) ])
unfolding find update
find-update p q f [] h = refl
find-update p q f (x ∷ xs) h = ground (arith, h x, find-update p q f xs h)

-- The row of a session that a token could still open at `now`.
unfoldable pub stands : ℕ → Option Session → Bool
stands now none = false
stands now (some session) = is_live_at now session && not (session.org_id == uuid_nil)

unfoldable pub row_of : Db → Text → Option Session
row_of db hash = find (has_hash hash) db.sessions

pub authenticate_fallen :
    (env : Env) (db : Db) (token : Text)
    → env.down get_session ≡ none
    → stands env.now (row_of db (env.hash_token token)) ≡ false
    → authenticate env db token ≡ (db, err session_invalid)
unfolding authenticate get_session_by_token_hash new_scope stands row_of
authenticate_fallen env db [] up h = refl
authenticate_fallen env db (c ∷ token) up h = ground arith

-- What is revoked or past its time stays so.
stands_later :
    (now later : ℕ) (row : Option Session)
    → now ≤ later
    → stands now row ≡ false
    → stands later row ≡ false
unfolding stands
stands_later now later none k h = refl
stands_later now later (some session) k h = ground arith

pub touch_row :
    (db : Db) (id : Uuid) (now expires : ℕ) (hash : Text)
    → find (has_hash hash) (update (is_touched id) (touch_at now expires) db.sessions)
      ≡ (elim (row_of db hash) [
        | none ↦ none
        | some x ↦ some (if is_touched id x then touch_at now expires x else x)
      ])
unfolding row_of
touch_row db id now expires hash =
    find-update (has_hash hash) (is_touched id) (touch_at now expires) db.sessions (λ x. refl)

revoke_row :
    (db : Db) (scope : Scope) (id : Uuid) (now : ℕ) (hash : Text)
    → find (has_hash hash) (update (is_revoked_by scope id) (revoke_at now) db.sessions)
      ≡ (elim (row_of db hash) [
        | none ↦ none
        | some x ↦ some (if is_revoked_by scope id x then revoke_at now x else x)
      ])
unfolding row_of
revoke_row db scope id now hash =
    find-update (has_hash hash) (is_revoked_by scope id) (revoke_at now) db.sessions (λ x. refl)

abbrev pub touched : Env → Db → Uuid → Db
touched env db id = record db {
  sessions =
      update (is_touched id)
        (touch_at (new_time env.now) (new_time (env.now + env.policy.idle_timeout))) db.sessions;
}

pub slide_store :
    (env : Env) (db : Db) (auth : Authenticated)
    → ((slide env db auth).0 ≡ db) ⊎ ((slide env db auth).0 ≡ touched env db auth.session.id)
unfolding slide touch_session
slide_store env db auth =
    elim (Bool-cases (ltb (auth.session.last_seen_at + env.policy.touch_interval) env.now)) [
      | inl late ↦ elim (Option-cases (env.down touch)) [
        | inl up ↦
            elim (Option-cases (affected_or_not_found (is_touched auth.session.id) db.sessions)) [
              | inl e ↦ ground arith
              | inr (not_found, e) ↦ ground arith
              | inr (x, e) ↦ ground arith
            ]
        | inr (why, e) ↦ ground arith
      ]
      | inr early ↦ ground arith
    ]

-- A session that authenticates is the one on record, and the record keeps it, at most slid.
slide_row :
    (env : Env) (db : Db) (auth : Authenticated) (hash : Text)
    → row_of db hash ≡ some auth.session
    → (row_of (slide env db auth).0 hash ≡ some auth.session)
      ⊎ (row_of (slide env db auth).0 hash
          ≡ some (
              touch_at
                (new_time env.now)
                (new_time (env.now + env.policy.idle_timeout))
                auth.session))
unfolding row_of
slide_row env db auth hash h = elim (slide_store env db auth) [
  | inl e ↦ inl (rw e h)
  | inr e ↦ elim (Bool-cases (is_touched auth.session.id auth.session)) [
    | inl t ↦ inr (
        rw e (
          ground (
            arith,
            touch_row db auth.session.id (new_time env.now)
                (new_time (env.now + env.policy.idle_timeout)) hash,
          )))
    | inr t ↦ inl (
        rw e (
          ground (
            arith,
            touch_row db auth.session.id (new_time env.now)
                (new_time (env.now + env.policy.idle_timeout)) hash,
          )))
  ]
]

-- What a token that stands is resolved to, but for the slide.
pub authenticate_standing :
    (env : Env) (db : Db) (c : ℕ) (token : Text) (session : Session)
    → env.down get_session ≡ none
    → row_of db (env.hash_token (c ∷ token)) ≡ some session
    → stands env.now (some session) ≡ true
    → authenticate env db (c ∷ token)
      ≡ slide env db (record {
        session = session;
        scope = record {
          org_id = session.org_id;
          actor_id = record { uuid = session.user_id; valid = true };
        };
      })
unfolding authenticate get_session_by_token_hash new_scope stands row_of
authenticate_standing env db c token session up row h = ground arith

-- A row that the statement of a revocation selects does not stand afterwards.
revoked_falls :
    (env : Env) (db : Db) (auth : Authenticated) (hash : Text) (session : Session) (later : ℕ)
    → env.down revoke ≡ none
    → row_of db hash ≡ some session
    → session.id ≡ auth.session.id
    → session.org_id ≡ auth.scope.org_id
    → stands later
        (row_of (revoke_session env.down db auth.scope auth.session.id env.store_now).0 hash)
      ≡ false
unfolding revoke_session stands row_of
revoked_falls env db auth hash session later up row same_id same_org = ground (
  arith,
  revoke_row db auth.scope auth.session.id env.store_now hash,
  beq_refl session.id,
  beq_refl session.org_id,
)

find_present :
    (p q : Session → Bool) (x : Session) (xs : List Session)
    → find p xs ≡ some x
    → q x ≡ true
    → affected_or_not_found q xs ≡ none
unfolding find affected_or_not_found
find_present p q x [] h t = cc
find_present p q x (y ∷ xs) h t = ground (arith, find_present p q x xs)

pub slide_ok :
    (env : Env) (db : Db) (auth : Authenticated) (hash : Text)
    → row_of db hash ≡ some auth.session
    → is_unrevoked auth.session ≡ true
    → (slide env db auth).1 ≡ ok auth
unfolding slide touch_session row_of
slide_ok env db auth hash row h = ground (
  arith,
  find_present (has_hash hash) (is_touched auth.session.id) auth.session db.sessions,
  beq_refl auth.session.id,
)

logout_ok :
    (env : Env) (db : Db) (token : Text) (auth : Authenticated)
    → (authenticate env db token).1 ≡ ok auth
    → (logout env db token).0
      ≡ (revoke_session env.down
          (authenticate env db token).0
          auth.scope
          auth.session.id
          env.store_now).0
unfolding logout
logout_ok env db token auth h = ground arith

logout_invalid :
    (env : Env) (db : Db) (token : Text)
    → authenticate env db token ≡ (db, err session_invalid)
    → (logout env db token).0 ≡ db
unfolding logout
logout_invalid env db token h = ground arith

logout_falls :
    (env : Env) (db : Db) (c : ℕ) (token : Text) (session : Session) (later : ℕ)
    → env.down get_session ≡ none
    → env.down revoke ≡ none
    → row_of db (env.hash_token (c ∷ token)) ≡ some session
    → stands env.now (some session) ≡ true
    → stands later (row_of (logout env db (c ∷ token)).0 (env.hash_token (c ∷ token))) ≡ false
unfolding stands
logout_falls env db c token session later up up' row h =
    let hash = env.hash_token (c ∷ token) in
    let auth : Authenticated = record {
      session = session;
      scope = record {
        org_id = session.org_id;
        actor_id = record { uuid = session.user_id; valid = true };
      };
    } in
    let resolved = authenticate_standing env db c token session up row h in
    rw
      (
        logout_ok env db (c ∷ token) auth
            (rw resolved (slide_ok env db auth hash row (ground arith))),
        resolved,
      )
      (elim (slide_row env db auth hash row) [
        | inl e ↦ revoked_falls env (slide env db auth).0 auth hash session later up' e refl refl
        | inr e ↦
            revoked_falls env (slide env db auth).0 auth hash
              (touch_at (new_time env.now) (new_time (env.now + env.policy.idle_timeout)) session)
              later up' e refl refl
      ])

authenticate_empty : (env : Env) (db : Db) → authenticate env db [] ≡ (db, err session_invalid)
unfolding authenticate
authenticate_empty env db = refl

stands-some :
    (now : ℕ) (row : Option Session) → stands now row ≡ true → (s : Session) × (row ≡ some s)
unfolding stands
stands-some now none h = cc
stands-some now (some s) h = (s, refl)

-- Whatever the token was before a logout, its row does not stand afterwards.
logout_row :
    (env : Env) (db : Db) (c : ℕ) (token : Text) (later : ℕ)
    → env.down get_session ≡ none
    → env.down revoke ≡ none
    → env.now ≤ later
    → stands later (row_of (logout env db (c ∷ token)).0 (env.hash_token (c ∷ token))) ≡ false
logout_row env db c token later up up' order =
    let row = row_of db (env.hash_token (c ∷ token)) in
    elim (Bool-cases (stands env.now row)) [
      | inl h ↦
          let (s, e) = stands-some env.now row h in
          logout_falls env db c token s later up up' e (rw (sym e) h)
      | inr h ↦
          rw (logout_invalid env db (c ∷ token) (authenticate_fallen env db (c ∷ token) up h))
            (stands_later env.now later row order h)
    ]

-- After a logout, with the statements that it and the next request send up, the token opens nothing
-- from then on, and a request with it changes nothing.
pub authenticate-logout :
    (env later : Env) (db : Db) (token : Text)
    → env.down get_session ≡ none
    → env.down revoke ≡ none
    → later.down get_session ≡ none
    → later.hash_token token ≡ env.hash_token token
    → env.now ≤ later.now
    → authenticate later (logout env db token).0 token
      ≡ ((logout env db token).0, err session_invalid)
authenticate-logout env later db [] up up' up'' same order =
    authenticate_empty later (logout env db []).0
authenticate-logout env later db (c ∷ token) up up' up'' same order =
    authenticate_fallen later (logout env db (c ∷ token)).0 (c ∷ token) up''
      (rw same (logout_row env db c token later.now up up' order))
