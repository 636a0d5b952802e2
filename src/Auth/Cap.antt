-- ===== src/Auth/Cap.antt =====
-- The absolute expiry of a session under any sequence of requests.
use pivot.Common.{
  ℕ, ◌+◌, ◌≤◌, ◌≡◌, ◌⊎◌, refl, ap, ◌∙◌, inl, inr, true, false, Option, none, some, List, [], ◌∷◌,
  Text, err, Result-cases, Bool-cases, arith,
}
use pivot.Tenant.{new_scope}
use pivot.Auth.Store.{new_time, Db, Session, get_session}
use pivot.Auth.SessionStore.{get_session_by_token_hash}
use pivot.Auth.Service.{Env, session_invalid}
use pivot.Auth.Access.{Authenticated, is_live_at, slide, authenticate}
use pivot.Auth.Sessions.{stands, row_of, authenticate_fallen, touched, touch_row, slide_store}

-- Requests in order, each with its surroundings and its token.
unfoldable pub requests : List (Env × Text) → Db → Db
requests [] db = db
requests ((env, token) ∷ more) db = requests more (authenticate env db token).0

authenticate_store :
    (env : Env) (db : Db) (token : Text)
    → ((authenticate env db token).0 ≡ db)
      ⊎ ((auth : Authenticated) × ((authenticate env db token).0 ≡ (slide env db auth).0))
unfolding authenticate
authenticate_store env db [] = inl refl
authenticate_store env db (c ∷ token) =
    elim (Result-cases (get_session_by_token_hash env.down db (env.hash_token (c ∷ token)))) [
      | inl (session, e) ↦ elim (Bool-cases (is_live_at env.now session)) [
        | inl live ↦
            elim (Result-cases
              (new_scope session.org_id (record { uuid = session.user_id; valid = true }))) [
                | inl (scope, s) ↦ inr (record { session = session; scope = scope }, ground arith)
                | inr (x, s) ↦ inl (ground arith)
              ]
        | inr dead ↦ inl (ground arith)
      ]
      | inr (x, e) ↦ inl (ground arith)
    ]

unfoldable pub cap_of : Option Session → Option ℕ
cap_of none = none
cap_of (some session) = some session.absolute_expires_at

touched_cap :
    (env : Env) (db : Db) (auth : Authenticated) (hash : Text)
    → cap_of (row_of (touched env db auth.session.id) hash) ≡ cap_of (row_of db hash)
unfolding cap_of row_of
touched_cap env db auth hash = ground (
  arith,
  touch_row db auth.session.id (new_time env.now) (new_time (env.now + env.policy.idle_timeout))
      hash,
)

slide_cap :
    (env : Env) (db : Db) (auth : Authenticated) (hash : Text)
    → cap_of (row_of (slide env db auth).0 hash) ≡ cap_of (row_of db hash)
slide_cap env db auth hash = elim (slide_store env db auth) [
  | inl e ↦ rw e refl
  | inr e ↦ rw e (touched_cap env db auth hash)
]

requests_cap :
    (rs : List (Env × Text)) (db : Db) (hash : Text)
    → cap_of (row_of (requests rs db) hash) ≡ cap_of (row_of db hash)
unfolding requests
requests_cap [] db hash = refl
requests_cap ((env, token) ∷ more) db hash =
    requests_cap more (authenticate env db token).0 hash ∙ (elim (authenticate_store env db token) [
      | inl e ↦ rw e refl
      | inr (auth, e) ↦ rw e (slide_cap env db auth hash)
    ])

cap_falls :
    (now cap : ℕ) (row : Option Session)
    → cap_of row ≡ some cap
    → cap ≤ now
    → stands now row ≡ false
unfolding cap_of stands
cap_falls now cap none h k = refl
cap_falls now cap (some session) h k = ground arith

-- However a session is used, with this token or others and at any times, it is refused from its
-- absolute expiry on: no sequence of requests extends it.
pub authenticate_capped :
    (rs : List (Env × Text)) (db : Db) (env : Env) (token : Text) (session : Session)
    → env.down get_session ≡ none
    → row_of db (env.hash_token token) ≡ some session
    → session.absolute_expires_at ≤ env.now
    → authenticate env (requests rs db) token ≡ (requests rs db, err session_invalid)
unfolding cap_of
authenticate_capped rs db env token session up row late =
    authenticate_fallen env (requests rs db) token up (
      cap_falls env.now session.absolute_expires_at (row_of (requests rs db) (env.hash_token token))
        (requests_cap rs db (env.hash_token token) ∙ ap cap_of row) late)
