-- ===== src/Auth/Access.antt =====
-- internal/auth/service.go from Authenticate on: sessions resolved and ended, passwords changed, and
-- the sweep.
use pivot.Common.{
  ℕ, ◌+◌, Bool, true, not, ◌&&◌, Option, none, some, [], ◌∷◌, Text, text_eq, ltb, if◌then◌else◌,
  Result, ok, err,
}
use pivot.Tenant.{Uuid, Scope, new_scope}
use pivot.Auth.Store.{
  Db, Session, StoreError, not_found, sweep_login_attempts, get_by_id, store_password,
}
use pivot.Auth.SessionStore.{
  is_unrevoked, get_session_by_token_hash, touch_session, revoke_session, revoke_all_for_user,
  revoke_all_for_user_except, sweep_expired,
}
use pivot.Auth.Service.{
  AuthError, session_invalid, password_incorrect, store_error, Env, hash_password, verify_password,
  stored_hash,
}

pub record Authenticated : Type 0 where
  pub session : Session
  pub scope : Scope

-- `ExpiresAt.After(now)`, both expiries.
abbrev pub is_live_at : ℕ → Session → Bool
is_live_at now session =
    is_unrevoked session && (ltb now session.expires_at && ltb now session.absolute_expires_at)

-- The sliding of the idle expiry: refused where the session was revoked meanwhile.
unfoldable pub slide : Env → Db → Authenticated → Db × Result AuthError Authenticated
slide env db auth =
    if ltb (auth.session.last_seen_at + env.policy.touch_interval) env.now
    then (let touched : Db × Option StoreError =
          touch_session env.down db auth.session.id env.now (env.now + env.policy.idle_timeout) in
        elim touched.1 [
          | some not_found ↦ (touched.0, err session_invalid)
          | _ ↦ (touched.0, ok auth)
        ])
    else (db, ok auth)

unfoldable pub authenticate : Env → Db → Text → Db × Result AuthError Authenticated
authenticate env db [] = (db, err session_invalid)
authenticate env db (c ∷ token) =
    elim (get_session_by_token_hash env.down db (env.hash_token (c ∷ token))) [
      | err not_found ↦ (db, err session_invalid)
      | err e ↦ (db, err (store_error e))
      | ok session ↦
          if not (is_live_at env.now session)
          then (db, err session_invalid)
          else elim (new_scope session.org_id (record { uuid = session.user_id; valid = true })) [
            | err e ↦ (db, err session_invalid)
            | ok scope ↦ slide env db (record { session = session; scope = scope })
          ]
    ]

abbrev forgive : StoreError → Option AuthError
forgive not_found = none
forgive e = some (store_error e)

unfoldable pub logout : Env → Db → Text → Db × Option AuthError
logout env db token =
    let found : Db × Result AuthError Authenticated = authenticate env db token in
    elim found.1 [
      | err session_invalid ↦ (found.0, none)
      | err e ↦ (found.0, some e)
      | ok auth ↦
          let revoked : Db × Option StoreError =
            revoke_session env.down found.0 auth.scope auth.session.id env.store_now in
          (revoked.0, elim revoked.1 [ none ↦ none | some e ↦ forgive e ])
    ]

-- `SetPassword` and `ChangePassword`, in the scope that the context carries.
unfoldable pub set_password : Env → Db → Scope → Uuid → Text → Db × Option AuthError
set_password env db scope user password = elim (hash_password env password) [
  | err e ↦ (db, some e)
  | ok hash ↦
      let stored : Db × Option StoreError =
        store_password env.down db scope user hash env.store_now in
      elim stored.1 [
        | some e ↦ (stored.0, some (store_error e))
        | none ↦
            let revoked : Db × Result StoreError ℕ =
              revoke_all_for_user env.down stored.0 scope user env.store_now in
            (revoked.0, elim revoked.1 [ err e ↦ some (store_error e) | ok n ↦ none ])
      ]
]

unfoldable pub change_password :
    Env → Db → Scope → Uuid → Uuid → Text → Text → Db × Option AuthError
change_password env db scope user_id session_id current next =
    elim (get_by_id env.down db scope user_id) [
      | err e ↦ (db, some (store_error e))
      | ok user ↦ elim (stored_hash user) [
        | none ↦ (db, some password_incorrect)
        | some hash ↦ elim (verify_password env current hash) [
          | err e ↦ (db, some password_incorrect)
          | ok matches ↦
              if not matches then (db, some password_incorrect) else elim (hash_password env next) [
                | err e ↦ (db, some e)
                | ok new_hash ↦
                    let stored : Db × Option StoreError =
                      store_password env.down db scope user_id new_hash env.store_now in
                    elim stored.1 [
                      | some e ↦ (stored.0, some (store_error e))
                      | none ↦
                          let revoked : Db × Result StoreError ℕ =
                            revoke_all_for_user_except env.down stored.0 scope user_id session_id
                              env.store_now in
                          (revoked.0, elim revoked.1 [ err e ↦ some (store_error e) | ok n ↦ none ])
                    ]
              ]
        ]
      ]
    ]

unfoldable pub sweep : Env → Db → ℕ → Db × (ℕ × (ℕ × Option AuthError))
sweep env db retain =
    let swept : Db × Result StoreError ℕ = sweep_expired env.down db env.now retain in
    elim swept.1 [
      | err e ↦ (swept.0, (0, (0, some (store_error e))))
      | ok sessions ↦
          let pruned : Db × Result StoreError ℕ =
            sweep_login_attempts env.down swept.0 env.now retain in
          elim pruned.1 [
            | err e ↦ (pruned.0, (sessions, (0, some (store_error e))))
            | ok attempts ↦ (pruned.0, (sessions, (attempts, none)))
          ]
    ]
