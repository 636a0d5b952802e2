-- ===== src/Auth/SessionStore.antt =====
-- internal/store/repo/sessions.go: the statements on the rows of sessions that authentication runs.
use pivot.Common.{
  ℕ, ◌-◌, Bool, true, false, not, ◌&&◌, ◌||◌, Option, none, some, ◌∷◌, Text, ◌==◌, nat_eq, text_eq,
  ltb, keep_if, length, Result, ok, err,
}
use pivot.Tenant.{Uuid, Scope}
use pivot.Auth.Store.{
  new_time, Db, Session, StoreError, not_found, duplicate, failed, Outage, insert_session,
  get_session, touch, revoke, revoke_user, revoke_others, delete_expired, find, update,
  affected_or_not_found,
}

abbrev pub is_unrevoked : Session → Bool
is_unrevoked session = elim session.revoked_at [ none ↦ true | some t ↦ false ]

-- The WHERE clauses.
abbrev pub has_hash : Text → Session → Bool
has_hash hash session = session.token_hash == hash

abbrev pub is_touched : Uuid → Session → Bool
is_touched id session = session.id == id && is_unrevoked session

abbrev pub is_revoked_by : Scope → Uuid → Session → Bool
is_revoked_by scope id session =
    (session.id == id && session.org_id == scope.org_id) && is_unrevoked session

abbrev pub is_of_user : Scope → Uuid → Session → Bool
is_of_user scope user session =
    (session.user_id == user && session.org_id == scope.org_id) && is_unrevoked session

abbrev pub is_other : Scope → Uuid → Uuid → Session → Bool
is_other scope user keep session =
    (session.user_id == user && session.org_id == scope.org_id)
    && (not (session.id == keep) && is_unrevoked session)

abbrev pub revoke_at : ℕ → Session → Session
revoke_at now session = record session { revoked_at = some now }

abbrev pub touch_at : ℕ → ℕ → Session → Session
touch_at now expires session = record session { last_seen_at = now; expires_at = expires }

-- Past its cap, or revoked before `since`.
unfoldable pub is_expired : ℕ → ℕ → Session → Bool
is_expired now since session =
    ltb session.absolute_expires_at now
    || (elim session.revoked_at [ none ↦ false | some t ↦ ltb t since ])

module _ (down : Outage) where
  -- A row is inserted where the unique index on the token's hash lets it.
  unfoldable pub create_session : Db → Session → Db × Result StoreError Session
  create_session db session = elim (down insert_session) [
    | some why ↦ (db, err (failed why))
    | none ↦ elim (find (has_hash session.token_hash) db.sessions) [
      | some taken ↦ (db, err duplicate)
      | none ↦ (record db { sessions = session ∷ db.sessions }, ok session)
    ]
  ]

  unfoldable pub get_session_by_token_hash : Db → Text → Result StoreError Session
  get_session_by_token_hash db hash = elim (down get_session) [
    | some why ↦ err (failed why)
    | none ↦ elim (find (has_hash hash) db.sessions) [
      | none ↦ err not_found
      | some session ↦ ok session
    ]
  ]

  unfoldable pub touch_session : Db → Uuid → ℕ → ℕ → Db × Option StoreError
  touch_session db id now expires = elim (down touch) [
    | some why ↦ (db, some (failed why))
    | none ↦ (
      record db {
        sessions = update (is_touched id) (touch_at (new_time now) (new_time expires)) db.sessions;
      },
      affected_or_not_found (is_touched id) db.sessions,
    )
  ]

  -- `Revoke`, at the repository's clock.
  unfoldable pub revoke_session : Db → Scope → Uuid → ℕ → Db × Option StoreError
  revoke_session db scope id now = elim (down revoke) [
    | some why ↦ (db, some (failed why))
    | none ↦ (
      record db { sessions = update (is_revoked_by scope id) (revoke_at now) db.sessions },
      affected_or_not_found (is_revoked_by scope id) db.sessions,
    )
  ]

  unfoldable pub revoke_all_for_user : Db → Scope → Uuid → ℕ → Db × Result StoreError ℕ
  revoke_all_for_user db scope user now = elim (down revoke_user) [
    | some why ↦ (db, err (failed why))
    | none ↦ (
      record db { sessions = update (is_of_user scope user) (revoke_at now) db.sessions },
      ok (length (keep_if (is_of_user scope user) db.sessions)),
    )
  ]

  unfoldable pub revoke_all_for_user_except :
      Db → Scope → Uuid → Uuid → ℕ → Db × Result StoreError ℕ
  revoke_all_for_user_except db scope user keep now = elim (down revoke_others) [
    | some why ↦ (db, err (failed why))
    | none ↦ (
      record db { sessions = update (is_other scope user keep) (revoke_at now) db.sessions },
      ok (length (keep_if (is_other scope user keep) db.sessions)),
    )
  ]

  unfoldable pub sweep_expired : Db → ℕ → ℕ → Db × Result StoreError ℕ
  sweep_expired db now retain = elim (down delete_expired) [
    | some why ↦ (db, err (failed why))
    | none ↦
        let kept =
          keep_if (λ session. not (is_expired (new_time now) (new_time (now - retain)) session))
            db.sessions in
        (record db { sessions = kept }, ok (length db.sessions - length kept))
  ]
