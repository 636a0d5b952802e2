-- ===== src/Setup/Locked.antt =====
-- A first run of internal/setup/setup.go that fails once its organization is stored.
use pivot.Common.{
  ◌≡◌, inl, inr, true, false, none, some, List, Text, trim_space, ok, Result-cases, arith,
}
use pivot.Tenant.{Uuid, Context, new_system_scope, with_scope}
use pivot.Setup.Slug.{slugify}
use pivot.Setup.{
  Organization, Db, count_organizations, insert_user, Request, Env, create_organization, status,
  count_people, insert_person, create_user, check_token, first_user, initialize,
}
use pivot.Setup.Claim.{
  is_claimed, is_ok, stored_organization, first_user_organizations, create_organization-is_claimed,
  claimed_stays, after_attempts, count_claims,
}

insert_person_fails :
    (env : Env) (ctx : Context) (db : Db) (email hash why : Text)
    → env.down insert_user ≡ some why
    → ((insert_person env ctx db email hash).0 ≡ db)
      × (is_ok (insert_person env ctx db email hash).1 ≡ false)
unfolding insert_person
insert_person_fails env ctx db email hash why h = ground arith

create_user_fails :
    (env : Env) (ctx : Context) (db : Db) (org : Uuid) (email hash why : Text)
    → env.down insert_user ≡ some why
    → ((create_user env ctx db org email hash).0 ≡ db)
      × (is_ok (create_user env ctx db org email hash).1 ≡ false)
unfolding create_user
create_user_fails env ctx db org email hash why h =
    let failed = insert_person_fails env ctx db email hash why h in
    elim (Result-cases (count_people env ctx db)) [
      | inr (e, p) ↦ ground arith
      | inl (n, p) ↦ elim (Result-cases (insert_person env ctx db email hash).1) [
        | inr (e, q) ↦ ground (arith, failed)
        | inl (user, q) ↦ ground (arith, failed)
      ]
    ]

first_user_fails :
    (env : Env) (db : Db) (request : Request) (hash why : Text) (org : Organization)
    → env.down insert_user ≡ some why
    → ((first_user env db request hash org).0 ≡ db)
      × (is_ok (first_user env db request hash org).1 ≡ false)
unfolding first_user
first_user_fails env db request hash why org h = elim (Result-cases (new_system_scope org.id)) [
  | inr (e, p) ↦ ground arith
  | inl (scope, p) ↦
      let ctx = with_scope (record { scope = none }) scope in
      let failed = create_user_fails env ctx db org.id request.email hash why h in
      elim (Result-cases (create_user env ctx db org.id request.email hash).1) [
        | inr (e, q) ↦ ground (arith, failed)
        | inl (made, q) ↦ ground (arith, failed)
      ]
]

initialize_reaches :
    (env : Env) (db : Db) (request : Request) (hash : Text) (org : Organization)
    → check_token env request.token ≡ none
    → env.down count_organizations ≡ none
    → is_claimed db ≡ false
    → env.hash_password request.password ≡ ok hash
    → (stored_organization env db request).1 ≡ ok org
    → initialize env db request
      ≡ first_user env (stored_organization env db request).0 request hash org
unfolding initialize status is_claimed
initialize_reaches env db request hash org t c u k o = ground arith

create_organization_keeps :
    (env : Env) (db : Db) (name slug : Text)
    → ((create_organization env db name slug).0.users ≡ db.users)
      × ((create_organization env db name slug).0.grants ≡ db.grants)
unfolding create_organization
create_organization_keeps env db name slug = ground arith

-- An attempt that passes the token, the count of organizations and the password on an unclaimed
-- instance, whose organization is
-- stored and whose user is not, fails, adds no user and no grant, and leaves an instance on which
-- no later attempt succeeds or changes anything, however many are made.
pub failed_setup_locks :
    (env : Env) (db : Db) (request : Request) (hash why : Text) (org : Organization)
    (tries : List (Env × Request))
    → check_token env request.token ≡ none
    → env.down count_organizations ≡ none
    → is_claimed db ≡ false
    → env.hash_password request.password ≡ ok hash
    → (stored_organization env db request).1 ≡ ok org
    → env.down insert_user ≡ some why
    → ((is_ok (initialize env db request).1 ≡ false)
        × (((initialize env db request).0.users ≡ db.users)
            × ((initialize env db request).0.grants ≡ db.grants)))
      × ((after_attempts (initialize env db request).0 tries ≡ (initialize env db request).0)
          × (count_claims (initialize env db request).0 tries ≡ 0))
unfolding is_claimed
failed_setup_locks env db request hash why org tries t c u k o h =
    let stored = stored_organization env db request in
    let reached = initialize_reaches env db request hash org t c u k o in
    let claimed : is_claimed (initialize env db request).0 ≡ true = ground (
      arith,
      reached,
      first_user_organizations env stored.0 request hash org,
      create_organization-is_claimed env db (trim_space request.organization)
          (slugify request.organization) org o,
    ) in
    let failed = first_user_fails env stored.0 request hash why org h in
    let kept =
      create_organization_keeps env db (trim_space request.organization)
        (slugify request.organization) in
    (
      ground (arith, reached, failed, kept),
      claimed_stays (initialize env db request).0 tries claimed,
    )
