-- ===== src/Setup/Admin.antt =====
-- Who becomes an administrator in internal/setup/setup.go.
use pivot.Common.{
  ℕ, ◌≡◌, refl, sym, ap, ◌∙◌, inl, inr, Bool, false, not, none, [], Text, text_eq, ◌⊎◌, length, ltb,
  trim_space, if◌then◌else◌, Result, ok, Option-cases, Result-cases, arith,
}
use pivot.Tenant.{
  Uuid, Scope, Context, new_scope, is_valid, new_system_scope, with_scope, from_context,
}
use pivot.Authz.Model.{is_empty}
use pivot.Auth.Store.{User}
use pivot.Setup.Slug.{slugify}
use pivot.Setup.{
  Organization, GrantRole, Db, count_users, SetupError, Request, Created, Env, add_grant, people_of,
  admin_grant, create_organization, count_people, insert_person, grant_user, create_user,
  check_token, first_user, initialize,
}
use pivot.Setup.Claim.{is_claimed, insert_person_organizations, stored_organization, claim_steps}

grant_user_ok :
    (env : Env) (ctx : Context) (scope : Scope) (db : Db) (g : GrantRole)
    → from_context ctx ≡ ok scope
    → (grant_user env ctx db g).1 ≡ none
    → (grant_user env ctx db g).0.grants ≡ add_grant scope.org_id g db.grants
unfolding grant_user
grant_user_ok env ctx scope db g c h = ground arith

count_people_ok :
    (env : Env) (ctx : Context) (scope : Scope) (db : Db) (n : ℕ)
    → from_context ctx ≡ ok scope
    → count_people env ctx db ≡ ok n
    → n ≡ length (people_of scope.org_id db)
unfolding count_people
count_people_ok env ctx scope db n c h = elim (Option-cases (env.down count_users)) [
  | inr (why, q) ↦ ground arith
  | inl q ↦ ground arith
]

-- A new account gets a role exactly when it is the first of its organization: then it becomes the
-- administrator, and otherwise no grant is stored. The organization is that of the context.
pub create_user_admin :
    (env : Env) (ctx : Context) (scope : Scope) (db : Db) (org : Uuid) (email hash : Text)
    (user : User) (granted : Bool)
    → from_context ctx ≡ ok scope
    → (create_user env ctx db org email hash).1 ≡ ok (user, granted)
    → (granted ≡ not (ltb 0 (length (people_of scope.org_id db))))
      × ((create_user env ctx db org email hash).0.grants ≡ (
          if granted
          then add_grant scope.org_id (admin_grant user.id org) db.grants
          else db.grants))
unfolding create_user
create_user_admin env ctx scope db org email hash user granted c h =
    let inserted = insert_person env ctx db email hash in
    elim (Result-cases (count_people env ctx db)) [
      | inr (e, p) ↦ ground arith
      | inl (n, p) ↦ elim (Result-cases inserted.1) [
        | inr (e, q) ↦ ground arith
        | inl (made, q) ↦ ground (
          arith,
          count_people_ok env ctx scope db n c p,
          insert_person_organizations env ctx db email hash,
          grant_user_ok env ctx scope inserted.0 (admin_grant made.id org) c,
        )
      ]
    ]

system_context :
    (org : Uuid) (scope : Scope)
    → new_system_scope org ≡ ok scope
    → (scope.org_id ≡ org) × (from_context (with_scope (record { scope = none }) scope) ≡ ok scope)
unfolding new_system_scope new_scope from_context with_scope is_valid
system_context org scope h = ground arith

first_user_admin :
    (env : Env) (db : Db) (request : Request) (hash : Text) (org : Organization) (r : Created)
    → people_of org.id db ≡ []
    → (first_user env db request hash org).1 ≡ ok r
    → (r.org_id ≡ org.id)
      × ((first_user env db request hash org).0.grants
          ≡ add_grant org.id (admin_grant r.user_id org.id) db.grants)
unfolding first_user
first_user_admin env db request hash org r nobody h =
    elim (Result-cases (new_system_scope org.id)) [
      | inr (e, p) ↦ ground arith
      | inl (scope, p) ↦
          let ctx = with_scope (record { scope = none }) scope in
          let sys = system_context org.id scope p in
          elim (Result-cases (create_user env ctx db org.id request.email hash).1) [
            | inr (e, q) ↦ ground arith
            | inl ((user, granted), q) ↦ ground (
              arith,
              sys,
              nobody,
              create_user_admin env ctx scope db org.id request.email hash user granted sys.1 q,
            )
          ]
    ]

create_organization_rows :
    (env : Env) (db : Db) (name slug : Text) (org : Organization)
    → (create_organization env db name slug).1 ≡ ok org
    → (org.id ≡ db.fresh)
      × (((create_organization env db name slug).0.users ≡ db.users)
          × ((create_organization env db name slug).0.grants ≡ db.grants))
unfolding create_organization
create_organization_rows env db name slug org h = ground arith

token_presented :
    (env : Env) (presented : Text)
    → check_token env presented ≡ none
    → (env.token ≡ []) ⊎ (presented ≡ env.token)
unfolding check_token is_empty
token_presented env presented h =
    ground (arith, text_eq.beq_iff env.token [], text_eq.beq_iff presented env.token)

-- A claim that succeeds had the token of the instance, where it has one, and found the instance
-- unclaimed. The account it made becomes the administrator of its organization, and no other grant
-- is stored. Nobody belongs yet to the id that the new organization takes.
pub initialize_admin :
    (env : Env) (db : Db) (request : Request) (r : Created)
    → people_of db.fresh db ≡ []
    → (initialize env db request).1 ≡ ok r
    → ((env.token ≡ []) ⊎ (request.token ≡ env.token))
      × ((is_claimed db ≡ false)
          × ((initialize env db request).0.grants
              ≡ add_grant r.org_id (admin_grant r.user_id r.org_id) db.grants))
initialize_admin env db request r nobody h =
    let steps = claim_steps env db request r h in
    let hash = steps.0 in
    let org = steps.1.0 in
    let stored = stored_organization env db request in
    let rows =
      create_organization_rows env db (trim_space request.organization)
        (slugify request.organization) org steps.1.1.1.1.1.0 in
    let reached = steps.1.1.1.1.1.1 in
    let admin =
      first_user_admin env stored.0 request hash org r (rw (rows.0, rows.1.0) nobody)
        (sym (ap (λ (p : Db × Result SetupError Created). p.1) reached) ∙ h) in
    (
      token_presented env request.token steps.1.1.0,
      (steps.1.1.1.0, rw (reached, admin.1, admin.0, rows.1.1) refl),
    )
