-- ===== src/Setup.antt =====
-- internal/setup/setup.go, with the statements of internal/store/repo that it sends: the claim of a
-- new instance, and who becomes its administrator. The mutex makes `Initialize` one step. The
-- package uuid gives ids that are counted up, and a name is ASCII.
pub mod Slug
pub mod Claim
pub mod Locked
pub mod Admin
use pivot.Common.{
  ℕ, suc, ◌+◌, Bool, true, false, not, ◌&&◌, Option, none, some, List, [], ◌∷◌, ◌++◌, Text, length,
  ltb, trim_space, nat_eq, text_eq, ◌==◌, contains, keep_if, pair_eq, if◌then◌else◌, Result, ok,
  err, ◌>>=◌,
}
use pivot.Tenant.{Uuid, Scope, ScopeError, Context, new_system_scope, with_scope, from_context}
use pivot.Authz.Model.{is_empty, subject_user, relation_admin, type_organization}
use pivot.Auth.Store.{User, StoreError, not_found, duplicate, failed, find, is_live, is_user}
use pivot.Auth.Service.{AuthError}
use pivot.Setup.Slug.{slugify}

pub record Organization : Type 0 where
  pub id : Uuid
  pub name : Text
  pub slug : Text
  pub deleted : Bool

-- What a row of role_assignments says: the subject holds the relation on the object.
pub record GrantRole : Type 0 where
  pub subject_type : Text
  pub subject_id : Uuid
  pub subject_relation : Text
  pub relation : Text
  pub object_type : Text
  pub object_id : Uuid

pub record Db : Type 0 where
  pub organizations : List Organization
  pub users : List User
  pub grants : List (Uuid × GrantRole)
  pub fresh : Uuid

pub data Call : Type 0 where
  count_organizations insert_organization count_users insert_user get_user insert_grant : Call

abbrev pub Outage : Type 0
Outage = Call → Option Text

pub data SetupError : Type 0 where
  already_initialized token_required token_invalid : SetupError
  password_refused : AuthError → SetupError
  no_scope_given : ScopeError → SetupError
  store_failed : StoreError → SetupError

pub record Request : Type 0 where
  pub organization : Text
  pub name : Text
  pub email : Text
  pub password : Text
  pub token : Text

pub record Created : Type 0 where
  pub org_id : Uuid
  pub org_slug : Text
  pub user_id : Uuid
  pub email : Text

-- `HashPassword` with its random source, the token of the instance, and what fails.
pub record Env : Type 0 where
  pub token : Text
  pub hash_password : Text → Result AuthError Text
  pub now : ℕ
  pub down : Outage

abbrev live_organization : Organization → Bool
live_organization org = not org.deleted

-- The index on the slug of the organizations that are not deleted.
abbrev slug_taken : Text → Organization → Bool
slug_taken slug org = live_organization org && (org.slug == slug)

-- The index on the address of the people of an organization that are not deleted.
abbrev email_taken : Uuid → Text → User → Bool
email_taken org email user = is_live user && (user.org_id == org && (user.email == email))

abbrev grant_beq : GrantRole → GrantRole → Bool
grant_beq g h =
    (g.subject_type == h.subject_type
      && (g.subject_id == h.subject_id && (g.subject_relation == h.subject_relation)))
    && (g.relation == h.relation
        && (g.object_type == h.object_type && (g.object_id == h.object_id)))

-- ON CONFLICT DO NOTHING.
unfoldable pub add_grant : Uuid → GrantRole → List (Uuid × GrantRole) → List (Uuid × GrantRole)
add_grant org g [] = (org, g) ∷ []
add_grant org g ((owner, h) ∷ grants) =
    if owner == org && grant_beq h g
    then (owner, h) ∷ grants
    else (owner, h) ∷ add_grant org g grants

unfoldable pub created_user : Uuid → ℕ → Uuid → Text → Text → User
created_user id now org email password_hash = record {
  id = id;
  org_id = org;
  email = email;
  password_hash = if is_empty password_hash then none else some password_hash;
  is_active = true;
  last_login_at = none;
  updated_at = now;
  version = 1;
  deleted_at = none;
}

-- The rows that a count counts.
abbrev pub people_of : Uuid → Db → List User
people_of org db = keep_if (λ user. is_live user && (user.org_id == org)) db.users

abbrev pub live_organizations : Db → List Organization
live_organizations db = keep_if live_organization db.organizations

-- The role of the first user.
abbrev pub admin_grant : Uuid → Uuid → GrantRole
admin_grant user_id org_id = record {
  subject_type = subject_user;
  subject_id = user_id;
  subject_relation = [];
  relation = relation_admin;
  object_type = type_organization;
  object_id = org_id;
}

abbrev answer {ℓ} : {A : Type ℓ} → Option Text → A → Result SetupError A
answer none a = ok a
answer (some why) a = err (store_failed (failed why))

module _ (env : Env) where
  unfoldable pub create_organization : Db → Text → Text → Db × Result SetupError Organization
  create_organization db name slug = elim (env.down insert_organization) [
    | some why ↦ (db, err (store_failed (failed why)))
    | none ↦
        if ltb 0 (length (keep_if (slug_taken slug) db.organizations))
        then (db, err (store_failed duplicate))
        else (let org : Organization = record {
          id = db.fresh;
          name = name;
          slug = slug;
          deleted = false;
        } in
            (
              record db { organizations = db.organizations ++ (org ∷ []); fresh = suc db.fresh },
              ok org,
            ))
  ]

  unfoldable pub status : Db → Result SetupError Bool
  status db = answer (env.down count_organizations) (ltb 0 (length (live_organizations db)))

  -- `UserRepo.Count` and `UserRepo.Create`, in the organization of the context.
  unfoldable pub count_people : Context → Db → Result SetupError ℕ
  count_people ctx db = elim (from_context ctx) [
    | err e ↦ err (no_scope_given e)
    | ok scope ↦ answer (env.down count_users) (length (people_of scope.org_id db))
  ]

  unfoldable pub insert_person : Context → Db → Text → Text → Db × Result SetupError User
  insert_person ctx db email password_hash = elim (from_context ctx) [
    | err e ↦ (db, err (no_scope_given e))
    | ok scope ↦ elim (env.down insert_user) [
      | some why ↦ (db, err (store_failed (failed why)))
      | none ↦
          if ltb 0 (length (keep_if (email_taken scope.org_id email) db.users))
          then (db, err (store_failed duplicate))
          else (let user = created_user db.fresh env.now scope.org_id email password_hash in
              (record db { users = db.users ++ (user ∷ []); fresh = suc db.fresh }, ok user))
    ]
  ]

  -- `RoleRepo.Grant`, of a subject that is a user: `verifySubject` and the statement.
  unfoldable pub grant_user : Context → Db → GrantRole → Db × Option SetupError
  grant_user ctx db g = elim (from_context ctx) [
    | err e ↦ (db, some (no_scope_given e))
    | ok scope ↦ elim (env.down get_user) [
      | some why ↦ (db, some (store_failed (failed why)))
      | none ↦ elim (find (is_user scope g.subject_id) db.users) [
        | none ↦ (db, some (store_failed not_found))
        | some user ↦ elim (env.down insert_grant) [
          | some why ↦ (db, some (store_failed (failed why)))
          | none ↦ (record db { grants = add_grant scope.org_id g db.grants }, none)
        ]
      ]
    ]
  ]

  unfoldable pub create_user :
      Context → Db → Uuid → Text → Text → Db × Result SetupError (User × Bool)
  create_user ctx db org_id email password_hash = elim (count_people ctx db) [
    | err e ↦ (db, err e)
    | ok existing ↦
        let inserted = insert_person ctx db email password_hash in
        elim inserted.1 [
          | err e ↦ (inserted.0, err e)
          | ok user ↦
              if ltb 0 existing
              then (inserted.0, ok (user, false))
              else (let granted = grant_user ctx inserted.0 (admin_grant user.id org_id) in
                  (granted.0, elim granted.1 [ some e ↦ err e | none ↦ ok (user, true) ]))
        ]
  ]

  unfoldable pub check_token : Text → Option SetupError
  check_token presented =
      if is_empty env.token
      then none
      else if is_empty presented
      then some token_required
      else if presented == env.token
      then none
      else some token_invalid

  -- What `Initialize` does once its organization is stored.
  unfoldable pub first_user : Db → Request → Text → Organization → Db × Result SetupError Created
  first_user db request hash org = elim (new_system_scope org.id) [
    | err e ↦ (db, err (no_scope_given e))
    | ok scope ↦
        let ctx = with_scope (record { scope = none }) scope in
        let created = create_user ctx db org.id request.email hash in
        (
          created.0,
          elim created.1 [
            | err e ↦ err e
            | ok (user, granted) ↦ ok (record {
              org_id = org.id;
              org_slug = org.slug;
              user_id = user.id;
              email = user.email;
            })
          ],
        )
  ]

  unfoldable pub initialize : Db → Request → Db × Result SetupError Created
  initialize db request = elim (check_token request.token) [
    | some e ↦ (db, err e)
    | none ↦ elim (status db) [
      | err e ↦ (db, err e)
      | ok initialized ↦
          if initialized
          then (db, err already_initialized)
          else elim (env.hash_password request.password) [
            | err e ↦ (db, err (password_refused e))
            | ok hash ↦
                let org =
                  create_organization db (trim_space request.organization)
                    (slugify request.organization) in
                elim org.1 [
                  | err e ↦ (org.0, err e)
                  | ok organization ↦ first_user org.0 request hash organization
                ]
          ]
    ]
  ]
