-- ===== src/Examples/Setup.antt =====
-- internal/setup on a new instance whose token is "t0k".
use pivot.Common.{
  ◌≡◌, ◌⊎◌, ◌≤◌, List, refl, false, not, none, some, [], ◌∷◌, codes, length, ltb, keep_if, ok,
  text_beq, trim_space, trim_left, trim_right, is_space, lower,
}
use pivot.Tenant.{Scope, new_scope, new_system_scope, with_scope, from_context, is_valid}
use pivot.Authz.Model.{is_empty}
use pivot.Auth.Store.{find}
use pivot.Setup.{
  Organization, Db, Outage, insert_user, Request, Created, Env, add_grant, created_user, people_of,
  admin_grant, create_organization, status, count_people, insert_person, grant_user, create_user,
  check_token, first_user, initialize,
}
use pivot.Setup.Slug.{slugify, slug_loop, trim_dash, is_slug_after, IsSlug, slugify_exact}
use pivot.Setup.Claim.{is_claimed, is_ok, after_attempts, count_claims, initialize_once}
use pivot.Setup.Locked.{failed_setup_locks}
use pivot.Setup.Admin.{create_user_admin, initialize_admin}

no_outage : Outage
no_outage call = none

-- The row of a person cannot be stored.
no_users : Outage
no_users insert_user = some (codes "the disk is full")
no_users _ = none

abbrev env_of : Outage → Env
env_of down = record {
  token = codes "t0k";
  hash_password = λ password. ok password;
  now = 0;
  down = down;
}

abbrev empty_db : Db
empty_db = record { organizations = []; users = []; grants = []; fresh = 7 }

abbrev request : Request
request = record {
  organization = codes " Acme -- Tools! ";
  name = codes "Ada";
  email = codes "ada@acme.test";
  password = codes "correct horse";
  token = codes "t0k";
}

abbrev intruder : Request
intruder = record request { organization = codes "Other"; email = codes "eve@acme.test" }

program : Unit {0}
unfolding no_outage no_users initialize check_token status create_organization first_user
    create_user count_people insert_person grant_user add_grant created_user new_scope is_valid
    new_system_scope with_scope from_context find is_empty text_beq keep_if trim_space trim_left
    trim_right is_space slugify slug_loop trim_dash lower after_attempts count_claims is_claimed
    is_slug_after
program = tt

abbrev made : Created
made = record {
  org_id = 7;
  org_slug = codes "acme-tools";
  user_id = 8;
  email = codes "ada@acme.test";
}

claims : (initialize (env_of no_outage) empty_db request).1 ≡ ok made
unfolding program
claims = refl

-- The instance is claimed, and two others try after that.
abbrev tries : List (Env × Request)
tries = (env_of no_outage, request) ∷ (env_of no_outage, intruder) ∷ (env_of no_users, request) ∷ []

initialize_once_example : count_claims empty_db tries ≤ 1
initialize_once_example = initialize_once empty_db tries

one_claim : count_claims empty_db tries ≡ 1
unfolding program
one_claim = refl

initialize_admin_example :
    ((codes "t0k" ≡ []) ⊎ (request.token ≡ codes "t0k"))
    × ((is_claimed empty_db ≡ false)
        × ((initialize (env_of no_outage) empty_db request).0.grants
            ≡ add_grant 7 (admin_grant 8 7) []))
unfolding program
initialize_admin_example = initialize_admin (env_of no_outage) empty_db request made refl claims

abbrev acme : Organization
acme = record { id = 7; name = codes "Acme -- Tools!"; slug = codes "acme-tools"; deleted = false }

failed_setup_locks_example :
    ((is_ok (initialize (env_of no_users) empty_db request).1 ≡ false)
      × (((initialize (env_of no_users) empty_db request).0.users ≡ [])
          × ((initialize (env_of no_users) empty_db request).0.grants ≡ [])))
    × ((after_attempts (initialize (env_of no_users) empty_db request).0 tries
          ≡ (initialize (env_of no_users) empty_db request).0)
        × (count_claims (initialize (env_of no_users) empty_db request).0 tries ≡ 0))
unfolding program
failed_setup_locks_example =
    failed_setup_locks (env_of no_users) empty_db request (codes "correct horse")
      (codes "the disk is full") acme tries refl refl refl refl refl refl

abbrev scope : Scope
scope = record { org_id = 7; actor_id = record { uuid = 0; valid = false } }

abbrev one_person : Db
one_person = record {
  organizations = acme ∷ [];
  users = created_user 8 0 7 (codes "ada@acme.test") (codes "h") ∷ [];
  grants = (7, admin_grant 8 7) ∷ [];
  fresh = 9;
}

create_user_admin_example :
    (let db = one_person in
      (false ≡ not (ltb 0 (length (people_of 7 db))))
      × ((create_user
            (env_of no_outage)
            (record { scope = some scope })
            db
            7
            (codes "bo@acme.test")
            (codes "h")).0.grants
          ≡ db.grants))
unfolding program
create_user_admin_example =
    create_user_admin (env_of no_outage) (record { scope = some scope }) scope one_person 7
      (codes "bo@acme.test") (codes "h") (created_user 9 0 7 (codes "bo@acme.test") (codes "h"))
      false refl refl

slugify_exact_example :
    IsSlug (slugify (codes " Acme -- Tools! "))
    × (slugify (slugify (codes " Acme -- Tools! ")) ≡ slugify (codes " Acme -- Tools! "))
slugify_exact_example = slugify_exact (codes " Acme -- Tools! ")
