-- ===== src/Setup/Claim.antt =====
-- Who can claim an instance with internal/setup/setup.go, and when nobody can any more.
use pivot.Common.{
  ℕ, ◌≤◌, refl, err, ◌+◌, ◌≡◌, ◌≢◌, inl, inr, Bool, true, false, not, none, List, [], ◌∷◌, ◌++◌,
  Text, length, ltb, trim_space, keep_if, if◌then◌else◌, Result, ok, Bool-cases, Option-cases,
  Result-cases, arith,
}
use pivot.Tenant.{Uuid, Context, new_system_scope, with_scope}
use pivot.Setup.Slug.{slugify}
use pivot.Setup.{
  Organization, GrantRole, Db, count_organizations, SetupError, Request, Created, Env,
  live_organizations, admin_grant, create_organization, status, count_people, insert_person,
  grant_user, create_user, check_token, first_user, initialize,
}

-- Some organization is there.
unfoldable pub is_claimed : Db → Bool
is_claimed db = ltb 0 (length (live_organizations db))

pub insert_person_organizations :
    (env : Env) (ctx : Context) (db : Db) (email hash : Text)
    → ((insert_person env ctx db email hash).0.organizations ≡ db.organizations)
      × ((insert_person env ctx db email hash).0.grants ≡ db.grants)
unfolding insert_person
insert_person_organizations env ctx db email hash = ground arith

grant_user_organizations :
    (env : Env) (ctx : Context) (db : Db) (g : GrantRole)
    → (grant_user env ctx db g).0.organizations ≡ db.organizations
unfolding grant_user
grant_user_organizations env ctx db g = ground arith

create_user_organizations :
    (env : Env) (ctx : Context) (db : Db) (org : Uuid) (email hash : Text)
    → (create_user env ctx db org email hash).0.organizations ≡ db.organizations
unfolding create_user
create_user_organizations env ctx db org email hash =
    let inserted = insert_person env ctx db email hash in
    elim (Result-cases (count_people env ctx db)) [
      | inr (e, p) ↦ ground arith
      | inl (n, p) ↦ elim (Result-cases inserted.1) [
        | inr (e, q) ↦ ground (arith, insert_person_organizations env ctx db email hash)
        | inl (user, q) ↦ ground (
          arith,
          insert_person_organizations env ctx db email hash,
          grant_user_organizations env ctx inserted.0 (admin_grant user.id org),
        )
      ]
    ]

pub first_user_organizations :
    (env : Env) (db : Db) (request : Request) (hash : Text) (org : Organization)
    → (first_user env db request hash org).0.organizations ≡ db.organizations
unfolding first_user
first_user_organizations env db request hash org = elim (Result-cases (new_system_scope org.id)) [
  | inr (e, p) ↦ ground arith
  | inl (scope, p) ↦ ground (
    arith,
    create_user_organizations env (with_scope (record { scope = none }) scope) db org.id
        request.email hash,
  )
]

length-keep_if-append :
    {A : Type 0} (p : A → Bool) (xs : List A) (a : A)
    → length (keep_if p (xs ++ (a ∷ []))) ≡ length (keep_if p xs) + (if p a then 1 else 0)
unfolding keep_if
length-keep_if-append p [] a = ground arith
length-keep_if-append p (x ∷ xs) a = ground (arith, length-keep_if-append p xs a)

-- Once an organization is stored, the instance is claimed.
pub create_organization-is_claimed :
    (env : Env) (db : Db) (name slug : Text) (org : Organization)
    → (create_organization env db name slug).1 ≡ ok org
    → is_claimed (create_organization env db name slug).0 ≡ true
unfolding create_organization is_claimed
create_organization-is_claimed env db name slug org h = ground (
  arith,
  length-keep_if-append (λ (o : Organization). not o.deleted) db.organizations
      (record { id = db.fresh; name = name; slug = slug; deleted = false }),
)

-- On a claimed instance nothing is claimed, and nothing changes.
claimed_refuses :
    (env : Env) (db : Db) (request : Request)
    → is_claimed db ≡ true
    → ((initialize env db request).0 ≡ db) × ((r : Created) → (initialize env db request).1 ≢ ok r)
unfolding initialize status is_claimed
claimed_refuses env db request claimed = elim (Option-cases (check_token env request.token)) [
  | inr (e, p) ↦ ground arith
  | inl p ↦ elim (Option-cases (env.down count_organizations)) [
    | inr (why, q) ↦ ground arith
    | inl q ↦ ground arith
  ]
]

-- What a claim does from the moment its organization is to be stored.
abbrev pub stored_organization : Env → Db → Request → Db × Result SetupError Organization
stored_organization env db request =
    create_organization env db (trim_space request.organization) (slugify request.organization)

-- A claim that succeeds passed every check and stored its organization.
pub claim_steps :
    (env : Env) (db : Db) (request : Request) (r : Created)
    → (initialize env db request).1 ≡ ok r
    → (hash : Text) × ((org : Organization) × ((check_token env request.token ≡ none)
          × ((is_claimed db ≡ false)
              × ((env.hash_password request.password ≡ ok hash)
                  × (((stored_organization env db request).1 ≡ ok org)
                      × (initialize env db request
                          ≡ first_user env
                              (stored_organization env db request).0
                              request
                              hash
                              org))))))
unfolding initialize status is_claimed
claim_steps env db request r h = elim (Option-cases (check_token env request.token)) [
  | inr (e, p) ↦ ground arith
  | inl p ↦ elim (Option-cases (env.down count_organizations)) [
    | inr (why, q) ↦ ground arith
    | inl q ↦ elim (Bool-cases (is_claimed db)) [
      | inl c ↦ ground arith
      | inr c ↦ elim (Result-cases (env.hash_password request.password)) [
        | inr (e, k) ↦ ground arith
        | inl (hash, k) ↦ elim (Result-cases (stored_organization env db request).1) [
          | inr (e, o) ↦ ground arith
          | inl (org, o) ↦ (hash, (org, (p, (c, (k, (o, ground arith))))))
        ]
      ]
    ]
  ]
]

abbrev pub is_ok {ℓ κ} : {E : Type ℓ} {A : Type κ} → Result E A → Bool
is_ok (ok a) = true
is_ok (err e) = false

-- The instance after some attempts, made one after another, and how many of them succeeded. Each has
-- its own request, and its own token, password hash, time and failures of the store.
unfoldable pub after_attempts : Db → List (Env × Request) → Db
after_attempts db [] = db
after_attempts db ((env, request) ∷ more) = after_attempts (initialize env db request).0 more

unfoldable pub count_claims : Db → List (Env × Request) → ℕ
count_claims db [] = 0
count_claims db ((env, request) ∷ more) =
    (if is_ok (initialize env db request).1 then 1 else 0)
    + count_claims (initialize env db request).0 more

-- Attempts on a claimed instance.
pub claimed_stays :
    (db : Db) (tries : List (Env × Request))
    → is_claimed db ≡ true
    → (after_attempts db tries ≡ db) × (count_claims db tries ≡ 0)
unfolding after_attempts count_claims
claimed_stays db [] claimed = (refl, refl)
claimed_stays db ((env, request) ∷ more) claimed =
    let refused = claimed_refuses env db request claimed in
    let rest = claimed_stays db more claimed in
    elim (Result-cases (initialize env db request).1) [
      | inl (r, e) ↦ absurd (refused.1 r e)
      | inr (why, e) ↦ ground (arith, refused.0, rest)
    ]

initialize-is_claimed :
    (env : Env) (db : Db) (request : Request) (r : Created)
    → (initialize env db request).1 ≡ ok r
    → is_claimed (initialize env db request).0 ≡ true
unfolding is_claimed
initialize-is_claimed env db request r h =
    let steps = claim_steps env db request r h in
    let stored = stored_organization env db request in
    ground (
      arith,
      steps.1.1.1.1.1.1,
      first_user_organizations env stored.0 request steps.0 steps.1.0,
      create_organization-is_claimed env db (trim_space request.organization)
          (slugify request.organization) steps.1.0 steps.1.1.1.1.1.0,
    )

-- Of any attempts on an instance that run one after another, as the mutex of a process makes them,
-- at most one succeeds, whatever their requests, tokens and failures of the store.
pub initialize_once : (db : Db) (tries : List (Env × Request)) → count_claims db tries ≤ 1
unfolding count_claims
initialize_once db [] = omega arith
initialize_once db ((env, request) ∷ more) = elim (Result-cases (initialize env db request).1) [
  | inl (r, e) ↦ ground (
    arith,
    claimed_stays (initialize env db request).0 more (initialize-is_claimed env db request r e),
  )
  | inr (why, e) ↦ ground (arith, initialize_once (initialize env db request).0 more)
]
