-- ===== src/Oidc/Groups/Exact.antt =====
-- The memberships that `syncGroups` of internal/oidc/provision.go leaves.
use pivot.Common.{
  ◌≡◌, refl, inl, inr, Bool, true, false, not, ◌&&◌, ◌||◌, none, some, List, [], ◌∷◌, Text, nat_eq,
  text_eq, ◌==◌, any, trim_space, contains, contains-keep_if, keep_if, lookup, if◌then◌else◌, ok,
  Bool-cases, Option-cases, beq→eq, arith,
}
use pivot.Tenant.{Uuid, uuid_nil}
use pivot.Authz.Model.{is_empty}
use pivot.Oidc.Groups.{
  Db, Outage, Changes, list_user_groups, get_group_by_name, add_group_member, remove_group_member,
  claimed_set, list_for_user, has_group, add_member, remove_member, add_groups, remove_groups,
  sync_groups,
}

-- A group has this name exactly if it has this id.
unfoldable pub same_key : Text → Uuid → Text × Uuid → Bool
same_key name id g = if g.0 == name then g.1 == id else not (g.1 == id)

unfoldable pub is_key : Text → Uuid → List (Text × Uuid) → Bool
is_key name id [] = true
is_key name id (g ∷ groups) = same_key name id g && is_key name id groups

eq_sym : (a b : Text) → (a == b) ≡ (b == a)
eq_sym a b = ground (arith, text_eq.beq_iff a b, text_eq.beq_iff b a)

lookup-is_key :
    (name asked : Text) (id found : Uuid) (groups : List (Text × Uuid))
    → is_key name id groups ≡ true
    → lookup asked groups ≡ some found
    → (asked == name) ≡ (found == id)
unfolding is_key same_key lookup
lookup-is_key name asked id found [] h l = cc
lookup-is_key name asked id found ((n, i) ∷ groups) h l =
    ground (arith, beq→eq n asked, lookup-is_key name asked id found groups)

keep_if-is_key :
    (name : Text) (id : Uuid) (p : Text × Uuid → Bool) (groups : List (Text × Uuid))
    → is_key name id groups ≡ true
    → is_key name id (keep_if p groups) ≡ true
unfolding is_key keep_if
keep_if-is_key name id p [] h = refl
keep_if-is_key name id p (g ∷ groups) h = ground (arith, keep_if-is_key name id p groups)

abbrev mine : List Uuid → List (Text × Uuid) → List (Text × Uuid)
mine members groups = keep_if (λ (g : Text × Uuid). contains members g.1) groups

lookup-mine_absent :
    (members : List Uuid) (name : Text) (id : Uuid) (groups : List (Text × Uuid))
    → is_key name id groups ≡ true
    → contains members id ≡ false
    → lookup name (mine members groups) ≡ none
unfolding is_key same_key lookup keep_if
lookup-mine_absent members name id [] h c = refl
lookup-mine_absent members name id ((n, i) ∷ groups) h c =
    ground (arith, lookup-mine_absent members name id groups)

lookup-mine_present :
    (members : List Uuid) (name : Text) (id : Uuid) (groups : List (Text × Uuid))
    → is_key name id groups ≡ true
    → contains members id ≡ true
    → lookup name groups ≡ some id
    → lookup name (mine members groups) ≡ some id
unfolding is_key same_key lookup keep_if
lookup-mine_present members name id [] h c l = cc
lookup-mine_present members name id ((n, i) ∷ groups) h c l =
    ground (arith, lookup-mine_present members name id groups)

-- The user has a group of this name in the list exactly where it is in the group.
has_group-mine :
    (members : List Uuid) (name : Text) (id : Uuid) (groups : List (Text × Uuid))
    → is_key name id groups ≡ true
    → lookup name groups ≡ some id
    → (id == uuid_nil) ≡ false
    → has_group (mine members groups) name ≡ contains members id
unfolding has_group
has_group-mine members name id groups h l z = elim (Bool-cases (contains members id)) [
  | inl c ↦ ground (arith, lookup-mine_present members name id groups h c l)
  | inr c ↦ ground (arith, lookup-mine_absent members name id groups h c)
]

contains-add_member :
    (id asked : Uuid) (db : Db)
    → contains (add_member id db).members asked ≡ (id == asked || contains db.members asked)
unfolding add_member contains
contains-add_member id asked db = ground (arith, beq→eq id asked)

add_member_groups : (id : Uuid) (db : Db) → (add_member id db).groups ≡ db.groups
unfolding add_member
add_member_groups id db = ground arith

add_groups_exact :
    (down : Outage) (have : List (Text × Uuid)) (db : Db) (changes : Changes) (names : List Text)
    (name : Text) (id : Uuid)
    → is_key name id db.groups ≡ true
    → lookup name db.groups ≡ some id
    → (add_groups down have db changes names).1 ≡ none
    → contains (add_groups down have db changes names).0.0.members id ≡ (
        contains db.members id
        || (contains names name && not (is_empty name || has_group have name)))
unfolding add_groups contains
add_groups_exact down have db changes [] name id key l h = ground arith
add_groups_exact down have db changes (n ∷ names) name id key l h =
    elim (Bool-cases (is_empty n || has_group have n)) [
      | inl skip ↦
          ground (arith, beq→eq name n, add_groups_exact down have db changes names name id key l)
      | inr new ↦ elim (Option-cases (down (get_group_by_name n))) [
        | inr (why, d) ↦ ground arith
        | inl d ↦ elim (Option-cases (lookup n db.groups)) [
          | inl gone ↦
              let noted : Changes = record changes { unknown = n ∷ changes.unknown } in
              ground (arith, beq→eq name n, add_groups_exact down have db noted names name id key l)
          | inr (found, there) ↦ elim (Option-cases (down (add_group_member found))) [
            | inr (why, a) ↦ ground arith
            | inl a ↦
                let noted : Changes = record changes { added = n ∷ changes.added } in
                let same = add_member_groups found db in
                let key' : is_key name id (add_member found db).groups ≡ true = rw same key in
                let l' : lookup name (add_member found db).groups ≡ some id = rw same l in
                ground (
                  arith,
                  beq→eq name n,
                  eq_sym name n,
                  contains-add_member found id db,
                  lookup-is_key name n id found db.groups key there,
                  add_groups_exact down have (add_member found db) noted names name id key' l',
                )
          ]
        ]
      ]
    ]

unfoldable pub is_listed : Text → List (Text × Uuid) → Bool
is_listed name [] = false
is_listed name (g ∷ groups) = g.0 == name || is_listed name groups

is_listed-lookup :
    (name : Text) (id : Uuid) (groups : List (Text × Uuid))
    → lookup name groups ≡ some id
    → is_listed name groups ≡ true
unfolding is_listed lookup
is_listed-lookup name id [] l = cc
is_listed-lookup name id (g ∷ groups) l = ground (arith, is_listed-lookup name id groups)

listed_mine :
    (members : List Uuid) (name : Text) (id : Uuid) (groups : List (Text × Uuid))
    → is_key name id groups ≡ true
    → lookup name groups ≡ some id
    → contains members id ≡ true
    → is_listed name (mine members groups) ≡ true
listed_mine members name id groups h l c =
    is_listed-lookup name id (mine members groups)
      (lookup-mine_present members name id groups h c l)

contains-remove_member :
    (id asked : Uuid) (db : Db)
    → contains (remove_member id db).members asked
      ≡ (contains db.members asked && not (asked == id))
unfolding remove_member
contains-remove_member id asked db = contains-keep_if (λ m. not (m == id)) asked db.members

remove_groups_exact :
    (down : Outage) (claimed : List Text) (db : Db) (changes : Changes) (have : List (Text × Uuid))
    (name : Text) (id : Uuid)
    → is_key name id have ≡ true
    → (remove_groups down claimed db changes have).1 ≡ none
    → contains (remove_groups down claimed db changes have).0.0.members id
      ≡ (contains db.members id && not (is_listed name have && not (contains claimed name)))
unfolding remove_groups is_key same_key is_listed
remove_groups_exact down claimed db changes [] name id key h = ground arith
remove_groups_exact down claimed db changes ((n, i) ∷ have) name id key h =
    elim (Bool-cases (contains claimed n)) [
      | inl c ↦
          ground (arith, beq→eq n name, remove_groups_exact down claimed db changes have name id)
      | inr c ↦ elim (Option-cases (down (remove_group_member i))) [
        | inr (why, d) ↦ ground arith
        | inl d ↦
            let noted : Changes = record changes { removed = n ∷ changes.removed } in
            ground (
              arith,
              beq→eq n name,
              nat_eq.beq_iff i id,
              nat_eq.beq_iff id i,
              contains-remove_member i id db,
              remove_groups_exact down claimed (remove_member i db) noted have name id,
            )
      ]
    ]

-- Some name of the claim is this one, the space around it cut off.
unfoldable pub names_it : List Text → Text → Bool
names_it names name = any (λ claimed. trim_space claimed == name) names

claimed_set-names_it :
    (names : List Text) (name : Text) → contains (claimed_set names) name ≡ names_it names name
unfolding claimed_set contains names_it any
claimed_set-names_it [] name = refl
claimed_set-names_it (n ∷ names) name =
    ground (
      arith,
      beq→eq (trim_space n) name,
      eq_sym (trim_space n) name,
      claimed_set-names_it names name,
    )

-- After the groups of a login were synced, with every statement up, the user is in a group of the
-- organization exactly if some name of the provider's claim, without the space around it, is the
-- group's: memberships that are missing are added,
-- and those that are not claimed are removed, also those that were made by hand. The group has a
-- name and an id, and no other group has either.
pub sync_groups_exact :
    (down : Outage) (db : Db) (names : List Text) (changes : Changes) (name : Text) (id : Uuid)
    → is_key name id db.groups ≡ true
    → lookup name db.groups ≡ some id
    → (id == uuid_nil) ≡ false
    → is_empty name ≡ false
    → (sync_groups down db names).1 ≡ ok changes
    → contains (sync_groups down db names).0.members id ≡ names_it names name
unfolding sync_groups
sync_groups_exact down db names changes name id key l z named h =
    let claimed = claimed_set names in
    let have = list_for_user db in
    let nothing : Changes = record { added = []; removed = []; unknown = [] } in
    let grown = add_groups down have db nothing claimed in
    elim (Option-cases (down list_user_groups)) [
      | inr (why, d) ↦ ground arith
      | inl d ↦ elim (Option-cases grown.1) [
        | inr (why, g) ↦ ground arith
        | inl g ↦
            let shrunk = remove_groups down claimed grown.0.0 grown.0.1 have in
            elim (Option-cases shrunk.1) [
              | inr (why, s) ↦ ground arith
              | inl s ↦ ground (
                arith,
                add_groups_exact down have db nothing claimed name id key l g,
                remove_groups_exact down claimed grown.0.0 grown.0.1 have name id
                    (keep_if-is_key name id (λ (m : Text × Uuid). contains db.members m.1) db.groups
                      key)
                    s,
                has_group-mine db.members name id db.groups key l z,
                listed_mine db.members name id db.groups key l,
                claimed_set-names_it names name,
              )
            ]
      ]
    ]
