-- ===== src/Oidc/Groups.antt =====
-- `syncGroups` of internal/oidc/provision.go, over the groups of one organization and the
-- memberships of one user, with the statements of internal/store/queries. A map that is ranged over
-- is a list; the code sorts what it reports, so that its order does not show.
pub mod Exact
use pivot.Common.{
  Bool, true, false, not, ◌||◌, Option, none, some, List, [], ◌∷◌, Text, codes, trim_space, map,
  nat_eq, text_eq, ◌==◌, contains, keep_if, lookup, sort_texts, if◌then◌else◌, Result, ok, err,
}
use pivot.Tenant.{Uuid, uuid_nil}
use pivot.Authz.Model.{is_empty}

pub record Db : Type 0 where
  pub groups : List (Text × Uuid)
  pub members : List Uuid

pub data Call : Type 0 where
  list_user_groups : Call
  get_group_by_name : Text → Call
  add_group_member remove_group_member : Uuid → Call

abbrev pub Outage : Type 0
Outage = Call → Option Text

pub record Changes : Type 0 where
  pub added : List Text
  pub removed : List Text
  pub unknown : List Text

-- The keys of `claimed`, each once.
unfoldable pub claimed_set : List Text → List Text
claimed_set [] = []
claimed_set (name ∷ names) =
    let rest = claimed_set names in
    let trimmed = trim_space name in if contains rest trimmed then rest else trimmed ∷ rest

abbrev pub list_for_user : Db → List (Text × Uuid)
list_for_user db = keep_if (λ (g : Text × Uuid). contains db.members g.1) db.groups

unfoldable pub has_group : List (Text × Uuid) → Text → Bool
has_group have name = elim (lookup name have) [ none ↦ false | some id ↦ not (id == uuid_nil) ]

-- ON CONFLICT DO NOTHING.
unfoldable pub add_member : Uuid → Db → Db
add_member id db = if contains db.members id then db else record db { members = id ∷ db.members }

unfoldable pub remove_member : Uuid → Db → Db
remove_member id db = record db { members = keep_if (λ m. not (m == id)) db.members }

module _ (down : Outage) where
  -- The loop over the claimed names.
  unfoldable pub add_groups :
      List (Text × Uuid) → Db → Changes → List Text → (Db × Changes) × Option Text
  add_groups have db changes [] = ((db, changes), none)
  add_groups have db changes (name ∷ names) =
      if is_empty name || has_group have name
      then add_groups have db changes names
      else elim (down (get_group_by_name name)) [
        | some why ↦ ((db, changes), some why)
        | none ↦ elim (lookup name db.groups) [
          | none ↦ add_groups have db (record changes { unknown = name ∷ changes.unknown }) names
          | some id ↦ elim (down (add_group_member id)) [
            | some why ↦ ((db, changes), some why)
            | none ↦
                add_groups have (add_member id db) (record changes { added = name ∷ changes.added })
                  names
          ]
        ]
      ]

  -- The loop over the groups the user had.
  unfoldable pub remove_groups :
      List Text → Db → Changes → List (Text × Uuid) → (Db × Changes) × Option Text
  remove_groups claimed db changes [] = ((db, changes), none)
  remove_groups claimed db changes ((name, id) ∷ have) =
      if contains claimed name
      then remove_groups claimed db changes have
      else elim (down (remove_group_member id)) [
        | some why ↦ ((db, changes), some why)
        | none ↦
            if contains db.members id
            then remove_groups claimed (remove_member id db)
                (record changes { removed = name ∷ changes.removed }) have
            else ((db, changes), some (codes "not found"))
      ]

  abbrev sorted : Changes → Changes
  sorted changes = record {
    added = sort_texts changes.added;
    removed = sort_texts changes.removed;
    unknown = sort_texts changes.unknown;
  }

  unfoldable pub sync_groups : Db → List Text → Db × Result Text Changes
  sync_groups db names = elim (down list_user_groups) [
    | some why ↦ (db, err why)
    | none ↦
        let claimed = claimed_set names in
        let have = list_for_user db in
        let nothing : Changes = record { added = []; removed = []; unknown = [] } in
        let grown = add_groups have db nothing claimed in
        elim grown.1 [
          | some why ↦ (grown.0.0, err why)
          | none ↦
              let shrunk = remove_groups claimed grown.0.0 grown.0.1 have in
              (shrunk.0.0, elim shrunk.1 [ some why ↦ err why | none ↦ ok (sorted shrunk.0.1) ])
        ]
  ]
