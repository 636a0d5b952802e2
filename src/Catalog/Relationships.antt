-- ===== src/Catalog/Relationships.antt =====
-- internal/catalog/relationships.go: foreign keys, reconciled column by column and reported by
-- relationship. A map used as a set is the list of what it holds.
use pivot.Common.{
  ℕ, ◌+◌, Bool, true, not, ◌&&◌, ◌||◌, Option, none, some, List, [], ◌∷◌, ◌++◌, Text, codes,
  decimal, length, nat_beq, nat_eq, text_eq, pair_eq, contains, if◌then◌else◌, lookup, Result, ok,
  err,
}
use pivot.Catalog.Rows.{
  RelationIdentity, KeyIdentity, CatalogForeignKey, SeenForeignKey, Db, is_live, Outage, list_keys,
  record_foreign_key, mark_foreign_keys_gone,
}
use pivot.Catalog.Report.{
  ChangeKind, added, removed, changed, Change, Report, sort_changes, constraint_lt,
}

-- What `ForeignKeys` of a connector gives.
pub data KeyReading : Type 0 where
  no_foreign_keys : KeyReading
  failed : Text → KeyReading
  declared : List SeenForeignKey → KeyReading

-- `present[relation] = true` on a map used as a set.
unfoldable pub add_relation : RelationIdentity → List RelationIdentity → List RelationIdentity
add_relation r set = if contains set r then set else r ∷ set

-- The loop over the keys that the source declares.
pub record KeyRun : Type 0 where
  pub db : Db
  pub seen : List KeyIdentity
  pub appeared : List RelationIdentity
  pub present : List RelationIdentity

unfoldable pub is_new_key : List (KeyIdentity × CatalogForeignKey) → KeyIdentity → Bool
is_new_key before identity = elim (lookup identity before) [
  | none ↦ true
  | some was ↦ not (is_live was.removed_at)
]

unfoldable pub record_keys :
    Outage
    → ℕ
    → List (KeyIdentity × CatalogForeignKey)
    → KeyRun
    → List SeenForeignKey
    → KeyRun × Option Text
record_keys down at before run [] = (run, none)
record_keys down at before run (key ∷ keys) =
    let relation = key.identity.0 in
    let recorded = record_foreign_key down run.db key at in
    let seen : KeyRun = record {
      db = recorded.0;
      seen = key.identity ∷ run.seen;
      appeared =
          if is_new_key before key.identity
          then add_relation relation run.appeared
          else run.appeared;
      present = add_relation relation run.present;
    } in
    elim recorded.1 [ err why ↦ (seen, some why) | ok row ↦ record_keys down at before seen keys ]

unfoldable pub missing_relationships :
    List KeyIdentity → List (KeyIdentity × CatalogForeignKey) → List RelationIdentity
missing_relationships seen [] = []
missing_relationships seen ((identity, key) ∷ before) =
    let rest = missing_relationships seen before in
    if contains seen identity || not (is_live key.removed_at)
    then rest
    else add_relation identity.0 rest

unfoldable pub count_columns_of : List (KeyIdentity × CatalogForeignKey) → List RelationIdentity → ℕ
count_columns_of [] relations = 0
count_columns_of ((identity, key) ∷ before) relations =
    (if is_live key.removed_at && contains relations identity.0 then 1 else 0)
    + count_columns_of before relations

abbrev pub relation_change : ChangeKind → RelationIdentity → Change
relation_change kind relation = record {
  kind = kind;
  schema = relation.0.0;
  table = relation.0.1;
  column = [];
  constraint = relation.1;
  detail = [];
}

unfoldable pub changes_of : ChangeKind → List RelationIdentity → List Change
changes_of kind [] = []
changes_of kind (r ∷ relations) = relation_change kind r ∷ changes_of kind relations

unfoldable pub relation_changes : List RelationIdentity → List RelationIdentity → List Change
relation_changes appeared gone =
    sort_changes constraint_lt (changes_of added appeared ++ changes_of removed gone)

-- The line that says that the sweep marked more or less than was named.
abbrev pub disagreement : Text → Change
disagreement detail = record {
  kind = changed;
  schema = [];
  table = [];
  column = [];
  constraint = [];
  detail = detail;
}

abbrev pub key_disagreement : ℕ → ℕ → Change
key_disagreement gone named = disagreement (
    codes "the sweep marked "
    ++ (decimal gone
        ++ (codes " foreign key columns gone and "
            ++ (decimal named
                ++ codes " were named; another sync may be running against this connection"))))

unfoldable pub reconcile_relationships :
    Outage → ℕ → KeyReading → Db → Report → Db × Result Text Report
reconcile_relationships down at no_foreign_keys db report =
    (db, ok (record report { foreign_keys_unavailable = true }))
reconcile_relationships down at (failed why) db report = (db, err why)
reconcile_relationships down at (declared keys) db report = elim (down list_keys) [
  | some why ↦ (db, err why)
  | none ↦
      let start : KeyRun = record { db = db; seen = []; appeared = []; present = [] } in
      let run = record_keys down at db.keys start keys in
      elim run.1 [
        | some why ↦ (run.0.db, err why)
        | none ↦
            let marked = mark_foreign_keys_gone down run.0.db at in
            elim marked.1 [
              | err why ↦ (marked.0, err why)
              | ok gone ↦
                  let missing = missing_relationships run.0.seen db.keys in
                  let named = count_columns_of db.keys missing in
                  (
                    marked.0,
                    ok (record report {
                      relationships_seen = length run.0.present;
                      changes =
                          report.changes
                          ++ ((if nat_beq named gone then [] else key_disagreement gone named ∷ [])
                              ++ relation_changes run.0.appeared missing);
                    }),
                  )
            ]
      ]
]
