-- ===== src/Catalog/Sync/Reconciled.antt =====
-- What the loop of internal/catalog/sync.go over the tables of the source leaves of them.
use pivot.Common.{
  ℕ, suc, ◌+◌, ◌≡◌, refl, ap, inl, inr, Bool, true, false, ◌&&◌, ◌||◌, Option, none, some, List, [],
  ◌∷◌, ◌++◌, ◌==◌, nat_beq, nat_eq, text_eq, pair_eq, pair_beq_iff, if◌then◌else◌, lookup, insert,
  lookup-insert, Option-cases, arith,
}
use pivot.Tenant.{Uuid}
use pivot.Auth.Store.{new_time}
use pivot.Catalog.Rows.{
  TableKey, CatalogTable, SeenTable, is_live, Outage, merge_table, upsert_table, record_table,
  record_column,
}
use pivot.Catalog.Report.{SourceColumn, SourceTable}
use pivot.Catalog.Snapshot.{see_table}
use pivot.Catalog.Sync.{
  table_changes, Run, reconcile_column, reconcile_columns, reconcile, reconcile_all,
}

reconcile_column_tables :
    (down : Outage) (at : ℕ) (table : TableKey) (id : Uuid) (run : Run) (column : SourceColumn)
    → (reconcile_column down at table id run column).0.db.tables ≡ run.db.tables
unfolding reconcile_column record_column
reconcile_column_tables down at table id run column = ground arith

reconcile_columns_tables :
    (down : Outage) (at : ℕ) (table : TableKey) (id : Uuid) (run : Run)
    (columns : List SourceColumn)
    → (reconcile_columns down at table id run columns).0.db.tables ≡ run.db.tables
unfolding reconcile_columns
reconcile_columns_tables down at table id run [] = refl
reconcile_columns_tables down at table id run (column ∷ columns) = ground (
  arith,
  reconcile_column_tables down at table id run column,
  reconcile_columns_tables down at table id (reconcile_column down at table id run column).0
      columns,
)

abbrev key_of : SourceTable → TableKey
key_of table = (table.schema, table.name)

abbrev seen_of : SourceTable → SeenTable
seen_of table = record {
  schema = table.schema;
  name = table.name;
  table_type = table.table_type;
  comment = table.comment;
}

reconcile_tables :
    (down : Outage) (at : ℕ) (run : Run) (table : SourceTable)
    → (reconcile down at run table).1 ≡ none
    → (reconcile down at run table).0.db.tables
      ≡ insert
          (key_of table)
          (merge_table run.db.fresh
            (seen_of table)
            (new_time at)
            (lookup (key_of table) run.db.tables))
          run.db.tables
unfolding reconcile record_table
reconcile_tables down at run table h = elim (Option-cases (down (upsert_table (key_of table)))) [
  | inr (why, e) ↦ ground arith
  | inl e ↦
      let row =
        merge_table run.db.fresh (seen_of table) (new_time at)
          (lookup (key_of table) run.db.tables) in
      let stored : Run = record {
        db = record run.db {
          tables = insert (key_of table) row run.db.tables;
          fresh = suc run.db.fresh;
        };
        shot = see_table run.shot (key_of table);
        report = record run.report {
          tables_seen = run.report.tables_seen + 1;
          changes =
              run.report.changes
              ++ table_changes (key_of table) (lookup (key_of table) run.shot.tables);
        };
      } in
      ground (arith, reconcile_columns_tables down at (key_of table) row.id stored table.columns)
]

-- The source reports a table of this name.
unfoldable pub reports : List SourceTable → TableKey → Bool
reports [] key = false
reports (table ∷ tables) key = key_of table == key || reports tables key

-- A row as a sync with this stamp leaves it when it has seen it.
unfoldable pub is_seen : ℕ → Option CatalogTable → Bool
is_seen stamp none = false
is_seen stamp (some row) = nat_beq row.last_seen_at stamp && is_live row.removed_at

-- Who a row is: its id and when it was first seen.
unfoldable pub origin : Option CatalogTable → Option (Uuid × ℕ)
origin none = none
origin (some row) = some (row.id, row.first_seen_at)

reconcile_row :
    (down : Outage) (at : ℕ) (run : Run) (table : SourceTable) (key : TableKey)
    → (reconcile down at run table).1 ≡ none
    → lookup key (reconcile down at run table).0.db.tables ≡ (
        if key_of table == key
        then some (
            merge_table run.db.fresh
              (seen_of table)
              (new_time at)
              (lookup (key_of table) run.db.tables))
        else lookup key run.db.tables)
reconcile_row down at run table key h =
    rw (reconcile_tables down at run table h) (lookup-insert _ _ _ _)

merge_table_seen :
    (id : Uuid) (seen : SeenTable) (stamp : ℕ) (old : Option CatalogTable)
    → is_seen stamp (some (merge_table id seen stamp old)) ≡ true
unfolding is_seen merge_table
merge_table_seen id seen stamp none = ground arith
merge_table_seen id seen stamp (some row) = ground arith

reconcile_seen :
    (down : Outage) (at : ℕ) (run : Run) (table : SourceTable) (key : TableKey)
    → (reconcile down at run table).1 ≡ none
    → is_seen (new_time at) (lookup key (reconcile down at run table).0.db.tables)
      ≡ (key_of table == key || is_seen (new_time at) (lookup key run.db.tables))
reconcile_seen down at run table key h = ground (
  arith,
  reconcile_row down at run table key h,
  merge_table_seen run.db.fresh (seen_of table) (new_time at) (lookup (key_of table) run.db.tables),
)

origin-reconcile :
    (down : Outage) (at : ℕ) (run : Run) (table : SourceTable) (key : TableKey) (old : CatalogTable)
    → (reconcile down at run table).1 ≡ none
    → lookup key run.db.tables ≡ some old
    → origin (lookup key (reconcile down at run table).0.db.tables) ≡ origin (some old)
unfolding origin merge_table
origin-reconcile down at run table key old h e =
    ground (arith, reconcile_row down at run table key h, pair_beq_iff (key_of table) key)

pub reconcile_all_seen :
    (down : Outage) (at : ℕ) (run : Run) (tables : List SourceTable) (key : TableKey)
    → (reconcile_all down at run tables).1 ≡ none
    → is_seen (new_time at) (lookup key (reconcile_all down at run tables).0.db.tables)
      ≡ (reports tables key || is_seen (new_time at) (lookup key run.db.tables))
unfolding reconcile_all reports
reconcile_all_seen down at run [] key h = refl
reconcile_all_seen down at run (table ∷ tables) key h =
    elim (Option-cases (reconcile down at run table).1) [
      | inr (why, e) ↦ ground arith
      | inl e ↦ ground (
        arith,
        reconcile_seen down at run table key e,
        reconcile_all_seen down at (reconcile down at run table).0 tables key,
      )
    ]

-- A table that is not reported stays as it was.
pub reconcile_all_unreported :
    (down : Outage) (at : ℕ) (run : Run) (tables : List SourceTable) (key : TableKey)
    → (reconcile_all down at run tables).1 ≡ none
    → reports tables key ≡ false
    → lookup key (reconcile_all down at run tables).0.db.tables ≡ lookup key run.db.tables
unfolding reconcile_all reports
reconcile_all_unreported down at run [] key h r = refl
reconcile_all_unreported down at run (table ∷ tables) key h r =
    elim (Option-cases (reconcile down at run table).1) [
      | inr (why, e) ↦ ground arith
      | inl e ↦ ground (
        arith,
        reconcile_row down at run table key e,
        reconcile_all_unreported down at (reconcile down at run table).0 tables key,
      )
    ]

-- A row that is there keeps its origin.
pub origin-reconcile_all :
    (down : Outage) (at : ℕ) (run : Run) (tables : List SourceTable) (key : TableKey)
    (old : CatalogTable)
    → (reconcile_all down at run tables).1 ≡ none
    → lookup key run.db.tables ≡ some old
    → origin (lookup key (reconcile_all down at run tables).0.db.tables) ≡ origin (some old)
unfolding reconcile_all origin
origin-reconcile_all down at run [] key old h r = ap origin r
origin-reconcile_all down at run (table ∷ tables) key old h r =
    elim (Option-cases (reconcile down at run table).1) [
      | inr (why, e) ↦ ground arith
      | inl e ↦ elim (Option-cases (lookup key (reconcile down at run table).0.db.tables)) [
        | inl gone ↦ ground (arith, origin-reconcile down at run table key old e r)
        | inr (row, there) ↦ ground (
          arith,
          origin-reconcile down at run table key old e r,
          origin-reconcile_all down at (reconcile down at run table).0 tables key row,
        )
      ]
    ]
