-- ===== src/Catalog/Snapshot.antt =====
-- internal/catalog/snapshot.go: what was known before a sync, and what the sync has seen.
use pivot.Common.{
  not, ◌||◌, none, some, List, [], ◌∷◌, ◌++◌, Text, nat_eq, text_eq, pair_eq, contains,
  if◌then◌else◌, lookup, insert, Result, ok, err,
}
use pivot.Tenant.{Uuid}
use pivot.Catalog.Rows.{
  TableKey, ColumnKey, CatalogTable, CatalogColumn, Db, is_live, Outage, list_tables, list_columns,
}
use pivot.Catalog.Report.{removed, Change, sort_changes, column_lt}

pub record Snapshot : Type 0 where
  pub tables : List (TableKey × CatalogTable)
  pub columns : List (ColumnKey × CatalogColumn)
  pub seen_tables : List TableKey
  pub seen_columns : List ColumnKey

-- `byID`.
unfoldable pub index_ids : List (TableKey × CatalogTable) → List (Uuid × TableKey)
index_ids [] = []
index_ids ((k, t) ∷ tables) = (t.id, k) ∷ index_ids tables

-- The loop over the columns; a column of no known table is passed over.
unfoldable pub index_columns :
    List (Uuid × TableKey)
    → List ((Uuid × Text) × CatalogColumn)
    → List (ColumnKey × CatalogColumn)
    → List (ColumnKey × CatalogColumn)
index_columns by_id [] out = out
index_columns by_id (((table_id, name), column) ∷ columns) out =
    index_columns by_id columns
      (elim (lookup table_id by_id) [ none ↦ out | some owner ↦ insert (owner, name) column out ])

-- The rows of `Tables` are a map already, by their unique index.
unfoldable pub snapshot : Outage → Db → Result Text Snapshot
snapshot down db = elim (down list_tables) [
  | some why ↦ err why
  | none ↦ elim (down list_columns) [
    | some why ↦ err why
    | none ↦ ok (record {
      tables = db.tables;
      columns = index_columns (index_ids db.tables) db.columns [];
      seen_tables = [];
      seen_columns = [];
    })
  ]
]

-- Looking up marks as seen.
unfoldable pub see_table : Snapshot → TableKey → Snapshot
see_table s key = record s { seen_tables = key ∷ s.seen_tables }

unfoldable pub see_column : Snapshot → ColumnKey → Snapshot
see_column s key = record s { seen_columns = key ∷ s.seen_columns }

unfoldable pub missing_tables : List TableKey → List (TableKey × CatalogTable) → List Change
missing_tables seen [] = []
missing_tables seen ((key, table) ∷ tables) =
    let rest = missing_tables seen tables in
    if contains seen key || not (is_live table.removed_at)
    then rest
    else (record {
      kind = removed;
      schema = key.0;
      table = key.1;
      column = [];
      constraint = [];
      detail = [];
    })
      ∷ rest

unfoldable pub missing_columns : List ColumnKey → List (ColumnKey × CatalogColumn) → List Change
missing_columns seen [] = []
missing_columns seen ((key, column) ∷ columns) =
    let rest = missing_columns seen columns in
    if contains seen key || not (is_live column.removed_at)
    then rest
    else (record {
      kind = removed;
      schema = key.0.0;
      table = key.0.1;
      column = key.1;
      constraint = [];
      detail = [];
    })
      ∷ rest

unfoldable pub missing : Snapshot → List Change
missing s =
    sort_changes column_lt
      (missing_tables s.seen_tables s.tables ++ missing_columns s.seen_columns s.columns)
