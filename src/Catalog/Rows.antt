-- ===== src/Catalog/Rows.antt =====
-- internal/store/repo/catalog.go: the rows of one connection in one organization, with the
-- statements of internal/store/queries/postgres/catalog.sql. A table of rows is the map that its
-- unique index makes. `first_seen_at` and `last_seen_at` are the stamp of a sync.
use pivot.Common.{
  ℕ, suc, ◌+◌, Bool, true, false, ◌&&◌, Option, none, some, List, [], ◌∷◌, Text, ltb, nat_eq,
  text_eq, pair_eq, if◌then◌else◌, lookup, insert, Result, ok, err,
}
use pivot.Tenant.{Uuid}
use pivot.Auth.Store.{new_time}

abbrev pub TableKey : Type 0
TableKey = Text × Text

-- Schema, table and column.
abbrev pub ColumnKey : Type 0
ColumnKey = TableKey × Text

-- The table that declares a foreign key, the constraint, and the ordinal of the column.
abbrev pub RelationIdentity : Type 0
RelationIdentity = TableKey × Text

abbrev pub KeyIdentity : Type 0
KeyIdentity = RelationIdentity × ℕ

pub record CatalogTable : Type 0 where
  pub id : Uuid
  pub table_type : Text
  pub comment : Text
  pub first_seen_at : ℕ
  pub last_seen_at : ℕ
  pub removed_at : Option ℕ
  pub version : ℕ

pub record CatalogColumn : Type 0 where
  pub id : Uuid
  pub source_type : Text
  pub canonical_type : Text
  pub is_nullable : Bool
  pub position : ℕ
  pub comment : Text
  pub first_seen_at : ℕ
  pub last_seen_at : ℕ
  pub removed_at : Option ℕ
  pub version : ℕ

pub record CatalogForeignKey : Type 0 where
  pub id : Uuid
  pub from_column : Text
  pub to_schema : Text
  pub to_table : Text
  pub to_column : Text
  pub first_seen_at : ℕ
  pub last_seen_at : ℕ
  pub removed_at : Option ℕ
  pub version : ℕ

-- `fresh` is the next id.
pub record Db : Type 0 where
  pub tables : List (TableKey × CatalogTable)
  pub columns : List ((Uuid × Text) × CatalogColumn)
  pub keys : List (KeyIdentity × CatalogForeignKey)
  pub fresh : Uuid

pub record SeenTable : Type 0 where
  pub schema : Text
  pub name : Text
  pub table_type : Text
  pub comment : Text

pub record SeenColumn : Type 0 where
  pub table_id : Uuid
  pub name : Text
  pub source_type : Text
  pub canonical_type : Text
  pub nullable : Bool
  pub position : ℕ
  pub comment : Text

pub record SeenForeignKey : Type 0 where
  pub identity : KeyIdentity
  pub from_column : Text
  pub to_schema : Text
  pub to_table : Text
  pub to_column : Text

-- The statements. An outage names those that fail, and why; one that fails changes nothing.
pub data Call : Type 0 where
  list_tables list_columns list_keys sweep_columns sweep_tables sweep_keys : Call
  upsert_table : TableKey → Call
  upsert_column : Uuid → Text → Call
  upsert_key : KeyIdentity → Call

abbrev pub Outage : Type 0
Outage = Call → Option Text

abbrev pub is_live : Option ℕ → Bool
is_live removed_at = elim removed_at [ none ↦ true | some t ↦ false ]

-- ON CONFLICT: the row that an upsert leaves.
unfoldable pub merge_table : Uuid → SeenTable → ℕ → Option CatalogTable → CatalogTable
merge_table id seen stamp none = record {
  id = id;
  table_type = seen.table_type;
  comment = seen.comment;
  first_seen_at = stamp;
  last_seen_at = stamp;
  removed_at = none;
  version = 1;
}
merge_table id seen stamp (some row) = record row {
  table_type = seen.table_type;
  comment = seen.comment;
  last_seen_at = stamp;
  removed_at = none;
  version = row.version + 1;
}

unfoldable pub merge_column : Uuid → SeenColumn → ℕ → Option CatalogColumn → CatalogColumn
merge_column id seen stamp none = record {
  id = id;
  source_type = seen.source_type;
  canonical_type = seen.canonical_type;
  is_nullable = seen.nullable;
  position = seen.position;
  comment = seen.comment;
  first_seen_at = stamp;
  last_seen_at = stamp;
  removed_at = none;
  version = 1;
}
merge_column id seen stamp (some row) = record row {
  source_type = seen.source_type;
  canonical_type = seen.canonical_type;
  is_nullable = seen.nullable;
  position = seen.position;
  comment = seen.comment;
  last_seen_at = stamp;
  removed_at = none;
  version = row.version + 1;
}

unfoldable pub merge_key : Uuid → SeenForeignKey → ℕ → Option CatalogForeignKey → CatalogForeignKey
merge_key id seen stamp none = record {
  id = id;
  from_column = seen.from_column;
  to_schema = seen.to_schema;
  to_table = seen.to_table;
  to_column = seen.to_column;
  first_seen_at = stamp;
  last_seen_at = stamp;
  removed_at = none;
  version = 1;
}
merge_key id seen stamp (some row) = record row {
  from_column = seen.from_column;
  to_schema = seen.to_schema;
  to_table = seen.to_table;
  to_column = seen.to_column;
  last_seen_at = stamp;
  removed_at = none;
  version = row.version + 1;
}

-- The WHERE clause of a sweep.
abbrev pub is_swept : ℕ → ℕ → Option ℕ → Bool
is_swept stamp last_seen_at removed_at = ltb last_seen_at stamp && is_live removed_at

unfoldable pub sweep_table : ℕ → CatalogTable → CatalogTable
sweep_table stamp row =
    if is_swept stamp row.last_seen_at row.removed_at
    then record row { removed_at = some stamp; version = row.version + 1 }
    else row

unfoldable pub sweep_column : ℕ → CatalogColumn → CatalogColumn
sweep_column stamp row =
    if is_swept stamp row.last_seen_at row.removed_at
    then record row { removed_at = some stamp; version = row.version + 1 }
    else row

unfoldable pub sweep_key : ℕ → CatalogForeignKey → CatalogForeignKey
sweep_key stamp row =
    if is_swept stamp row.last_seen_at row.removed_at
    then record row { removed_at = some stamp; version = row.version + 1 }
    else row

-- UPDATE of every row, and the number of rows that a WHERE clause selects.
module _ {ℓ κ} {K : Type ℓ} {V : Type κ} where
  unfoldable pub map_rows : (V → V) → List (K × V) → List (K × V)
  map_rows f [] = []
  map_rows f ((k, v) ∷ rows) = (k, f v) ∷ map_rows f rows

  unfoldable pub count_rows : (V → Bool) → List (K × V) → ℕ
  count_rows p [] = 0
  count_rows p ((k, v) ∷ rows) = (if p v then 1 else 0) + count_rows p rows

module _ (down : Outage) where
  unfoldable pub record_table : Db → SeenTable → ℕ → Db × Result Text CatalogTable
  record_table db seen at = elim (down (upsert_table (seen.schema, seen.name))) [
    | some why ↦ (db, err why)
    | none ↦
        let row =
          merge_table db.fresh seen (new_time at) (lookup (seen.schema, seen.name) db.tables) in
        (
          record db {
            tables = insert (seen.schema, seen.name) row db.tables;
            fresh = suc db.fresh;
          },
          ok row,
        )
  ]

  unfoldable pub record_column : Db → SeenColumn → ℕ → Db × Result Text CatalogColumn
  record_column db seen at = elim (down (upsert_column seen.table_id seen.name)) [
    | some why ↦ (db, err why)
    | none ↦
        let row =
          merge_column db.fresh seen (new_time at) (lookup (seen.table_id, seen.name) db.columns) in
        (
          record db {
            columns = insert (seen.table_id, seen.name) row db.columns;
            fresh = suc db.fresh;
          },
          ok row,
        )
  ]

  unfoldable pub record_foreign_key : Db → SeenForeignKey → ℕ → Db × Result Text CatalogForeignKey
  record_foreign_key db seen at = elim (down (upsert_key seen.identity)) [
    | some why ↦ (db, err why)
    | none ↦
        let row = merge_key db.fresh seen (new_time at) (lookup seen.identity db.keys) in
        (record db { keys = insert seen.identity row db.keys; fresh = suc db.fresh }, ok row)
  ]

  -- `MarkGone`: the columns first, then the tables.
  unfoldable pub mark_gone : Db → ℕ → Db × Result Text (ℕ × ℕ)
  mark_gone db synced_at =
      let stamp = new_time synced_at in
      elim (down sweep_columns) [
        | some why ↦ (db, err why)
        | none ↦
            let swept : Db = record db { columns = map_rows (sweep_column stamp) db.columns } in
            elim (down sweep_tables) [
              | some why ↦ (swept, err why)
              | none ↦ (
                record swept { tables = map_rows (sweep_table stamp) db.tables },
                ok (
                  count_rows (λ row. is_swept stamp row.last_seen_at row.removed_at) db.tables,
                  count_rows (λ row. is_swept stamp row.last_seen_at row.removed_at) db.columns,
                ),
              )
            ]
      ]

  unfoldable pub mark_foreign_keys_gone : Db → ℕ → Db × Result Text ℕ
  mark_foreign_keys_gone db synced_at =
      let stamp = new_time synced_at in
      elim (down sweep_keys) [
        | some why ↦ (db, err why)
        | none ↦ (
          record db { keys = map_rows (sweep_key stamp) db.keys },
          ok (count_rows (λ row. is_swept stamp row.last_seen_at row.removed_at) db.keys),
        )
      ]
