-- ===== src/Catalog/Sync.antt =====
-- internal/catalog/sync.go: the source is read first, then what it reports is stored, and what it
-- does not report is marked gone.
pub mod Reconciled
pub mod Tables
use pivot.Common.{
  ℕ, suc, ◌+◌, Bool, true, false, not, ◌&&◌, Option, none, some, List, [], ◌∷◌, ◌++◌, Text, codes,
  decimal, nat_beq, nat_eq, text_eq, pair_eq, if◌then◌else◌, lookup, Result, ok, err,
}
use pivot.Authz.Model.{is_empty}
use pivot.Tenant.{Uuid}
use pivot.Catalog.Rows.{
  TableKey, ColumnKey, CatalogTable, CatalogColumn, Db, is_live, Outage, record_table,
  record_column, mark_gone,
}
use pivot.Catalog.Report.{
  ChangeKind, added, removed, changed, Change, Report, count_kind, SourceColumn, SourceTable,
  describe_column_change,
}
use pivot.Catalog.Snapshot.{Snapshot, snapshot, see_table, see_column, missing}
use pivot.Catalog.Relationships.{KeyReading, disagreement, reconcile_relationships}

abbrev pub returned : Text
returned = codes "was marked gone and has come back"

abbrev pub change_at : ChangeKind → ColumnKey → Text → Change
change_at kind key detail = record {
  kind = kind;
  schema = key.0.0;
  table = key.0.1;
  column = key.1;
  constraint = [];
  detail = detail;
}

-- The change of a table, from what was known of it.
unfoldable pub table_changes : TableKey → Option CatalogTable → List Change
table_changes key none = change_at added (key, []) [] ∷ []
table_changes key (some before) =
    if is_live before.removed_at then [] else change_at added (key, []) returned ∷ []

-- The change of a column, from what was known of it.
unfoldable pub column_changes : ColumnKey → SourceColumn → Option CatalogColumn → List Change
column_changes key column none = change_at added key [] ∷ []
column_changes key column (some before) =
    if not (is_live before.removed_at)
    then change_at added key returned ∷ []
    else (let detail = describe_column_change before column in
        if is_empty detail then [] else change_at changed key detail ∷ [])

-- What a sync carries from one object to the next.
pub record Run : Type 0 where
  pub db : Db
  pub shot : Snapshot
  pub report : Report

abbrev note : List Change → Report → Report
note changes report = record report { changes = report.changes ++ changes }

unfoldable pub reconcile_column :
    Outage → ℕ → TableKey → Uuid → Run → SourceColumn → Run × Option Text
reconcile_column down at table table_id run column =
    let key : ColumnKey = (table, column.name) in
    let recorded =
      record_column down run.db
        (record {
          table_id = table_id;
          name = column.name;
          source_type = column.source_type;
          canonical_type = column.kind;
          nullable = column.nullable;
          position = column.position;
          comment = column.comment;
        })
        at in
    let counted : Report = record run.report { columns_seen = run.report.columns_seen + 1 } in
    let seen : Run = record { db = recorded.0; shot = see_column run.shot key; report = counted } in
    elim recorded.1 [
      | err why ↦ (seen, some why)
      | ok row ↦ (
        record seen {
          report = note (column_changes key column (lookup key run.shot.columns)) counted;
        },
        none,
      )
    ]

unfoldable pub reconcile_columns :
    Outage → ℕ → TableKey → Uuid → Run → List SourceColumn → Run × Option Text
reconcile_columns down at table table_id run [] = (run, none)
reconcile_columns down at table table_id run (column ∷ columns) =
    let next = reconcile_column down at table table_id run column in
    elim next.1 [ some why ↦ next | none ↦ reconcile_columns down at table table_id next.0 columns ]

unfoldable pub reconcile : Outage → ℕ → Run → SourceTable → Run × Option Text
reconcile down at run table =
    let key : TableKey = (table.schema, table.name) in
    let recorded =
      record_table down run.db
        (record {
          schema = table.schema;
          name = table.name;
          table_type = table.table_type;
          comment = table.comment;
        })
        at in
    let counted : Report = record run.report { tables_seen = run.report.tables_seen + 1 } in
    let seen : Run = record { db = recorded.0; shot = see_table run.shot key; report = counted } in
    elim recorded.1 [
      | err why ↦ (seen, some why)
      | ok stored ↦
          reconcile_columns down at key stored.id
            (record seen { report = note (table_changes key (lookup key run.shot.tables)) counted })
            table.columns
    ]

unfoldable pub reconcile_all : Outage → ℕ → Run → List SourceTable → Run × Option Text
reconcile_all down at run [] = (run, none)
reconcile_all down at run (table ∷ tables) =
    let next = reconcile down at run table in
    elim next.1 [ some why ↦ next | none ↦ reconcile_all down at next.0 tables ]

abbrev pub empty_report : Report
empty_report = record {
  tables_seen = 0;
  columns_seen = 0;
  relationships_seen = 0;
  foreign_keys_unavailable = false;
  changes = [];
}

abbrev pub sweep_disagreement : ℕ → ℕ → Change
sweep_disagreement marked named = disagreement (
    codes "the sweep marked "
    ++ (decimal marked
        ++ (codes " objects gone and "
            ++ (decimal named
                ++ codes " were named; another sync may be running against this connection"))))

-- The end of `Sync`: the sweep, and what is missing.
unfoldable pub finish : Outage → ℕ → Run → Db × Result Text Report
finish down at run =
    let marked = mark_gone down run.db at in
    elim marked.1 [
      | err why ↦ (marked.0, err why)
      | ok (tables, columns) ↦
          let gone = missing run.shot in
          let named = count_kind gone removed in
          (
            marked.0,
            ok (
                note
                  (gone
                    ++ (if nat_beq named (tables + columns)
                        then []
                        else sweep_disagreement (tables + columns) named ∷ []))
                  run.report),
          )
    ]

-- `Sync`, with what the source answers.
unfoldable pub sync :
    Outage → ℕ → Result Text (List SourceTable) → KeyReading → Db → Db × Result Text Report
sync down at source keys db = elim (snapshot down db) [
  | err why ↦ (db, err why)
  | ok previous ↦ elim source [
    | err why ↦ (db, err why)
    | ok tables ↦
        let start : Run = record { db = db; shot = previous; report = empty_report } in
        let run = reconcile_all down at start tables in
        elim run.1 [
          | some why ↦ (run.0.db, err why)
          | none ↦
              let related = reconcile_relationships down at keys run.0.db run.0.report in
              elim related.1 [
                | err why ↦ (related.0, err why)
                | ok report ↦ finish down at (record run.0 { db = related.0; report = report })
              ]
        ]
  ]
]
