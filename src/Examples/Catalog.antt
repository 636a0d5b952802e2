-- ===== src/Examples/Catalog.antt =====
-- internal/catalog on a small connection: one table that stays, one that has left, one that is new.
use pivot.Common.{
  ℕ, ◌≡◌, refl, true, none, some, List, [], ◌∷◌, Text, codes, lookup, insert, text_beq, pair_beq,
  contains, text_eq, pair_eq, ok, Result, arith,
}
use pivot.Catalog.Rows.{
  TableKey, CatalogTable, Db, Outage, merge_table, record_table, mark_gone, map_rows, count_rows,
  sweep_table,
}
use pivot.Catalog.Snapshot.{
  snapshot, index_ids, index_columns, see_table, see_column, missing_tables, missing_columns,
  missing,
}
use pivot.Auth.Store.{new_time}
use pivot.Catalog.Report.{
  added, removed, Report, SourceTable, count_kind, sort_changes, insert_change, column_lt,
}
use pivot.Catalog.Relationships.{no_foreign_keys, reconcile_relationships}
use pivot.Catalog.Sync.{
  change_at, table_changes, reconcile_columns, reconcile, reconcile_all, finish, sync,
}
use pivot.Catalog.Sync.Reconciled.{reports, origin}
use pivot.Catalog.Sync.Tables.{is_listed, IsBefore, sync_tables_exact, sync_keeps_tables}

no_outage : Outage
no_outage call = none

row_of : ℕ → CatalogTable
row_of id = record {
  id = id;
  table_type = codes "table";
  comment = [];
  first_seen_at = 1000000;
  last_seen_at = 1000000;
  removed_at = none;
  version = 1;
}

abbrev orders : TableKey
orders = (codes "public", codes "orders")

abbrev refunds : TableKey
refunds = (codes "public", codes "refunds")

abbrev users : TableKey
users = (codes "public", codes "users")

known : Db
known = record {
  tables = (orders, row_of 1) ∷ (refunds, row_of 2) ∷ [];
  columns = [];
  keys = [];
  fresh = 3;
}

abbrev found_table : TableKey → SourceTable
found_table key = record {
  schema = key.0;
  name = key.1;
  table_type = codes "table";
  comment = [];
  columns = [];
}

found : List SourceTable
found = found_table users ∷ found_table orders ∷ []

abbrev source : Result Text (List SourceTable)
source = ok found

program : Unit {0}
unfolding sync known row_of found no_outage snapshot index_ids index_columns see_table see_column
    missing_tables missing_columns missing reconcile_all reconcile reconcile_columns table_changes
    record_table merge_table reconcile_relationships finish mark_gone map_rows count_rows
    sweep_table count_kind lookup insert new_time text_beq pair_beq contains sort_changes
    insert_change column_lt
program = tt

abbrev told : Report
told = record {
  tables_seen = 2;
  columns_seen = 0;
  relationships_seen = 0;
  foreign_keys_unavailable = true;
  changes = change_at added (users, []) [] ∷ change_at removed (refunds, []) [] ∷ [];
}

known-IsBefore : IsBefore known (new_time 2000000)
unfolding IsBefore known row_of lookup new_time
known-IsBefore key row h = ground arith

succeeds : (sync no_outage 2000000 source no_foreign_keys known).1 ≡ ok told
unfolding program
succeeds = refl

sync_tables_exact_example :
    is_listed (lookup refunds (sync no_outage 2000000 source no_foreign_keys known).0.tables)
    ≡ reports found refunds
sync_tables_exact_example =
    sync_tables_exact no_outage 2000000 found no_foreign_keys known told refunds known-IsBefore
      succeeds

sync_keeps_tables_example :
    origin (lookup refunds (sync no_outage 2000000 source no_foreign_keys known).0.tables)
    ≡ origin (some (row_of 2))
unfolding known lookup pair_beq text_beq
sync_keeps_tables_example =
    sync_keeps_tables no_outage 2000000 found no_foreign_keys known told refunds (row_of 2) succeeds
      refl
