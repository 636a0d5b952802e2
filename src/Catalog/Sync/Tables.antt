-- ===== src/Catalog/Sync/Tables.antt =====
-- What a sync of internal/catalog/sync.go leaves of the tables: what the source reports is live, what
-- it does not is kept and marked gone.
use mathlib.Core.Option.{map}
use pivot.Common.{
  ℕ, ◌<◌, ◌≡◌, refl, ◌∙◌, inl, inr, Bool, true, false, Option, none, some, List, [], ◌∷◌, Eq,
  nat_eq, text_eq, pair_eq, if◌then◌else◌, lookup, ok, Bool-cases, Option-cases, Result-cases,
  arith,
}
use pivot.Auth.Store.{new_time}
use pivot.Catalog.Rows.{
  TableKey, CatalogTable, Db, is_live, Outage, sweep_table, map_rows, SeenForeignKey, KeyIdentity,
  CatalogForeignKey, sweep_columns, sweep_tables, upsert_key, record_foreign_key, mark_gone,
  mark_foreign_keys_gone,
}
use pivot.Catalog.Report.{Report, SourceTable}
use pivot.Catalog.Snapshot.{Snapshot, snapshot}
use pivot.Catalog.Relationships.{
  KeyReading, no_foreign_keys, failed, declared, KeyRun, is_new_key, add_relation, record_keys,
  reconcile_relationships,
}
use pivot.Catalog.Sync.{Run, reconcile_all, finish, sync, empty_report}
use pivot.Catalog.Sync.Reconciled.{
  reports, is_seen, origin, reconcile_all_seen, reconcile_all_unreported, origin-reconcile_all,
}

record_keys_tables :
    (down : Outage) (at : ℕ) (before : List (KeyIdentity × CatalogForeignKey)) (run : KeyRun)
    (keys : List SeenForeignKey)
    → (record_keys down at before run keys).0.db.tables ≡ run.db.tables
unfolding record_keys record_foreign_key
record_keys_tables down at before run [] = refl
record_keys_tables down at before run (key ∷ keys) =
    elim (Option-cases (down (upsert_key key.identity))) [
      | inr (why, e) ↦ ground arith
      | inl e ↦
          let recorded = record_foreign_key down run.db key at in
          let next : KeyRun = record {
            db = recorded.0;
            seen = key.identity ∷ run.seen;
            appeared =
                if is_new_key before key.identity
                then add_relation key.identity.0 run.appeared
                else run.appeared;
            present = add_relation key.identity.0 run.present;
          } in
          ground (arith, record_keys_tables down at before next keys)
    ]

relationships_tables :
    (down : Outage) (at : ℕ) (reading : KeyReading) (db : Db) (report : Report)
    → (reconcile_relationships down at reading db report).0.tables ≡ db.tables
unfolding reconcile_relationships mark_foreign_keys_gone
relationships_tables down at no_foreign_keys db report = refl
relationships_tables down at (failed why) db report = refl
relationships_tables down at (declared keys) db report =
    let start : KeyRun = record { db = db; seen = []; appeared = []; present = [] } in
    ground (arith, record_keys_tables down at db.keys start keys)

module _ {ℓ κ} {K : Type ℓ} {V : Type κ} ⦃e : Eq K⦄ where
  lookup-map_rows :
      (f : V → V) (k : K) (rows : List (K × V)) → lookup k (map_rows f rows) ≡ map f (lookup k rows)
  unfolding lookup map_rows
  lookup-map_rows f k [] = refl
  lookup-map_rows f k ((k', v) ∷ rows) = ground (arith, lookup-map_rows f k rows)

finish_tables :
    (down : Outage) (at : ℕ) (run : Run) (report : Report)
    → (finish down at run).1 ≡ ok report
    → (finish down at run).0.tables ≡ map_rows (sweep_table (new_time at)) run.db.tables
unfolding finish mark_gone
finish_tables down at run report h = elim (Option-cases (down sweep_columns)) [
  | inr (why, e) ↦ ground arith
  | inl e ↦ elim (Option-cases (down sweep_tables)) [
    | inr (why, e') ↦ ground arith
    | inl e' ↦ ground arith
  ]
]

-- What a sync that succeeds went through.
sync_tables :
    (down : Outage) (at : ℕ) (tables : List SourceTable) (keys : KeyReading) (db : Db)
    (report : Report)
    → (sync down at (ok tables) keys db).1 ≡ ok report
    → (shot : Snapshot) × (let run : Run = record { db = db; shot = shot; report = empty_report } in
        ((reconcile_all down at run tables).1 ≡ none)
        × ((key : TableKey)
            → lookup key (sync down at (ok tables) keys db).0.tables
              ≡ map
                  (sweep_table (new_time at))
                  (lookup key (reconcile_all down at run tables).0.db.tables)))
unfolding sync
sync_tables down at tables keys db report h = elim (Result-cases (snapshot down db)) [
  | inr (why, e) ↦ ground arith
  | inl (shot, e) ↦
      let start : Run = record { db = db; shot = shot; report = empty_report } in
      let run = reconcile_all down at start tables in
      elim (Option-cases run.1) [
        | inr (why, r) ↦ ground arith
        | inl r ↦
            let related = reconcile_relationships down at keys run.0.db run.0.report in
            elim (Result-cases related.1) [
              | inr (why, k) ↦ ground arith
              | inl (told, k) ↦
                  let last : Run = record run.0 { db = related.0; report = told } in
                  (
                    shot,
                    (
                      r,
                      λ key. ground (
                        arith,
                        finish_tables down at last report,
                        relationships_tables down at keys run.0.db run.0.report,
                        lookup-map_rows (sweep_table (new_time at)) key run.0.db.tables,
                      ),
                    ),
                  )
            ]
      ]
]

-- There is such a row, and it is live.
unfoldable pub is_listed : Option CatalogTable → Bool
is_listed none = false
is_listed (some row) = is_live row.removed_at

-- The rows were all seen before this stamp.
unfoldable pub IsBefore : Db → ℕ → Type 0
IsBefore db stamp =
    (key : TableKey) (row : CatalogTable)
    → lookup key db.tables ≡ some row
    → row.last_seen_at < stamp

sweep_seen :
    (stamp : ℕ) (row : Option CatalogTable)
    → is_seen stamp row ≡ true
    → is_listed (map (sweep_table stamp) row) ≡ true
unfolding is_seen is_listed sweep_table
sweep_seen stamp none h = ground arith
sweep_seen stamp (some row) h = ground arith

sweep_stale :
    (stamp : ℕ) (row : CatalogTable)
    → row.last_seen_at < stamp
    → is_listed (some (sweep_table stamp row)) ≡ false
unfolding is_listed sweep_table
sweep_stale stamp row h = ground arith

sweep-origin :
    (stamp : ℕ) (row : Option CatalogTable) → origin (map (sweep_table stamp) row) ≡ origin row
unfolding origin sweep_table
sweep-origin stamp none = refl
sweep-origin stamp (some row) = ground arith

-- When a sync succeeds, over rows that were last seen before its stamp, the tables that are live
-- afterwards are exactly the ones the source reports.
pub sync_tables_exact :
    (down : Outage) (at : ℕ) (tables : List SourceTable) (keys : KeyReading) (db : Db)
    (report : Report) (key : TableKey)
    → IsBefore db (new_time at)
    → (sync down at (ok tables) keys db).1 ≡ ok report
    → is_listed (lookup key (sync down at (ok tables) keys db).0.tables) ≡ reports tables key
unfolding IsBefore is_listed
sync_tables_exact down at tables keys db report key before h =
    let past = sync_tables down at tables keys db report h in
    let start : Run = record { db = db; shot = past.0; report = empty_report } in
    let after = lookup key (reconcile_all down at start tables).0.db.tables in
    rw (past.1.1 key) (elim (Bool-cases (reports tables key)) [
      | inl r ↦ rw r (
          sweep_seen (new_time at) after
            (ground (arith, reconcile_all_seen down at start tables key past.1.0)))
      | inr r ↦
          rw (r, reconcile_all_unreported down at start tables key past.1.0 r)
            (elim (Option-cases (lookup key db.tables)) [
              | inl gone ↦ rw gone refl
              | inr (row, there) ↦ rw there (sweep_stale (new_time at) row (before key row there))
            ])
    ])

-- A sync that succeeds never drops a table that had a row, and never mistakes one for another:
-- whether the source reports it or not, its row keeps its id and the time at which it was first
-- seen.
pub sync_keeps_tables :
    (down : Outage) (at : ℕ) (tables : List SourceTable) (keys : KeyReading) (db : Db)
    (report : Report) (key : TableKey) (old : CatalogTable)
    → (sync down at (ok tables) keys db).1 ≡ ok report
    → lookup key db.tables ≡ some old
    → origin (lookup key (sync down at (ok tables) keys db).0.tables) ≡ origin (some old)
sync_keeps_tables down at tables keys db report key old h there =
    let past = sync_tables down at tables keys db report h in
    let start : Run = record { db = db; shot = past.0; report = empty_report } in
    rw (past.1.1 key) (
      sweep-origin (new_time at) _
      ∙ origin-reconcile_all down at start tables key old past.1.0 there)
