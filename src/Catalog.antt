-- ===== src/Catalog.antt =====
-- internal/catalog: Pivot's record of what is in a connected database, and its reconciliation with
-- what the source reports.
pub mod Rows
pub mod Report
pub mod Snapshot
pub mod Relationships
pub mod Sync
