-- ===== src/Database.antt =====
-- internal/database/store.go: the tables, and the operations on them. A table is the list of its
-- rows in the order of insertion; a statement is the function that its SQL text describes, with the
-- constraints of the schema.
pub mod Schema
pub mod Snapshots
pub mod Blobs
pub mod Games
pub mod Locations
pub mod Backfill
pub mod Views
mod Tests
