-- ===== src/Storage/Sqlite.antt =====
-- src/core/storage/sqliteStorage/sqliteStorage.ts: tags as rows of a table, and queries as SQL.
mod Rows
mod Resolve
mod Where
mod Clean
mod Unknown
pub mod Resolved
mod Conditions
pub mod Tables
pub mod Matching
pub mod Queries
pub mod Scans
pub mod Shelf
mod Shelving
mod Refinement
pub mod Shelves
mod Tests
unfoldable pub use Rows.*
unfoldable pub use Resolve.*
unfoldable pub use Where.*
unfoldable pub use Conditions.*
