-- ===== src/Migrations.antt =====
-- src/core/storage/sqliteStorage/migrations/, cloudMigrations/ and sqliteSession.ts: the migrations of
-- the database and of what KERIA keeps.
mod Pending
mod Local
mod Cloud
pub mod Position
pub mod Restarts
pub mod Once
pub mod Ordered
pub mod Tests
unfoldable pub use Pending.*
unfoldable pub use Local.*
unfoldable pub use Cloud.*
