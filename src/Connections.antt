-- ===== src/Connections.antt =====
-- src/core/agent/services/connectionService.ts, src/core/agent/records/contact*.ts and
-- connectionPair*.ts: the contacts that the wallet has on record, and which of its identifiers is
-- connected with which of them.
mod Storing
mod Service
mod Deleting
mod Syncing
pub mod Links
pub mod Steps
pub mod Reached
pub mod Synced
pub mod Listed
pub mod Removed
pub mod Tests
unfoldable pub use Storing.*
unfoldable pub use Service.*
unfoldable pub use Deleting.*
unfoldable pub use Syncing.*
