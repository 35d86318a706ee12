-- ===== src/Credentials.antt =====
-- src/core/agent/services/credentialService.ts and src/core/agent/records/credential*.ts: the
-- credentials that the wallet has on record, and those at KERIA.
mod Storing
mod Service
mod Syncing
pub mod Deletion
pub mod Marking
pub mod Sync
pub mod Blocked
pub mod Tests
unfoldable pub use Storing.*
unfoldable pub use Service.*
unfoldable pub use Syncing.*
