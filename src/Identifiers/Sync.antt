-- ===== src/Identifiers/Sync.antt =====
-- `syncKeriaIdentifiers`, with `IdentifierMetadataRecord` and `IdentifierStorage`.
mod Storing
mod Service
pub mod Laws
mod Tests
unfoldable pub use Storing.*
unfoldable pub use Service.*
