-- ===== src/Identifiers.antt =====
-- src/core/agent/services/identifierService.ts: the creation of identifiers, their
-- witnesses, the queue of their names, and the search for an identifier by its name.
mod Witnesses
mod Search
mod Naming
mod Network
mod Creation
mod Distinct
pub mod Immunity
pub mod Pages
pub mod Queue
pub mod Rerun
pub mod Sync
mod Tests
unfoldable pub use Witnesses.*
unfoldable pub use Search.*
unfoldable pub use Naming.*
unfoldable pub use Network.*
unfoldable pub use Creation.*
