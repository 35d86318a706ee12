-- ===== src/Notifications.antt =====
-- src/core/agent/services/keriaNotificationService.ts: the loop that polls the notifications of
-- KERIA, and the retry of those that could not be processed.
mod Poller
mod Retry
pub mod Slices
mod Steps
pub mod Rounds
pub mod Failures
mod Tests
unfoldable pub use Poller.*
unfoldable pub use Retry.*
