-- ===== src/Routes.antt =====
-- src/routes and `updateReduxState` of src/store/utils.ts: which page follows a page, which one is
-- behind it, and the changes of the store that go with it.
mod Paths
mod Next
mod Back
pub mod Onboarding
pub mod History
mod Tests
unfoldable pub use Paths.*
unfoldable pub use Next.*
unfoldable pub use Back.*
