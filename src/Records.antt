-- ===== src/Records.antt =====
-- src/core/agent/records: the storages of the records of one class, over the storage service, and the
-- loop that reads a list page by page. The records of a class are a list without repetition of an
-- identifier, less the time of the last update; queries are tested as Ionic storage tests them
-- (Storage.Query). Storage.Sqlite.Shelves says how far the tables of SQLite storage come to the same.
mod Storing
pub mod Laws
pub mod Removal
pub mod Paging
pub mod Adding
unfoldable pub use Storing.*
