-- ===== src/Storage.antt =====
-- src/core/storage and src/core/agent/records/basic*.ts: records filed under their identifiers.
-- `StorageService` is the interface of storage.types.ts with the behaviour that its clients rely
-- on; `Storage.Ionic` implements it, and `Storage.Basic` is its client for basic records.
mod Types
pub mod Query
pub mod Ionic
pub mod Sqlite
pub mod Basic
pub mod Version
pub mod Sample
mod Tests
pub use Types.*
