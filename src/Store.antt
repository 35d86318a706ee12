-- ===== src/Store.antt =====
-- The Redux store (src/store): the slices that the wallet's logic runs on, and the types of the
-- agent that they hold.
pub mod Types
pub mod StateCache
pub mod ProfilesCache
