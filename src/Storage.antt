-- ===== src/Storage.antt =====
-- The storage of accounts and messages (src/storage/mod.rs).
pub mod Types
pub mod Store
pub mod Messages
pub mod Accounts
pub mod Events
