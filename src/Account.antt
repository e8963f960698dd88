-- ===== src/Account.antt =====
-- Accounts (src/account/mod.rs).
pub mod Types
pub mod Addresses
pub mod Balance
