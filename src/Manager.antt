-- ===== src/Manager.antt =====
-- The account manager (src/account_manager.rs), and the creation of accounts (src/account/mod.rs).
pub mod Accounts
pub mod Initialise
pub mod Discovery
pub mod Removal
