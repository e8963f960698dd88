-- ===== src/Tests.antt =====
-- Runs of the definitions, and applications of the theorems at concrete inputs.
pub mod Wallet
pub mod Selection
mod Outputs
mod Locks
mod Accounts
mod Transfers
mod Synchronisation
mod Transactions
mod Storage
pub mod Node
mod Rounds
mod Manager
