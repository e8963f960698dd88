-- ===== src/Sync.antt =====
-- Account synchronisation and transfers (src/account/sync/mod.rs).
pub mod Locks
pub mod SelectInputs
pub mod Collect
pub mod Remainder
pub mod Dust
pub mod Events
pub mod Discovery
pub mod Consolidation
pub mod Start
pub mod Node
pub mod Gap
pub mod Refresh
pub mod Missing
pub mod Perform
pub mod Execute
