-- ===== src/Address.antt =====
-- Addresses and the outputs that they hold (src/address.rs).
pub mod Types
pub mod Outputs
pub mod Builder
pub mod Generate
