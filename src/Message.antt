-- ===== src/Message.antt =====
-- Messages, transactions and transfers (src/message.rs).
pub mod Types
pub mod Transfer
pub mod Essence
