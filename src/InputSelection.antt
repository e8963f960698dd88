-- ===== src/InputSelection.antt =====
-- Input selection (src/account/sync/input_selection.rs).
pub mod Types
pub mod Search
pub mod Draw
pub mod Select
