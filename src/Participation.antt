-- ===== src/Participation.antt =====
-- Participation in voting and staking events (src/participation).
pub mod Types
