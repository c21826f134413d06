-- ===== src/Rewards.antt =====
-- Rewards: apps/api/src/rewards.
pub mod Store
pub mod Service
