-- ===== src/Campaigns.antt =====
-- Campaigns of brands: apps/api/src/campaigns.
pub mod Store
pub mod Service
pub mod Analytics
