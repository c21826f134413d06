-- ===== src/Common.antt =====
-- What the services of apps/api/src share: apps/api/src/common.
pub mod Pagination
pub mod Rewards
