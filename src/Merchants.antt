-- ===== src/Merchants.antt =====
-- Merchants and their review: apps/api/src/merchants and admin.
pub mod Store
pub mod Bodies
pub mod Service
pub mod Review
pub mod Requests
pub mod Approvers
pub mod Vouching
