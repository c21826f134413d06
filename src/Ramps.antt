-- ===== src/Ramps.antt =====
-- Fiat on- and off-ramps: apps/api/src/ramps.
pub mod Status
pub mod Provider
pub mod MoneyGram
pub mod Retry
pub mod Store
pub mod Initiation
pub mod Refresh
pub mod Reconciliation
pub mod Reading
pub mod History
