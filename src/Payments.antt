-- ===== src/Payments.antt =====
-- Payments from quote to settlement: apps/api/src/transactions and transaction-processor.
pub mod Store
pub mod Rates
pub mod Transactions
pub mod Creation
pub mod Processor
pub mod Payouts
pub mod Settlement
pub mod Referrals
