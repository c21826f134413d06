-- ===== src/Payments/Processor.antt =====
-- The job that takes created payments through the chain and the payout:
-- apps/api/src/transaction-processor/transaction-processor.service.ts.
pub mod Services
pub mod Work
pub mod Steps
pub mod Payment
pub mod Tick
