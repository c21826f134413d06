-- ===== src/Accounts.antt =====
-- Users, their wallets and what is recorded about them: apps/api/src/kyc, wallets, aml.
pub mod Store
pub mod Kyc
pub mod Wallets
pub mod Aml
pub mod Users
pub mod Roles
