-- ===== src/Chain.antt =====
-- The contracts and the network: apps/api/src/stellar.
pub mod Bytes
pub mod Soroban
pub mod Stellar
pub mod Wiring
