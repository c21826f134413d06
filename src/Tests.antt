-- ===== src/Tests.antt =====
-- Runs of the services at concrete inputs: each child holds the examples of one part.
mod Ramps
mod Payments
mod Processor
mod Settlement
mod Chain
mod Wiring
mod Merchants
mod Rewards
mod Campaigns
mod Accounts
mod Cache
mod Auth
mod Common
mod Referrals
