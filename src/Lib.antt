-- ===== src/Lib.antt =====
-- PayEra, a payment application on Stellar: users pay merchants in INR from crypto wallets, earn
-- STAR rewards, and move money in and out through fiat ramps. Modelled are the services of the API
-- (apps/api/src) that move money and decide who may: logins and sessions, users and merchants,
-- payments, their processing, payouts, the ramps, rewards and campaigns, the contracts' calls and
-- the KYC checks.
--
-- The parts and their files:
--   Prelude: results with exceptions over a store, tables with the database client's queries
--     (Prelude/Table), numbered event logs (Prelude/Trail), lists and Boolean tests.
--   Common: the STAR formula (common/utils/rewards.ts) and pages (common/utils/pagination.ts,
--     common/interceptors/pagination.interceptor.ts).
--   Accounts: users, wallets and logs (prisma/schema.prisma), kyc/kyc.service.ts,
--     wallets/wallets.service.ts (Accounts/Wallets), aml/aml.service.ts (Accounts/Aml),
--     users/users.service.ts (Accounts/Users) and common/guards/roles.guard.ts (Accounts/Roles).
--   Auth: auth/auth.service.ts. The cache of nonces is an interface with laws (Auth/Cache); the
--     challenge (Auth/Nonces), the signature's check (Auth/Signature), the logins (Auth/Login) and
--     the refresh tokens (Auth/Tokens) use the tables of Accounts, and Auth/Session puts the requests
--     together.
--   Ramps: the life cycle of a ramp and MoneyGram's statuses (Ramps/Status), the provider contract
--     and registry (Ramps/Provider), the provider MONEYGRAM (Ramps/MoneyGram), withRetry
--     (Ramps/Retry), the tables (Ramps/Store), ramps/ramps.service.ts (Ramps/Initiation,
--     Ramps/Refresh) and ramps/ramp-reconciliation.service.ts (Ramps/Reconciliation). Ramps/Reading has the requests that only read, and Ramps/History puts
--     those that write together: any sequence of requests. The KYC
--     status that Accounts reports is what the ramps' gate reads.
--   Payments: the tables (Payments/Store), the rates and quotes (Payments/Rates) and the operations
--     (Payments/Creation, Payments/Transactions) of transactions/transactions.service.ts, and the job of
--     transaction-processor/transaction-processor.service.ts (Payments/Processor): what it calls
--     (Services), its database calls (Work), the steps of one payment (Steps, Payment), the claim,
--     the batch and the retries (Tick). Payments/Payouts is its poller of payouts,
--     Payments/Settlement is settlement/settlement.service.ts, whose status check the poller asks,
--     and Payments/Referrals is referrals/referrals.service.ts.
--   Chain: stellar/soroban.service.ts (Chain/Soroban; the ids of the contracts are Chain/Bytes) and
--     stellar/stellar.service.ts (Chain/Stellar). Chain/Wiring gives them and the payouts to the
--     processor of payments.
--   Merchants: merchants/merchants.service.ts (Merchants/Service) and the reviews of
--     admin/admin.service.ts (Merchants/Review), which call the contract by Chain.
--     Merchants/Requests puts both together, behind the roles guard.
--   Rewards: rewards/rewards.service.ts.
--   Campaigns: campaigns/campaigns.service.ts (Campaigns/Service, and Campaigns/Analytics for its
--     analytics, which reads the rewards).
--   Tests: the theorems at concrete inputs.
--
-- How the code is modelled: a service's operation is a function from a store to a result and a
-- store. An exception is an error result; what was written before it stays written, unless a
-- database transaction is open. A table is a list of rows in the order of insertion; ids are
-- numbers, as they are only compared, and the next id is the database's. The clock, random texts,
-- SHA-256, floating-point numbers (Payments/Rates, Numbers), the exchange rates' source, the ramp
-- providers and the services on the chain are arguments; those that can answer differently each
-- time take the number of the call. Loops are structural recursion on the rows or on the number of
-- attempts left, so all functions are total and no fuel is needed. Foreign keys are checked where a
-- reward is created and where a merchant joins a campaign; elsewhere the rows that a request names
-- are read first, or taken to exist.
--
-- Not modelled: of the services of apps/api/src, analytics, the lists and the overview of
-- admin, the lists and the tax report of transactions, the analytics of merchants and the
-- export of a user's data; the payloads of payment events, the delays between retries of a payment
-- and log output; the web framework's controllers and modules; how the Stellar SDK builds and signs
-- transactions; the contracts in Rust, the SDK and the web applications.
pub mod Prelude
pub mod Common
pub mod Accounts
pub mod Auth
pub mod Ramps
pub mod Payments
pub mod Chain
pub mod Merchants
pub mod Rewards
pub mod Campaigns
pub mod Tests
