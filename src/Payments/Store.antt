-- ===== src/Payments/Store.antt =====
-- The tables of a payment (apps/api/prisma/schema.prisma) with the columns that the services read
-- or write. Times are milliseconds, amounts are paise; Decimal columns are kept as their text. Of
-- the JSON columns, the payloads of events are left out; `retry_attempts`, `settlement_status`,
-- `utr_number` and `last_polled_at` are the keys of the metadata that are written.
pub mod Invariant
use pay_era.Prelude.{
  ℕ, ◌+◌, Bool, true, false, ◌||◌, ◌&&◌, Option, none, some, List, [], ◌∷◌, ◌++◌, String, ok, err,
  Action, no_record, ◌==◌,
}
use pay_era.Prelude.Table.{find_first, update_many}
use pay_era.Prelude.Trail.{max_sequence}
use pay_era.Accounts.Store.{Wallet}

pub data AssetCode : Type 0 where
  eth btc sol xlm usdc inr : AssetCode

pub data TransactionStatus : Type 0 where
  created quoted authorized converting routing_stellar settling rewarding completed failed
        cancelled :
      TransactionStatus

pub data MerchantStatus : Type 0 where
  pending approved rejected suspended : MerchantStatus

pub data SettlementStatus : Type 0 where
  pending sent confirmed failed : SettlementStatus

pub data RewardReason : Type 0 where
  spend referral campaign merchant : RewardReason

pub data RewardStatus : Type 0 where
  pending minted failed reversed : RewardStatus

pub record Merchant : Type 0 where
  pub id : ℕ
  pub owner_user_id : Option ℕ
  pub status : MerchantStatus
  pub display_name : String
  pub default_upi_vpa : Option String

pub record MerchantQrCode : Type 0 where
  pub id : ℕ
  pub merchant_id : ℕ
  pub is_active : Bool
  pub upi_vpa : String
  pub qr_payload_hash : String

pub record Transaction : Type 0 where
  pub id : ℕ
  pub public_id : String
  pub user_id : ℕ
  pub wallet_id : Option ℕ
  pub merchant_id : ℕ
  pub merchant_qr_code_id : Option ℕ
  pub campaign_id : Option ℕ
  pub status : TransactionStatus
  pub asset_in : AssetCode
  pub amount_in_paise : ℕ
  pub merchant_settlement_paise : ℕ
  pub network_fee_paise : ℕ
  pub amount_in_crypto : Option String
  pub usdc_amount : String
  pub quote_rate_inr_per_asset : String
  pub merchant_upi_vpa : String
  pub qr_payload_hash : Option String
  pub expires_at : ℕ
  pub authorized_at : Option ℕ
  pub completed_at : Option ℕ
  pub stellar_transaction_hash : Option String
  pub stellar_ledger : Option ℕ
  pub failure_code : Option String
  pub failure_message : Option String
  pub retry_attempts : Option ℕ

pub record TransactionEvent : Type 0 where
  pub transaction_id : ℕ
  pub sequence : ℕ
  pub status : TransactionStatus
  pub event_type : String

pub record Settlement : Type 0 where
  pub id : ℕ
  pub transaction_id : ℕ
  pub merchant_id : ℕ
  pub amount_paise : ℕ
  pub status : SettlementStatus
  pub settlement_reference : Option String
  pub mock_reference : Option String
  pub failure_reason : Option String
  pub confirmed_at : Option ℕ
  pub settlement_status : Option String
  pub utr_number : Option String
  pub last_polled_at : Option ℕ

pub record Reward : Type 0 where
  pub id : ℕ
  pub user_id : ℕ
  pub transaction_id : Option ℕ
  pub reason : RewardReason
  pub star_amount : ℕ
  pub formula_version : String
  pub status : RewardStatus
  pub minted_at : Option ℕ
  pub stellar_mint_hash : Option String

-- The metadata of the two kinds of administrator logs that payments write.
pub data LogData : Type 0 where
  transaction_created :
      (merchant_id : ℕ) (asset_in : AssetCode) (amount_in_paise : ℕ) (public_id : String) → LogData
  transaction_completed :
      (stellar_hash : String) (ledger : ℕ) (processor_attempt : ℕ) (star_amount : ℕ) → LogData

pub record AdminLog : Type 0 where
  pub actor_user_id : Option ℕ
  pub action : String
  pub target_type : String
  pub target_id : ℕ
  pub metadata : LogData

-- `next_id` is the id that the database gives to the next row of any of the tables.
pub record Store : Type 0 where
  pub merchants : List Merchant
  pub qr_codes : List MerchantQrCode
  pub wallets : List Wallet
  pub transactions : List Transaction
  pub events : List TransactionEvent
  pub settlements : List Settlement
  pub rewards : List Reward
  pub logs : List AdminLog
  pub next_id : ℕ

abbrev pub key : Transaction → ℕ
key t = t.id

abbrev pub owner : TransactionEvent → ℕ
owner e = e.transaction_id

abbrev pub number : TransactionEvent → ℕ
number e = e.sequence

abbrev pub find_transaction : ℕ → List Transaction → Option Transaction
find_transaction id = find_first (λ t. t.id == id)

abbrev pub find_merchant : ℕ → List Merchant → Option Merchant
find_merchant id = find_first (λ m. m.id == id)

abbrev pub set_transaction : ℕ → (Transaction → Transaction) → Store → Store
set_transaction id f s = record s { transactions = update_many (λ t. t.id == id) f s.transactions }

-- `transaction.update({ where: { id }, data })`
abbrev pub update_transaction : ℕ → (Transaction → Transaction) → Action Store Transaction
update_transaction id f s = elim (find_transaction id s.transactions) [
  | none ↦ (err no_record, s)
  | some t ↦ (ok (f t), set_transaction id f s)
]

-- The next event of a payment: `nextEventSequence`, and the number that `logEvent` computes.
abbrev pub next_event : ℕ → TransactionStatus → String → Store → TransactionEvent
next_event id status event_type s = record {
  transaction_id = id;
  sequence = max_sequence owner number id s.events + 1;
  status = status;
  event_type = event_type;
}

abbrev pub add_event : ℕ → TransactionStatus → String → Store → Store
add_event id status event_type s = record s {
  events = s.events ++ next_event id status event_type s ∷ [];
}

-- `transactionEvent.create({ data })`
abbrev pub create_event : ℕ → TransactionStatus → String → Action Store (Unit {0})
create_event id status event_type s = (ok tt, add_event id status event_type s)

-- `` `transaction.${status.toLowerCase()}` ``
abbrev pub event_name : TransactionStatus → String
event_name TransactionStatus.created = "transaction.created"
event_name TransactionStatus.quoted = "transaction.quoted"
event_name TransactionStatus.authorized = "transaction.authorized"
event_name TransactionStatus.converting = "transaction.converting"
event_name TransactionStatus.routing_stellar = "transaction.routing_stellar"
event_name TransactionStatus.settling = "transaction.settling"
event_name TransactionStatus.rewarding = "transaction.rewarding"
event_name TransactionStatus.completed = "transaction.completed"
event_name TransactionStatus.failed = "transaction.failed"
event_name TransactionStatus.cancelled = "transaction.cancelled"

abbrev pub create_log : AdminLog → Action Store (Unit {0})
create_log l s = (ok tt, record s { logs = s.logs ++ l ∷ [] })
