-- ===== src/Payments/Processor/Work.antt =====
-- The tables and variables that the processor works on, and its database calls:
-- apps/api/src/transaction-processor/transaction-processor.service.ts.
use pay_era.Prelude.{
  ℕ, Bool, true, false, Option, none, some, List, String, ok, err, Action, Exception, message,
  no_record, modify, ◌>>◌, ◌==◌, if◌then◌else◌, str_eq, or_option,
}
use pay_era.Prelude.Table.{find_first, update_many}
use pay_era.Accounts.Store.{WalletStatus}
use pay_era.Payments.Store.{
  TransactionStatus, RewardReason, RewardStatus, Transaction, Settlement, Reward, Store,
  update_transaction, create_event, event_name,
}

-- `rewardResult`
pub record Minted : Type 0 where
  pub hash : String
  pub star_amount : ℕ

-- The tables, and the variables of `processTransaction` that its `catch` can see.
pub record Work : Type 0 where
  pub store : Store
  pub hash : Option String
  pub ledger : Option ℕ
  pub reward_result : Option Minted

-- A database call.
abbrev pub on_store : {A : Type 0} → Action Store A → Action Work A
on_store m w = let (r, s) = m w.store in (r, record w { store = s })

abbrev pub completed_now : ℕ → TransactionStatus → Option ℕ → Option ℕ
completed_now now TransactionStatus.completed old = some now
completed_now now TransactionStatus.created old = old
completed_now now TransactionStatus.quoted old = old
completed_now now TransactionStatus.authorized old = old
completed_now now TransactionStatus.converting old = old
completed_now now TransactionStatus.routing_stellar old = old
completed_now now TransactionStatus.settling old = old
completed_now now TransactionStatus.rewarding old = old
completed_now now TransactionStatus.failed old = old
completed_now now TransactionStatus.cancelled old = old

-- `logEvent`
abbrev pub log_event : ℕ → TransactionStatus → Action Store (Unit {0})
log_event id status = create_event id status (event_name status)

abbrev pub set_status :
    ℕ → TransactionStatus → Option String → Option String → Transaction → Transaction
set_status now status code text t = record t {
  status = status;
  completed_at = completed_now now status t.completed_at;
  failure_code = or_option code t.failure_code;
  failure_message = or_option text t.failure_message;
}

-- `updateStatus`
abbrev pub update_status :
    ℕ → ℕ → TransactionStatus → Option String → Option String → Action Store (Unit {0})
update_status now id status code text = do
  update_transaction id (set_status now status code text)
  log_event id status

-- `updateStatus` without a failure.
abbrev pub move_to : ℕ → ℕ → TransactionStatus → Action Work (Unit {0})
move_to now id status = on_store (update_status now id status none none)

abbrev pub is_spend : RewardReason → Bool
is_spend RewardReason.spend = true
is_spend RewardReason.referral = false
is_spend RewardReason.campaign = false
is_spend RewardReason.merchant = false

abbrev pub is_unminted : RewardStatus → Bool
is_unminted RewardStatus.pending = true
is_unminted RewardStatus.minted = false
is_unminted RewardStatus.failed = false
is_unminted RewardStatus.reversed = false

abbrev pub is_active : WalletStatus → Bool
is_active WalletStatus.active = true
is_active WalletStatus.disconnected = false
is_active WalletStatus.revoked = false

abbrev pub is_reward_of : ℕ → Reward → Bool
is_reward_of id r = elim r.transaction_id [ none ↦ false | some n ↦ n == id ]

abbrev pub find_by_id : {R : Type 0} → (R → ℕ) → Option ℕ → List R → Option R
find_by_id key none rows = none
find_by_id key (some id) rows = find_first (λ r. key r == id) rows

-- `settlementInstruction.updateMany({ where: { transactionId }, data })`
abbrev pub update_settlements : ℕ → (Settlement → Settlement) → Action Store (Unit {0})
update_settlements id f =
    modify
      (λ s. record s { settlements = update_many (λ x. x.transaction_id == id) f s.settlements })

-- `reward.update({ where: { id }, data })`
abbrev pub update_reward : ℕ → (Reward → Reward) → Action Store (Unit {0})
update_reward id f s = elim (find_first (λ r. r.id == id) s.rewards) [
  | none ↦ (err no_record, s)
  | some r ↦ (ok tt, record s { rewards = update_many (λ r. r.id == id) f s.rewards })
]

abbrev pub zero_hash : String
zero_hash = "0000000000000000000000000000000000000000000000000000000000000000"

-- `error.message || 'Unknown error during Stellar routing'`
abbrev pub failure_text : Exception → String
failure_text e = if str_eq (message e) "" then "Unknown error during Stellar routing" else message e
