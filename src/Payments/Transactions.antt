-- ===== src/Payments/Transactions.antt =====
-- apps/api/src/transactions/transactions.service.ts: reading, cancelling and failing a payment.
pub mod Access
pub mod Ending
use pay_era.Prelude.{
  ℕ, ◌+◌, Bool, true, false, not, ◌&&◌, ◌||◌, Option, none, some, List, [], ◌∷◌, ◌++◌, String,
  Result, ok, err, Action, bad_request, forbidden, not_found, pure, raise, lift, gets, or_raise,
  raise_if, modify, ◌>>=◌, ◌>>◌, ◌==◌, if◌then◌else◌, or_else, or_option, is_some, filter, length,
}
use Prim.Native.String
use mathlib.Core.Option
use pay_era.Prelude.Table.{find_first}
use pay_era.Common.Rewards.{calculate_spend_reward_star}
use pay_era.Common.Pagination.{list_page}
use pay_era.Accounts.Store.{Principal, is_admin, Wallet}
use pay_era.Payments.Store.{
  AssetCode, TransactionStatus, MerchantStatus, SettlementStatus, RewardReason, RewardStatus,
  Merchant, MerchantQrCode, LogData, AdminLog, Transaction, Settlement, Reward, Store,
  find_transaction, find_merchant, set_transaction, update_transaction, create_event, create_log,
  next_event,
}
use pay_era.Payments.Rates.{Numbers, Rates, Quote, create_quote}

-- `FailTransactionDto`
pub record FailTransaction : Type 0 where
  pub failure_code : String
  pub failure_message : Option String

abbrev pub is_created : TransactionStatus → Bool
is_created TransactionStatus.created = true
is_created TransactionStatus.quoted = false
is_created TransactionStatus.authorized = false
is_created TransactionStatus.converting = false
is_created TransactionStatus.routing_stellar = false
is_created TransactionStatus.settling = false
is_created TransactionStatus.rewarding = false
is_created TransactionStatus.completed = false
is_created TransactionStatus.failed = false
is_created TransactionStatus.cancelled = false

abbrev pub is_completed : TransactionStatus → Bool
is_completed TransactionStatus.completed = true
is_completed TransactionStatus.created = false
is_completed TransactionStatus.quoted = false
is_completed TransactionStatus.authorized = false
is_completed TransactionStatus.converting = false
is_completed TransactionStatus.routing_stellar = false
is_completed TransactionStatus.settling = false
is_completed TransactionStatus.rewarding = false
is_completed TransactionStatus.failed = false
is_completed TransactionStatus.cancelled = false

abbrev pub same_id : Option ℕ → ℕ → Bool
same_id none b = false
same_id (some a) b = a == b

abbrev pub owner_of : Option Merchant → Option ℕ
owner_of none = none
owner_of (some m) = m.owner_user_id

-- `accessWhere`: an administrator sees every payment, anybody else those that they made and those
-- to a merchant of theirs.
unfoldable pub is_visible : Principal → Store → Transaction → Bool
is_visible owner s t =
    is_admin owner.role
    || t.user_id == owner.id
    || same_id (owner_of (find_merchant t.merchant_id s.merchants)) owner.id

-- `findOne`
unfoldable pub find_one : Principal → ℕ → Action Store Transaction
unfolding is_visible
find_one owner id s = elim (find_first (λ t. t.id == id && is_visible owner s t) s.transactions) [
  | none ↦ (err (not_found "Transaction not found"), s)
  | some t ↦ (ok t, s)
]

-- `cancel`
unfoldable pub cancel : Principal → ℕ → Action Store Transaction
cancel owner id = do
  t ← find_one owner id
  raise_if (not (is_created t.status)) (bad_request "Only created transactions can be cancelled")
  create_event id TransactionStatus.cancelled "transaction.cancelled"
  update_transaction id (λ t. record t { status = TransactionStatus.cancelled })

-- `fail`
unfoldable pub fail : Principal → ℕ → FailTransaction → Action Store Transaction
fail owner id dto = do
  t ← find_one owner id
  raise_if (is_completed t.status) (bad_request "Completed transactions cannot be failed")
  create_event id TransactionStatus.failed "transaction.failed"
  update_transaction id (λ t. record t {
    failure_code = some dto.failure_code;
    failure_message = dto.failure_message;
    status = TransactionStatus.failed;
  })
