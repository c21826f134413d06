-- ===== src/Payments/Processor/Tick.antt =====
-- The job that claims the payments and processes them, with its retries:
-- apps/api/src/transaction-processor/transaction-processor.service.ts.
pub mod Laws
use pay_era.Prelude.{
  ℕ, suc, zero, ◌+◌, ◌≡◌, Bool, true, false, not, ◌&&◌, ◌||◌, Option, none, some, List, [], ◌∷◌,
  ◌++◌, String, Result, ok, err, Action, Exception, failure, message, no_record, pure, raise, lift,
  gets, or_raise, modify, try_catch, ◌>>=◌, ◌>>◌, ◌==◌, ltb, leb, if◌then◌else◌, str_eq, or_else,
  or_option, filter, take, map, any,
}
use Prim.Native.String
use mathlib.Core.Option
use pay_era.Prelude.Table.{find_first, update_many}
use pay_era.Accounts.Store.{Wallet, WalletStatus}
use pay_era.Accounts.Kyc.{truthy}
use pay_era.Payments.Store.{
  AssetCode, TransactionStatus, SettlementStatus, RewardReason, RewardStatus, Merchant, LogData,
  AdminLog, Transaction, Settlement, Reward, Store, find_transaction, find_merchant,
  update_transaction, create_event, event_name, create_log,
}
use pay_era.Payments.Rates.{Numbers, price_or}
use pay_era.Payments.Transactions.{is_created}
use pay_era.Payments.Processor.Services.{
  PaymentArgs, QuoteArgs, SubmitArgs, Submitted, PayoutArgs, Payout, MintArgs, Services,
}
use pay_era.Payments.Processor.Payment.{
  set_confirmed, completed_log, log_completed, finish, advance, save_hash, give_up, fresh,
  process_transaction,
}

module _ (num : Numbers) (id_text : ℕ → String) (services : Services num) (now : ℕ) where
  abbrev pub set_exhausted : ℕ → Exception → Transaction → Transaction
  set_exhausted attempt e t = record t {
    status = TransactionStatus.failed;
    failure_code = some "MAX_RETRIES_EXCEEDED";
    failure_message = some (String.◌++◌ "Failed after 3 attempts. Last error: " (message e));
    retry_attempts = some attempt;
  }

  -- `processTransactionWithRetry` with `left` retries left; the delays are not modelled.
  unfoldable pub process_from : ℕ → ℕ → Transaction → Action Store (Unit {0})
  process_from zero attempt tx =
      try_catch (process_transaction num id_text services now attempt tx)
        (λ e. update_transaction tx.id (set_exhausted attempt e) >> pure tt)
  process_from (suc left) attempt tx =
      try_catch (process_transaction num id_text services now attempt tx)
        (λ e. process_from left (attempt + 1) tx)

  unfoldable pub process_with_retry : Transaction → Action Store (Unit {0})
  unfolding process_from
  process_with_retry = process_from 2 1

  abbrev pub is_claimable : Transaction → Bool
  is_claimable t = is_created t.status && ltb now t.expires_at

  abbrev pub set_claimed : Transaction → Transaction
  set_claimed t = record t { status = TransactionStatus.authorized; authorized_at = some now }

  abbrev pub is_authorized : TransactionStatus → Bool
  is_authorized TransactionStatus.authorized = true
  is_authorized TransactionStatus.created = false
  is_authorized TransactionStatus.quoted = false
  is_authorized TransactionStatus.converting = false
  is_authorized TransactionStatus.routing_stellar = false
  is_authorized TransactionStatus.settling = false
  is_authorized TransactionStatus.rewarding = false
  is_authorized TransactionStatus.completed = false
  is_authorized TransactionStatus.failed = false
  is_authorized TransactionStatus.cancelled = false

  -- `authorizedAt: { gte: now - 6000 }`, without subtraction; a column without a value is not.
  abbrev pub since : Option ℕ → Bool
  since none = false
  since (some at) = leb now (at + 6000)

  -- The payments that a tick takes.
  unfoldable pub claimed_batch : List Transaction → List Transaction
  claimed_batch ts = take 10 (filter (λ t. is_authorized t.status && since t.authorized_at) ts)

  unfoldable pub process_each : List Transaction → Action Store (Unit {0})
  process_each [] = pure tt
  process_each (t ∷ ts) = process_with_retry t >> process_each ts

  abbrev pub claim : Store → Store
  claim s = record s { transactions = update_many is_claimable set_claimed s.transactions }

  -- `handlePendingTransactions`
  unfoldable pub handle_pending_transactions : Action Store (Unit {0})
  handle_pending_transactions s =
      if any is_claimable s.transactions
      then process_each (claimed_batch (claim s).transactions) (claim s)
      else (ok tt, s)
