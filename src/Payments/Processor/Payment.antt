-- ===== src/Payments/Processor/Payment.antt =====
-- The end of `processTransaction`, its `catch`, and the whole of it:
-- apps/api/src/transaction-processor/transaction-processor.service.ts.
pub mod Moves
pub mod Runs
pub mod Steps
pub mod Quiet
pub mod Minting
pub mod Laws
use pay_era.Prelude.{
  ℕ, suc, zero, ◌+◌, ◌≡◌, Bool, true, false, not, ◌&&◌, ◌||◌, Option, none, some, List, [], ◌∷◌,
  ◌++◌, String, Result, ok, err, Action, Exception, failure, message, no_record, pure, raise, lift,
  gets, or_raise, modify, try_catch, ◌>>=◌, ◌>>◌, ◌==◌, ltb, leb, if◌then◌else◌, str_eq, or_else,
  or_option, filter, take, map, any,
}
use Prim.Native.String
use mathlib.Core.Option
use pay_era.Prelude.Table.{find_first, update_many}
use pay_era.Accounts.Store.{Wallet, WalletStatus}
use pay_era.Accounts.Kyc.{truthy}
use pay_era.Payments.Store.{
  AssetCode, TransactionStatus, SettlementStatus, RewardReason, RewardStatus, Merchant, LogData,
  AdminLog, Transaction, Settlement, Reward, Store, find_transaction, find_merchant,
  update_transaction, create_event, event_name, create_log,
}
use pay_era.Payments.Rates.{Numbers, price_or}
use pay_era.Payments.Transactions.{is_created}
use pay_era.Payments.Processor.Services.{
  PaymentArgs, QuoteArgs, SubmitArgs, Submitted, PayoutArgs, Payout, MintArgs, Services,
}
use pay_era.Payments.Processor.Work.{
  Minted, Work, on_store, completed_now, log_event, set_status, update_status, move_to, is_spend,
  is_unminted, is_active, is_reward_of, find_by_id, update_settlements, update_reward, zero_hash,
  failure_text,
}
use pay_era.Payments.Processor.Steps.{
  register_payment, get_usdc_rate, amount_at, quote_payment, convert, remember, set_submitted,
  record_submitted, amount_or_least, route, set_sent, pay_merchant, pay_vpa, pay_out_to,
  mark_settled, pay_out, set_minted, set_unminted, note_reward, mint_at, db_only, record_only,
  mint_one, mint_each, primary_wallet, pending_rewards, mint_rewards,
}

-- `id_text` gives the text of an id.
module _ (num : Numbers) (id_text : ℕ → String) (services : Services num) (now : ℕ) (attempt : ℕ)
    (tx : Transaction) where
  abbrev pub set_confirmed : Option String → Settlement → Settlement
  set_confirmed hash x = record x {
    status = SettlementStatus.confirmed;
    confirmed_at = some now;
    mock_reference = or_option hash x.mock_reference;
  }

  abbrev pub completed_log : String → ℕ → Minted → AdminLog
  completed_log hash ledger minted = record {
    actor_user_id = none;
    action = "TRANSACTION_COMPLETED";
    target_type = "TRANSACTION";
    target_id = tx.id;
    metadata = LogData.transaction_completed hash ledger attempt minted.star_amount;
  }

  abbrev pub log_completed : Option String → Option ℕ → Option Minted → Action Store (Unit {0})
  log_completed (some hash) (some ledger) (some minted) =
      if str_eq hash "" then pure tt else create_log (completed_log hash ledger minted)
  log_completed (some hash) (some ledger) none = pure tt
  log_completed (some hash) none minted = pure tt
  log_completed none ledger minted = pure tt

  -- What is written once the payment is completed.
  unfoldable pub confirm : Action Work (Unit {0})
  confirm = do
    hash ← gets (λ w. w.hash)
    on_store (update_settlements tx.id (set_confirmed hash))
    w ← gets (λ w. w)
    on_store (log_completed w.hash w.ledger w.reward_result)

  -- Step 7 behind the contract's call.
  unfoldable pub finish : Action Work (Unit {0})
  finish = move_to now tx.id TransactionStatus.completed >> confirm

  -- The body of the `try` up to the last call that can throw.
  unfoldable pub advance : Action Work (Unit {0})
  advance = do
    register_payment num id_text services now attempt tx
    quote_payment num id_text services now attempt tx
    convert num id_text services now attempt tx
    route num id_text services now attempt tx
    mark_settled num id_text services now attempt tx
    pay_out num id_text services now attempt tx
    mint_rewards num id_text services now attempt tx
    move_to now tx.id TransactionStatus.rewarding
    lift (services.complete_payment attempt tx.id)

  abbrev pub save_hash : Option String → Action Store (Unit {0})
  save_hash none = pure tt
  save_hash (some hash) =
      if str_eq hash ""
      then pure tt
      else try_catch
          (update_transaction tx.id (λ t. record t { stellar_transaction_hash = some hash })
            >> pure tt)
          (λ e. pure tt)

  -- Its `catch`.
  unfoldable pub give_up : Exception → Action Work (Unit {0})
  give_up e = do
    hash ← gets (λ w. w.hash)
    on_store (save_hash hash)
    on_store (
        update_status now tx.id TransactionStatus.failed (some "STELLAR_ERROR")
          (some (failure_text e)))

  abbrev pub fresh : Store → Work
  fresh s = record { store = s; hash = none; ledger = none; reward_result = none }

  unfoldable pub process_transaction : Action Store (Unit {0})
  process_transaction s =
      let (r, w) = try_catch (advance >> finish) give_up (fresh s) in (r, w.store)
