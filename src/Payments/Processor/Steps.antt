-- ===== src/Payments/Processor/Steps.antt =====
-- The steps of one payment in `processTransaction`:
-- apps/api/src/transaction-processor/transaction-processor.service.ts.
-- The clock is read once for a payment.
use pay_era.Prelude.{
  ℕ, ◌&&◌, Option, none, some, List, [], ◌∷◌, String, Result, ok, err, Action, failure, pure, lift,
  gets, or_raise, modify, try_catch, ◌>>=◌, ◌>>◌, ◌==◌, if◌then◌else◌, str_eq, or_else, or_option,
  filter, map,
}
use Prim.Native.String
use mathlib.Core.Option
use pay_era.Prelude.Table.{find_first}
use pay_era.Accounts.Store.{Wallet}
use pay_era.Payments.Store.{
  TransactionStatus, SettlementStatus, RewardStatus, Merchant, Transaction, Settlement, Reward,
  Store, find_merchant, update_transaction,
}
use pay_era.Payments.Rates.{Numbers, price_or}
use pay_era.Payments.Processor.Services.{Submitted, Payout, Services}
use pay_era.Payments.Processor.Work.{
  Work, on_store, log_event, move_to, is_spend, is_unminted, is_active, is_reward_of, find_by_id,
  update_settlements, update_reward, zero_hash,
}

-- `id_text` gives the text of an id.
module _ (num : Numbers) (id_text : ℕ → String) (services : Services num) (now : ℕ) (attempt : ℕ)
    (tx : Transaction) where
  unfoldable pub create_payment : Action Work (Unit {0})
  create_payment = do
    reward? ←
        gets (λ w. find_first (λ r. is_reward_of tx.id r && is_spend r.reason) w.store.rewards)
    reward ← or_raise reward? (failure "No spend reward found for transaction")
    qr ← gets (λ w. find_by_id (λ q. q.id) tx.merchant_qr_code_id w.store.qr_codes)
    wallet ← gets (λ w. find_by_id (λ x. x.id) tx.wallet_id w.store.wallets)
    lift (
        services.create_payment attempt (record {
          payment_id = tx.id;
          payer = or_else (Option.map (λ x. x.address) wallet) "";
          merchant_id = tx.merchant_id;
          asset = tx.asset_in;
          amount_in_paise = tx.amount_in_paise;
          qr_hash =
              or_else (or_option (Option.map (λ q. q.qr_payload_hash) qr) tx.qr_payload_hash)
                zero_hash;
          reward_id = reward.id;
        }))
    move_to now tx.id TransactionStatus.quoted

  -- Step 1: the payment on the contract.
  unfoldable pub register_payment : Action Work (Unit {0})
  register_payment = move_to now tx.id TransactionStatus.authorized >> create_payment

  -- `getUsdcRate`
  unfoldable pub get_usdc_rate : num.Number
  get_usdc_rate = elim (services.usdc_price attempt tx.id) [
    | ok price ↦ price_or num price 83
    | err e ↦ num.of_nat 83
  ]

  -- `BigInt(Math.round((Number(amountInPaise) / 100) / rate * unit))`
  abbrev pub amount_at : num.Number → ℕ → Result ℕ
  amount_at rate unit =
      elim (num.rounded (
        num.mul (num.div (num.div (num.of_nat tx.amount_in_paise) (num.of_nat 100)) rate)
          (num.of_nat unit))) [
            | none ↦
                err (
                  failure "The number cannot be converted to a BigInt because it is not an integer")
            | some n ↦ ok n
          ]

  -- Step 2: the quote on the contract.
  unfoldable pub quote_payment : Action Work (Unit {0})
  quote_payment = do
    usdc_amount ← lift (amount_at get_usdc_rate 1_000_000)
    asset_amount ← lift (amount_at (num.parse tx.quote_rate_inr_per_asset) 10_000_000)
    lift (
        services.quote_payment attempt (record {
          payment_id = tx.id;
          asset_amount = asset_amount;
          usdc_amount = usdc_amount;
          network_fee_paise = 0;
        }))
    move_to now tx.id TransactionStatus.converting

  -- Step 3: the conversion on the contract.
  unfoldable pub convert : Action Work (Unit {0})
  convert = do
    lift (services.mark_converted attempt tx.id)
    move_to now tx.id TransactionStatus.routing_stellar

  abbrev pub remember : Submitted → Action Work (Unit {0})
  remember r = modify (λ w. record w { hash = some r.hash; ledger = some r.ledger })

  abbrev pub set_submitted : Submitted → Transaction → Transaction
  set_submitted r t = record t {
    status = TransactionStatus.settling;
    stellar_transaction_hash = some r.hash;
    stellar_ledger = some r.ledger;
  }

  -- The row and the event of a payment that is on the chain.
  unfoldable pub record_submitted : Submitted → Action Work (Unit {0})
  record_submitted r =
      on_store
        (do update_transaction tx.id (set_submitted r); log_event tx.id TransactionStatus.settling)

  -- `amountInCrypto?.toString() || '0.0000001'`
  abbrev pub amount_or_least : Option String → String
  amount_or_least none = "0.0000001"
  amount_or_least (some a) = if str_eq a "" then "0.0000001" else a

  -- Step 4: the payment on Stellar.
  unfoldable pub route : Action Work (Unit {0})
  route = do
    r ← lift (
        services.submit_payment attempt (record {
          transaction_public_id = tx.public_id;
          asset_code = tx.asset_in;
          amount_crypto = amount_or_least tx.amount_in_crypto;
        }))
    remember r
    record_submitted r

  abbrev pub set_sent : Payout → Settlement → Settlement
  set_sent p x = record x {
    status = SettlementStatus.sent;
    settlement_reference = some p.transaction_id;
    settlement_status = some p.status;
    utr_number = none;
    last_polled_at = none;
  }

  abbrev pub pay_merchant : Merchant → String → Action Work (Unit {0})
  pay_merchant merchant vpa = do
    p ← lift (
        services.initiate_upi_payout attempt (record {
          reference_id = String.◌++◌ "SETTLE_" (id_text tx.id);
          amount_paise = tx.amount_in_paise;
          merchant_upi_vpa = vpa;
          merchant_name = merchant.display_name;
          purpose = String.◌++◌ "Payment settlement for transaction " tx.public_id;
        }))
    on_store (update_settlements tx.id (set_sent p))

  abbrev pub pay_vpa : Merchant → Option String → Action Work (Unit {0})
  pay_vpa merchant none = pure tt
  pay_vpa merchant (some vpa) = if str_eq vpa "" then pure tt else pay_merchant merchant vpa

  -- Step 5.5: the payout, for a merchant with a VPA.
  abbrev pub pay_out_to : Option Merchant → Action Work (Unit {0})
  pay_out_to none = pure tt
  pay_out_to (some merchant) = pay_vpa merchant merchant.default_upi_vpa

  unfoldable pub pay_out : Action Work (Unit {0})
  pay_out = do
    merchant ← gets (λ w. find_merchant tx.merchant_id w.store.merchants)
    pay_out_to merchant

  -- Step 5: the settlement on the contract.
  unfoldable pub mark_settled : Action Work (Unit {0})
  mark_settled = do
    lift (services.mark_settled attempt tx.id)
    move_to now tx.id TransactionStatus.settling

  abbrev pub set_minted : String → Reward → Reward
  set_minted hash r = record r {
    status = RewardStatus.minted;
    minted_at = some now;
    stellar_mint_hash = some hash;
  }

  abbrev pub set_unminted : Reward → Reward
  set_unminted r = record r { status = RewardStatus.failed; stellar_mint_hash = none }

  abbrev pub note_reward : String → Reward → Action Work (Unit {0})
  note_reward hash r =
      modify (λ w. record w {
        reward_result = some (record { hash = hash; star_amount = r.star_amount });
      })

  abbrev pub mint_at : Reward → String → Action Work (Unit {0})
  mint_at r address = do
    hash ← lift (
        services.issue_star_reward attempt (record {
          reward_id = r.id;
          user_id = r.user_id;
          user_wallet_address = address;
          star_amount = r.star_amount;
        }))
    on_store (update_reward r.id (set_minted hash))
    note_reward hash r

  abbrev pub db_only : Reward → String
  db_only r = String.◌++◌ "db-only-no-wallet-" (id_text r.id)

  abbrev pub record_only : Reward → Action Work (Unit {0})
  record_only r = do
    on_store (update_reward r.id (set_minted (db_only r)))
    note_reward (db_only r) r

  -- One round of the loop of step 6: the reward with its user's wallet.
  unfoldable pub mint_one : Reward → Option Wallet → Action Work (Unit {0})
  mint_one r none = record_only r
  mint_one r (some wallet) =
      if str_eq wallet.address ""
      then record_only r
      else try_catch (mint_at r wallet.address) (λ e. on_store (update_reward r.id set_unminted))

  unfoldable pub mint_each : List (Reward × Option Wallet) → Action Work (Unit {0})
  mint_each [] = pure tt
  mint_each (r ∷ rs) = mint_one r.0 r.1 >> mint_each rs

  abbrev pub primary_wallet : Store → ℕ → Option Wallet
  primary_wallet s user =
      find_first (λ w. w.user_id == user && w.is_primary && is_active w.status) s.wallets

  -- `pendingRewards`
  unfoldable pub pending_rewards : Store → List (Reward × Option Wallet)
  pending_rewards s =
      map (λ r. (r, primary_wallet s r.user_id))
        (filter (λ r. is_reward_of tx.id r && is_unminted r.status) s.rewards)

  -- Step 6: the rewards.
  unfoldable pub mint_rewards : Action Work (Unit {0})
  mint_rewards = do rewards ← gets (λ w. pending_rewards w.store); mint_each rewards
