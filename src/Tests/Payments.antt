-- ===== src/Tests/Payments.antt =====
-- Payments at concrete inputs.
use pay_era.Prelude.{
  ℕ, ◌*◌, ◌/◌, ◌<◌, ◌≡◌, ◌↔◌, ◌⊎◌, true, false, not, none, some, [], ◌∷◌, ok, err, is_ok, failure,
  not_found, arith, ◌==◌,
}
use pay_era.Accounts.Store.{Principal, UserRole}
use pay_era.Payments.Store.{
  AssetCode, TransactionStatus, MerchantStatus, RewardReason, RewardStatus, Merchant, Transaction,
  Reward, Store, find_transaction,
}
use pay_era.Payments.Store.Invariant.{IsValid}
use pay_era.Payments.Rates.{Numbers, RateCache, static_rates, get_live_rates}
use pay_era.Payments.Rates.Laws.{get_live_rates-Served, Served}
use pay_era.Payments.Creation.{CreateTransaction, Ambient, Checked, create}
use pay_era.Payments.Transactions.{cancel, find_one, is_created}
use pay_era.Payments.Transactions.Access.{MaySee, find_one-MaySee}
use pay_era.Payments.Creation.Checks.{Passed}
use pay_era.Payments.Creation.Laws.{Opened, create_lem}
use pay_era.Payments.Transactions.Ending.{Ended, cancel-Ended, set_cancelled}

-- Numbers that are whole, for the examples.
abbrev pub whole : Numbers
whole = record {
  Number = ℕ;
  of_nat = λ n. n;
  parse = λ t. 9;
  div = λ a b. a / b;
  mul = λ a b. a * b;
  rounded = λ a. some a;
  to_fixed = λ a n. "1";
  is_truthy = λ n. not (n == 0);
}

whole-positive : (n : ℕ) → 0 < n → whole.is_truthy (whole.of_nat n) ≡ true
whole-positive n h = ground arith

abbrev empty_cache : RateCache whole
empty_cache = record { rates = none; time = 0 }

get_live_rates-Served_example :
    Served whole whole-positive 70_000
      (err (failure "down"))
      empty_cache
      (get_live_rates whole 70_000 (err (failure "down")) empty_cache)
get_live_rates-Served_example =
    get_live_rates-Served whole whole-positive 70_000 (err (failure "down")) empty_cache (λ r e. cc)

abbrev payer : Principal
payer = record { id = 7; role = UserRole.consumer }

abbrev shop : Merchant
shop = record {
  id = 1;
  owner_user_id = some 8;
  status = MerchantStatus.approved;
  display_name = "Shop";
  default_upi_vpa = some "shop@upi";
}

abbrev open_shop : Store
open_shop = record {
  merchants = shop ∷ [];
  qr_codes = [];
  wallets = [];
  transactions = [];
  events = [];
  settlements = [];
  rewards = [];
  logs = [];
  next_id = 9;
}

open_shop-IsValid : IsValid open_shop
open_shop-IsValid = record {
  ids = record { below = tt; distinct = tt };
  owners = tt;
  ordered = λ id. tt;
}

abbrev order : CreateTransaction
order = record {
  amount_in_paise = 25_000;
  asset_in = AssetCode.xlm;
  merchant_id = 1;
  merchant_qr_code_id = none;
  wallet_id = none;
  campaign_id = none;
  merchant_upi_vpa = none;
  qr_payload = none;
}

abbrev env : Ambient whole (λ t. t)
env = record { now = 1000; nonce = "abc"; rates = static_rates whole }

create_lem_example :
    let out = create whole (λ t. t) payer order env open_shop in
    ((is_ok out.0 ≡ false) × (out.1 ≡ open_shop))
    ⊎ ((c : Checked whole (λ t. t)) × Passed whole (λ t. t) payer order env open_shop c
        × (t : Transaction) × (out.0 ≡ ok t)
        × Opened whole (λ t. t) payer order env open_shop t out.1)
create_lem_example = create_lem whole (λ t. t) payer order env open_shop open_shop-IsValid

abbrev pub payment : TransactionStatus → Transaction
payment status = record {
  id = 5;
  public_id = "PAY_abc";
  user_id = 7;
  wallet_id = none;
  merchant_id = 1;
  merchant_qr_code_id = none;
  campaign_id = none;
  status = status;
  asset_in = AssetCode.xlm;
  amount_in_paise = 25_000;
  merchant_settlement_paise = 25_000;
  network_fee_paise = 0;
  amount_in_crypto = some "27.7";
  usdc_amount = "3";
  quote_rate_inr_per_asset = "9";
  merchant_upi_vpa = "shop@upi";
  qr_payload_hash = none;
  expires_at = 31_000;
  authorized_at = none;
  completed_at = none;
  stellar_transaction_hash = none;
  stellar_ledger = none;
  failure_code = none;
  failure_message = none;
  retry_attempts = none;
}

abbrev promise : Reward
promise = record {
  id = 6;
  user_id = 7;
  transaction_id = some 5;
  reason = RewardReason.spend;
  star_amount = 20;
  formula_version = "STAR_SPEND_V1";
  status = RewardStatus.pending;
  minted_at = none;
  stellar_mint_hash = none;
}

abbrev pub paying : TransactionStatus → Store
paying status = record open_shop { transactions = payment status ∷ []; rewards = promise ∷ [] }

pub paying-IsValid : (status : TransactionStatus) → IsValid (paying status)
paying-IsValid status = record {
  ids = record { below = (omega arith, tt); distinct = (tt, tt) };
  owners = tt;
  ordered = λ id. tt;
}

find_one-MaySee_example :
    ((t : Transaction)
      → (find_one payer 5 (paying TransactionStatus.created)
          ≡ (ok t, paying TransactionStatus.created))
        ↔ ((find_transaction 5 (paying TransactionStatus.created).transactions ≡ some t)
            × MaySee payer (paying TransactionStatus.created) t))
    × (((t : Transaction)
          → find_transaction 5 (paying TransactionStatus.created).transactions ≡ some t
          → ¬ (MaySee payer (paying TransactionStatus.created) t))
        → find_one payer 5 (paying TransactionStatus.created)
          ≡ (err (not_found "Transaction not found"), paying TransactionStatus.created))
find_one-MaySee_example =
    find_one-MaySee payer 5 (paying TransactionStatus.created)
      (paying-IsValid TransactionStatus.created)

cancel-Ended_example :
    Ended payer 5
      (paying TransactionStatus.created)
      is_created
      TransactionStatus.cancelled
      "transaction.cancelled"
      set_cancelled
      (cancel payer 5 (paying TransactionStatus.created))
cancel-Ended_example =
    cancel-Ended payer 5 (paying TransactionStatus.created)
      (paying-IsValid TransactionStatus.created)
