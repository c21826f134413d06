-- ===== src/Payments/Creation.antt =====
-- apps/api/src/transactions/transactions.service.ts: creating a payment. SHA-256, the clock, the
-- random part of the public id and the exchange rates are arguments. The request's body has passed
-- its validation (the amount is a positive integer).
pub mod Checks
pub mod Laws
use pay_era.Prelude.{
  ℕ, ◌+◌, Bool, true, false, not, ◌&&◌, ◌||◌, Option, none, some, List, [], ◌∷◌, ◌++◌, String,
  Result, ok, err, Action, bad_request, forbidden, not_found, pure, raise, lift, gets, or_raise,
  raise_if, modify, ◌>>=◌, ◌>>◌, ◌==◌, if◌then◌else◌, or_else, or_option, is_some, filter, length,
}
use Prim.Native.String
use mathlib.Core.Option
use pay_era.Prelude.Table.{find_first}
use pay_era.Common.Rewards.{calculate_spend_reward_star}
use pay_era.Common.Pagination.{list_page}
use pay_era.Accounts.Store.{Principal, is_admin, Wallet}
use pay_era.Payments.Store.{
  AssetCode, TransactionStatus, MerchantStatus, SettlementStatus, RewardReason, RewardStatus,
  Merchant, MerchantQrCode, LogData, AdminLog, Transaction, Settlement, Reward, Store,
  find_transaction, find_merchant, set_transaction, update_transaction, create_event, create_log,
  next_event,
}
use pay_era.Payments.Rates.{Numbers, Rates, Quote, create_quote}

-- `CreateTransactionDto`
pub record CreateTransaction : Type 0 where
  pub amount_in_paise : ℕ
  pub asset_in : AssetCode
  pub merchant_id : ℕ
  pub merchant_qr_code_id : Option ℕ
  pub wallet_id : Option ℕ
  pub campaign_id : Option ℕ
  pub merchant_upi_vpa : Option String
  pub qr_payload : Option String

abbrev pub is_approved : MerchantStatus → Bool
is_approved MerchantStatus.approved = true
is_approved MerchantStatus.pending = false
is_approved MerchantStatus.rejected = false
is_approved MerchantStatus.suspended = false

-- `assertWalletAccess`
unfoldable pub assert_wallet_access : Principal → ℕ → Action Store (Unit {0})
assert_wallet_access owner wallet_id s = elim (find_first (λ w. w.id == wallet_id) s.wallets) [
  | none ↦ (err (not_found "Wallet not found"), s)
  | some wallet ↦
      raise_if (not (is_admin owner.role) && not (wallet.user_id == owner.id))
        (forbidden "Wallet belongs to another user") s
]

abbrev pub check_wallet : Principal → Option ℕ → Action Store (Unit {0})
check_wallet owner none = pure tt
check_wallet owner (some id) = assert_wallet_access owner id

-- `merchant.qrCodes[0]`: the active code with the given id, if it is this merchant's.
abbrev pub active_qr : ℕ → Option ℕ → List MerchantQrCode → Option MerchantQrCode
active_qr merchant_id none codes = none
active_qr merchant_id (some id) codes =
    find_first (λ q. q.id == id && q.is_active && q.merchant_id == merchant_id) codes

abbrev pub vpa_of : CreateTransaction → Option MerchantQrCode → Merchant → Option String
vpa_of dto qr merchant =
    or_option dto.merchant_upi_vpa
      (or_option (Option.map (λ q. q.upi_vpa) qr) merchant.default_upi_vpa)

module _ (num : Numbers) (sha256_hex : String → String) where
  -- The clock, the random part of the public id and the rates.
  pub record Ambient : Type 0 where
    pub now : ℕ
    pub nonce : String
    pub rates : Rates num

  abbrev pub payload_hash : CreateTransaction → Option MerchantQrCode → Option String
  payload_hash dto qr = elim dto.qr_payload [
    | none ↦ Option.map (λ q. q.qr_payload_hash) qr
    | some payload ↦ some (sha256_hex payload)
  ]

  abbrev pub new_transaction :
      Principal → CreateTransaction → Option String → String → Quote num → String → ℕ → Transaction
  new_transaction owner dto hash vpa quote nonce id = record {
    id = id;
    public_id = String.◌++◌ "PAY_" nonce;
    user_id = owner.id;
    wallet_id = dto.wallet_id;
    merchant_id = dto.merchant_id;
    merchant_qr_code_id = dto.merchant_qr_code_id;
    campaign_id = dto.campaign_id;
    status = TransactionStatus.created;
    asset_in = dto.asset_in;
    amount_in_paise = dto.amount_in_paise;
    merchant_settlement_paise = dto.amount_in_paise;
    network_fee_paise = quote.network_fee_paise;
    amount_in_crypto = some quote.amount_in_crypto;
    usdc_amount = quote.usdc_amount;
    quote_rate_inr_per_asset = quote.quote_rate_inr_per_asset;
    merchant_upi_vpa = vpa;
    qr_payload_hash = hash;
    expires_at = quote.expires_at;
    authorized_at = none;
    completed_at = none;
    stellar_transaction_hash = none;
    stellar_ledger = none;
    failure_code = none;
    failure_message = none;
    retry_attempts = none;
  }

  abbrev pub new_settlement : CreateTransaction → ℕ → ℕ → Settlement
  new_settlement dto transaction_id id = record {
    id = id;
    transaction_id = transaction_id;
    merchant_id = dto.merchant_id;
    amount_paise = dto.amount_in_paise;
    status = SettlementStatus.pending;
    settlement_reference = none;
    mock_reference = none;
    failure_reason = none;
    confirmed_at = none;
    settlement_status = none;
    utr_number = none;
    last_polled_at = none;
  }

  abbrev pub spend_reward : Principal → CreateTransaction → ℕ → ℕ → Reward
  spend_reward owner dto transaction_id id = record {
    id = id;
    user_id = owner.id;
    transaction_id = some transaction_id;
    reason = RewardReason.spend;
    star_amount = calculate_spend_reward_star dto.amount_in_paise;
    formula_version = "STAR_SPEND_V1";
    status = RewardStatus.pending;
    minted_at = none;
    stellar_mint_hash = none;
  }

  -- `transaction.create`, with the event and the settlement instruction that it creates.
  abbrev pub insert_transaction : CreateTransaction → (ℕ → Transaction) → Action Store Transaction
  insert_transaction dto make s =
      let t = make s.next_id in
      (
        ok t,
        record s {
          transactions = s.transactions ++ t ∷ [];
          events =
              s.events
              ++ record {
                transaction_id = s.next_id;
                sequence = 1;
                status = TransactionStatus.created;
                event_type = "transaction.created";
              }
                ∷ [];
          settlements = s.settlements ++ new_settlement dto s.next_id (s.next_id + 1) ∷ [];
          next_id = s.next_id + 2;
        },
      )

  abbrev pub insert_reward : (ℕ → Reward) → Action Store (Unit {0})
  insert_reward make s =
      (ok tt, record s { rewards = s.rewards ++ make s.next_id ∷ []; next_id = s.next_id + 1 })

  abbrev pub created_log : Principal → CreateTransaction → Transaction → AdminLog
  created_log owner dto t = record {
    actor_user_id = some owner.id;
    action = "TRANSACTION_CREATED";
    target_type = "TRANSACTION";
    target_id = t.id;
    metadata =
        LogData.transaction_created dto.merchant_id dto.asset_in dto.amount_in_paise t.public_id;
  }

  -- What `create` writes once its checks have passed.
  abbrev pub write_created :
      Principal
      → CreateTransaction
      → Option String
      → String
      → Quote num
      → String
      → Action Store Transaction
  write_created owner dto hash vpa quote nonce = do
    t ← insert_transaction dto (new_transaction owner dto hash vpa quote nonce)
    create_log (created_log owner dto t)
    insert_reward (spend_reward owner dto t.id)
    pure t

  -- What the checks of `create` find out.
  pub record Checked : Type 0 where
    pub hash : Option String
    pub vpa : String
    pub quote : Quote num

  -- The checks of `create`, in their order.
  unfoldable pub check : Principal → CreateTransaction → Ambient → Action Store Checked
  check owner dto env = do
    merchant? ← gets (λ s. find_merchant dto.merchant_id s.merchants)
    merchant ← or_raise merchant? (bad_request "Merchant is not approved")
    raise_if (not (is_approved merchant.status)) (bad_request "Merchant is not approved")
    check_wallet owner dto.wallet_id
    qr ← gets (λ s. active_qr merchant.id dto.merchant_qr_code_id s.qr_codes)
    raise_if (is_some dto.merchant_qr_code_id && not (is_some qr))
        (bad_request "Merchant QR is not active")
    vpa ← or_raise (vpa_of dto qr merchant) (bad_request "Merchant UPI VPA is required")
    quote ← lift (create_quote num env.now env.rates dto.asset_in dto.amount_in_paise)
    pure (record { hash = payload_hash dto qr; vpa = vpa; quote = quote })

  unfoldable pub create : Principal → CreateTransaction → Ambient → Action Store Transaction
  create owner dto env = do
    c ← check owner dto env
    write_created owner dto c.hash c.vpa c.quote env.nonce
