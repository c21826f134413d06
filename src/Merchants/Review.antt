-- ===== src/Merchants/Review.antt =====
-- The review of merchants in apps/api/src/admin/admin.service.ts, with the contract MerchantRegistry.
-- `hash_upi_vpa` is `hashUpiVpa`, a SHA-256, and `owner_text` the text of a user's id.
pub mod Laws
use pay_era.Prelude.{
  ℕ, Bool, true, false, Option, none, some, List, [], ◌∷◌, ◌++◌, String, Result, ok, err, Action,
  no_record, pure, modify, ◌>>=◌, ◌>>◌, or_else, str_eq, if◌then◌else◌, is_some,
}
use pay_era.Accounts.Store.{Principal}
use pay_era.Payments.Store.{MerchantStatus}
use pay_era.Chain.Soroban.{Rpc, Addresses}
use pay_era.Chain.Soroban.Contracts.{
  RegisterArgs, register_merchant, approve_merchant, reject_merchant, suspend_merchant,
  get_merchant,
}
use pay_era.Merchants.Store.{RiskLevel, Merchant, ReviewLog, Store, find_merchant, update_merchant}

-- `ReviewMerchantDto`
pub record ReviewMerchant : Type 0 where
  pub risk_level : Option RiskLevel
  pub metadata : Option String

abbrev pub set_reviewed : ReviewMerchant → MerchantStatus → Merchant → Merchant
set_reviewed dto status m = record m {
  metadata = or_else dto.metadata m.metadata;
  risk_level = or_else dto.risk_level m.risk_level;
  status = status;
}

abbrev pub set_review_approved : ℕ → ℕ → ReviewMerchant → Merchant → Merchant
set_review_approved now admin_id dto m = record (set_reviewed dto MerchantStatus.approved m) {
  approved_at = some now;
  approved_by_admin_id = some admin_id;
}

-- `log`
abbrev pub log : Principal → String → ℕ → Merchant → Merchant → Action Store (Unit {0})
log actor action id before after = modify (λ s. record s {
  logs =
      s.logs
      ++ record {
        action = action;
        actor_user_id = actor.id;
        target_type = "merchant";
        target_id = id;
        before = before;
        after = after;
      }
        ∷ [];
})

-- `findUniqueOrThrow`
abbrev pub find_or_throw : ℕ → Action Store Merchant
find_or_throw id s = elim (find_merchant id s.merchants) [
  | none ↦ (err no_record, s)
  | some m ↦ (ok m, s)
]

-- The rows that a review reads and writes, and its log entry.
unfoldable pub review_from :
    Principal → String → ℕ → (Merchant → Merchant) → Merchant → Action Store Merchant
review_from actor action id f before = do
  after ← update_merchant id f
  log actor action id before after
  pure after

-- The answer, and what the call of the contract ended with, which is only logged.
pub record Reviewed : Type 0 where
  pub merchant : Merchant
  pub synced : Result String

-- A review: the rows, the log entry, and then the contract, whose exceptions are caught.
unfoldable pub review_with :
    Principal
    → String
    → ℕ
    → (Merchant → Merchant)
    → (Merchant → Result String)
    → Merchant
    → Action Store Reviewed
review_with actor action id f sync before = do
  after ← review_from actor action id f before
  pure (record { merchant = after; synced = sync before })

unfoldable pub review :
    Principal
    → String
    → ℕ
    → (Merchant → Merchant)
    → (Merchant → Result String)
    → Action Store Reviewed
review actor action id f sync = find_or_throw id >>= review_with actor action id f sync

module _ {V : Type 0} (rpc : Rpc V) (at : Addresses) (uuid : ℕ → List ℕ) (units : String → List ℕ)
    (hash_upi_vpa : String → String) (owner_text : ℕ → String) where
  abbrev pub zeros : String
  zeros = "0000000000000000000000000000000000000000000000000000000000000000"

  -- `before.defaultUpiVpa ? this.hashUpiVpa(before.defaultUpiVpa) : '0'.repeat(64)`
  abbrev pub vpa_hash : Option String → String
  vpa_hash none = zeros
  vpa_hash (some v) = if str_eq v "" then zeros else hash_upi_vpa v

  abbrev pub register_args : Merchant → RegisterArgs
  register_args m = record {
    merchant_id = m.id;
    owner = elim m.owner_user_id [
      | none ↦ "GA6MPSEDZWDYVFN2CLITDXSM2WI545AQATWRPJAA4QKBJKHSLUI5JAE6"
      | some o ↦ owner_text o
    ];
    upi_id_hash = vpa_hash m.default_upi_vpa;
    metadata_hash = zeros;
  }

  -- The body of the `try` of `approveMerchant`: what it ends with, which is only logged.
  unfoldable pub sync_approval : ℕ → Merchant → Result String
  sync_approval attempt before =
      if is_some (get_merchant rpc at uuid units attempt before.id)
      then approve_merchant rpc at uuid units attempt before.id
      else elim (register_merchant rpc at uuid units attempt (register_args before)) [
        | err e ↦ err e
        | ok _ ↦ approve_merchant rpc at uuid units attempt before.id
      ]

  -- `approveMerchant`
  unfoldable pub approve : ℕ → Principal → ℕ → ReviewMerchant → ℕ → Action Store Reviewed
  approve attempt actor id dto now =
      review actor "merchant.approve" id (set_review_approved now actor.id dto)
        (sync_approval attempt)

  -- `rejectMerchant`
  unfoldable pub reject : ℕ → Principal → ℕ → ReviewMerchant → Action Store Reviewed
  reject attempt actor id dto =
      review actor "merchant.reject" id (set_reviewed dto MerchantStatus.rejected)
        (λ _. reject_merchant rpc at uuid units attempt id)

  -- `suspendMerchant`
  unfoldable pub suspend : ℕ → Principal → ℕ → ReviewMerchant → Action Store Reviewed
  suspend attempt actor id dto =
      review actor "merchant.suspend" id (set_reviewed dto MerchantStatus.suspended)
        (λ _. suspend_merchant rpc at uuid units attempt id)
