-- ===== src/Tests/Merchants.antt =====
-- The review of merchants at concrete inputs.
use pay_era.Prelude.{
  ℕ, ◌≡◌, refl, true, false, none, some, List, [], ◌∷◌, ok, err, Exception, All, ◌==◌, arith,
}
use pay_era.Accounts.Store.{UserRole, Principal}
use pay_era.Payments.Store.{MerchantStatus}
use pay_era.Chain.Soroban.{Rpc, Addresses, sim_error, not_found, read}
use pay_era.Chain.Soroban.Contracts.{
  register_merchant, get_merchant, reject_merchant, suspend_merchant,
}
use pay_era.Merchants.Store.{RiskLevel, Merchant, Store}
use pay_era.Merchants.Service.{Texts}
use pay_era.Merchants.Requests.{Request, approval, suspension, review_approval, run}
use pay_era.Merchants.Approvers.{IsVouched}
use pay_era.Merchants.Vouching.{run-IsVouched}
use pay_era.Merchants.Review.{
  ReviewMerchant, approve, reject, suspend, register_args, sync_approval,
}
use pay_era.Merchants.Review.Laws.{IsWritten, review-IsWritten, sync_approval-owner}

abbrev shop : Merchant
shop = record {
  id = 1;
  owner_user_id = some 4;
  approved_by_admin_id = none;
  merchant_code = "MER_1";
  legal_name = "Shop";
  display_name = "Shop";
  default_upi_vpa = some "shop@upi";
  category = none;
  status = MerchantStatus.pending;
  risk_level = RiskLevel.low;
  city = none;
  state = none;
  country = "IN";
  postal_code = none;
  gstin = none;
  mock_kyc_reference = none;
  approved_at = none;
  metadata = "{}";
}

abbrev shops : Store
shops = record { merchants = shop ∷ []; qr_codes = []; logs = []; next_id = 2 }

abbrev admin : Principal
admin = record { id = 9; role = UserRole.admin }

abbrev texts : Texts
texts = record {
  trim = λ t. t;
  to_lower_case = λ t. t;
  contains = λ t u. true;
  sha256_hex = λ t. t;
  upi_payload = λ a b c. "upi://pay";
}

-- No text is an address, and no merchant is registered.
abbrev rpc : Rpc ℕ
rpc = record {
  get_account = λ attempt. ok 1;
  is_address = λ a. false;
  simulate = λ attempt account call. ok (sim_error "none");
  send = λ attempt account call. ok (record { hash = "H"; error = none });
  get_transaction = λ attempt i hash. ok not_found;
  as_amount = λ v. ok v;
  is_true = λ v. v == 1;
}

abbrev at : Addresses
at = record {
  reward_engine = "R";
  star_token = "S";
  payment_engine = "P";
  merchant_registry = "M";
  platform = "G";
}

abbrev shop_owner : Principal
shop_owner = record { id = 4; role = UserRole.merchant_operator }

abbrev medium_risk : ReviewMerchant
medium_risk = record { risk_level = some RiskLevel.medium; metadata = none }

-- The last request is by the owner, whom the guard refuses.
abbrev requests : List Request
requests =
    approval admin 1 50
    ∷ suspension admin 1
    ∷ review_approval 0 admin 1 medium_risk 60
    ∷ approval shop_owner 1 70
    ∷ []

shops-IsVouched : All (IsVouched (λ n. n ≡ 9)) shops.merchants
shops-IsVouched = (λ e. ground arith, tt)

review-IsWritten_example :
    IsWritten admin "merchant.approve" 1
      (λ m. record m {
        status = MerchantStatus.approved;
        approved_at = some 60;
        approved_by_admin_id = some 9;
        risk_level = RiskLevel.medium;
      })
      (sync_approval rpc at (λ n. []) (λ t. []) (λ v. v) (λ n. "uuid") 0)
      shops
      (approve rpc at (λ n. []) (λ t. []) (λ v. v) (λ n. "uuid") 0 admin 1 medium_risk 60 shops)
    × (IsWritten admin "merchant.reject" 1
          (λ m. record m { status = MerchantStatus.rejected; risk_level = RiskLevel.medium })
          (λ _. reject_merchant rpc at (λ n. []) (λ t. []) 0 1)
          shops
          (reject rpc at (λ n. []) (λ t. []) (λ v. v) (λ n. "uuid") 0 admin 1 medium_risk shops)
        × IsWritten admin "merchant.suspend" 1
            (λ m. record m { status = MerchantStatus.suspended; risk_level = RiskLevel.medium })
            (λ _. suspend_merchant rpc at (λ n. []) (λ t. []) 0 1)
            shops
            (suspend rpc at (λ n. []) (λ t. []) (λ v. v) (λ n. "uuid") 0 admin 1 medium_risk shops))
review-IsWritten_example =
    review-IsWritten rpc at (λ n. []) (λ t. []) (λ v. v) (λ n. "uuid") 0 admin 1 medium_risk 60
      shops

run-IsVouched_example :
    All
      (IsVouched (λ n. n ≡ 9))
      (run rpc at (λ n. []) (λ t. []) (λ v. v) (λ n. "uuid") texts requests shops).merchants
run-IsVouched_example =
    run-IsVouched (λ n. n ≡ 9) rpc at (λ n. []) (λ t. []) (λ v. v) (λ n. "uuid") texts requests
      shops ((λ e. refl), ((λ e. refl), ((λ e. refl), ((λ e. ground arith), tt)))) shops-IsVouched

absent : get_merchant rpc at (λ n. []) (λ t. []) 0 1 ≡ none
unfolding get_merchant read
absent = refl

sync_approval-owner_example :
    let args = register_args rpc at (λ n. []) (λ t. []) (λ v. v) (λ n. "uuid") shop in
    (e : Exception) × ((register_merchant rpc at (λ n. []) (λ t. []) 0 args ≡ err e)
      × (sync_approval rpc at (λ n. []) (λ t. []) (λ v. v) (λ n. "uuid") 0 shop ≡ err e))
sync_approval-owner_example =
    sync_approval-owner rpc at (λ n. []) (λ t. []) (λ v. v) (λ n. "uuid") 0 shop 4 refl refl absent
