-- ===== src/Merchants/Bodies.antt =====
-- The bodies and queries of the requests about merchants: apps/api/src/merchants/dto.
use pay_era.Prelude.{ℕ, Bool, Option, String}
use pay_era.Payments.Store.{MerchantStatus}
use pay_era.Merchants.Store.{RiskLevel}

-- `CreateMerchantDto`
pub record CreateMerchant : Type 0 where
  pub owner_user_id : Option ℕ
  pub legal_name : String
  pub display_name : String
  pub default_upi_vpa : Option String
  pub category : Option String
  pub city : Option String
  pub state : Option String
  pub country : Option String
  pub postal_code : Option String
  pub gstin : Option String
  pub metadata : Option String

-- `UpdateMerchantDto`
pub record UpdateMerchant : Type 0 where
  pub display_name : Option String
  pub default_upi_vpa : Option String
  pub category : Option String
  pub status : Option MerchantStatus
  pub risk_level : Option RiskLevel
  pub city : Option String
  pub state : Option String
  pub country : Option String
  pub postal_code : Option String
  pub metadata : Option String

-- `CreateMerchantQrDto`
pub record CreateMerchantQr : Type 0 where
  pub upi_vpa : String
  pub default_amount_paise : Option ℕ
  pub metadata : Option String
  pub qr_payload : Option String

-- `ListMerchantsDto` without its page; a status and a risk level are given by tests for them.
pub record ListMerchants : Type 0 where
  pub city : Option String
  pub has_risk_level : RiskLevel → Bool
  pub has_status : MerchantStatus → Bool
  pub search : Option String
