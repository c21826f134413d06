-- ===== src/Merchants/Store.antt =====
-- The tables of merchants, QR codes, brands and campaigns (apps/api/prisma/schema.prisma) with the
-- columns that the services write. A JSON column is its text.
use pay_era.Prelude.{
  ℕ, ◌+◌, Bool, not, ◌&&◌, ◌||◌, Option, none, some, List, [], ◌∷◌, ◌++◌, String, ok, err, Action,
  no_record, unique_violation, ◌==◌, str_eq, any, if◌then◌else◌,
}
use pay_era.Prelude.Table.{find_first, update_many}
use pay_era.Accounts.Store.{same_text}
use pay_era.Payments.Store.{MerchantStatus}

pub data RiskLevel : Type 0 where
  low medium high blocked : RiskLevel

pub record Merchant : Type 0 where
  pub id : ℕ
  pub owner_user_id : Option ℕ
  pub approved_by_admin_id : Option ℕ
  pub merchant_code : String
  pub legal_name : String
  pub display_name : String
  pub default_upi_vpa : Option String
  pub category : Option String
  pub status : MerchantStatus
  pub risk_level : RiskLevel
  pub city : Option String
  pub state : Option String
  pub country : String
  pub postal_code : Option String
  pub gstin : Option String
  pub mock_kyc_reference : Option String
  pub approved_at : Option ℕ
  pub metadata : String

pub record MerchantQrCode : Type 0 where
  pub id : ℕ
  pub merchant_id : ℕ
  pub upi_vpa : String
  pub qr_payload : String
  pub qr_payload_hash : String
  pub default_amount_paise : Option ℕ
  pub is_active : Bool
  pub metadata : String

-- An administrator's log entry with the row before and after.
pub record ReviewLog : Type 0 where
  pub action : String
  pub actor_user_id : ℕ
  pub target_type : String
  pub target_id : ℕ
  pub before : Merchant
  pub after : Merchant

pub record Store : Type 0 where
  pub merchants : List Merchant
  pub qr_codes : List MerchantQrCode
  pub logs : List ReviewLog
  pub next_id : ℕ

abbrev pub find_merchant : ℕ → List Merchant → Option Merchant
find_merchant id = find_first (λ m. m.id == id)

-- The unique columns of `Merchant`.
abbrev pub clashes : Merchant → Merchant → Bool
clashes m x =
    str_eq m.merchant_code x.merchant_code
    || same_text m.default_upi_vpa x.default_upi_vpa
    || same_text m.gstin x.gstin
    || same_text m.mock_kyc_reference x.mock_kyc_reference

-- `merchant.create({ data })`
unfoldable pub insert_merchant : (ℕ → Merchant) → Action Store Merchant
insert_merchant make s =
    if any (clashes (make s.next_id)) s.merchants then (err unique_violation, s) else (
      ok (make s.next_id),
      record s { merchants = s.merchants ++ make s.next_id ∷ []; next_id = s.next_id + 1 },
    )

-- `merchant.update({ where: { id }, data })`
unfoldable pub update_merchant : ℕ → (Merchant → Merchant) → Action Store Merchant
update_merchant id f s = elim (find_merchant id s.merchants) [
  | none ↦ (err no_record, s)
  | some m ↦
      if any (λ x. not (x.id == id) && clashes (f m) x) s.merchants
      then (err unique_violation, s)
      else (ok (f m), record s { merchants = update_many (λ x. x.id == id) f s.merchants })
]

-- `merchantQrCode.create({ data })`
unfoldable pub insert_qr_code : (ℕ → MerchantQrCode) → Action Store MerchantQrCode
insert_qr_code make s =
    if any (λ x. str_eq (make s.next_id).qr_payload_hash x.qr_payload_hash) s.qr_codes
    then (err unique_violation, s)
    else (
      ok (make s.next_id),
      record s { qr_codes = s.qr_codes ++ make s.next_id ∷ []; next_id = s.next_id + 1 },
    )
