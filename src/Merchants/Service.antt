-- ===== src/Merchants/Service.antt =====
-- apps/api/src/merchants/merchants.service.ts. The random codes, JavaScript's text functions, SHA-256
-- and the payload of a QR code (`URLSearchParams`) are arguments.
use pay_era.Prelude.{
  ℕ, Bool, true, false, not, ◌&&◌, ◌||◌, Option, none, some, List, String, ok, err, Action,
  forbidden, not_found, ◌>>=◌, ◌>>◌, ◌==◌, str_eq, or_else, if◌then◌else◌, filter, length, any,
}
use pay_era.Prelude.Table.{find_first}
use pay_era.Common.Pagination.{list_page}
use pay_era.Accounts.Store.{Principal, is_admin, same_text}
use pay_era.Accounts.Users.{given}
use pay_era.Payments.Store.{MerchantStatus}
use pay_era.Merchants.Store.{
  RiskLevel, Merchant, MerchantQrCode, Store, find_merchant, insert_merchant, update_merchant,
  insert_qr_code,
}
use pay_era.Merchants.Bodies.{CreateMerchant, UpdateMerchant, CreateMerchantQr, ListMerchants}

pub record Texts : Type 0 where
  pub trim : String → String
  pub to_lower_case : String → String
  -- The database's `contains` without regard to case.
  pub contains : String → String → Bool
  pub sha256_hex : String → String
  -- `createMockUpiPayload`
  pub upi_payload : String → String → Option ℕ → String

-- The two random codes of a new merchant.
pub record Codes : Type 0 where
  pub merchant_code : String
  pub mock_kyc_reference : String

abbrev pub is_approval : Option MerchantStatus → Bool
is_approval none = false
is_approval (some MerchantStatus.approved) = true
is_approval (some MerchantStatus.pending) = false
is_approval (some MerchantStatus.rejected) = false
is_approval (some MerchantStatus.suspended) = false

module _ (text : Texts) where
  abbrev pub normalize_upi_vpa : String → String
  normalize_upi_vpa vpa = text.to_lower_case (text.trim vpa)

  abbrev pub normalized : Option String → Option String
  normalized none = none
  normalized (some v) = some (normalize_upi_vpa v)

  -- The owner of a new merchant.
  abbrev pub owner_for : Principal → Option ℕ → ℕ
  owner_for owner wanted = if is_admin owner.role then or_else wanted owner.id else owner.id

  abbrev pub new_merchant : Principal → CreateMerchant → Codes → ℕ → Merchant
  new_merchant owner dto codes id = record {
    id = id;
    owner_user_id = some (owner_for owner dto.owner_user_id);
    approved_by_admin_id = none;
    merchant_code = codes.merchant_code;
    legal_name = dto.legal_name;
    display_name = dto.display_name;
    default_upi_vpa = normalized dto.default_upi_vpa;
    category = dto.category;
    status = MerchantStatus.pending;
    risk_level = RiskLevel.low;
    city = dto.city;
    state = dto.state;
    country = or_else dto.country "IN";
    postal_code = dto.postal_code;
    gstin = dto.gstin;
    mock_kyc_reference = some codes.mock_kyc_reference;
    approved_at = none;
    metadata = or_else dto.metadata "{}";
  }

  unfoldable pub create : Principal → CreateMerchant → Codes → Action Store Merchant
  create owner dto codes = insert_merchant (new_merchant owner dto codes)

  abbrev pub matches : Option String → Merchant → Bool
  matches none m = true
  matches (some t) m =
      text.contains t m.display_name
      || text.contains t m.legal_name
      || text.contains t m.merchant_code

  abbrev pub is_owned : ℕ → Merchant → Bool
  is_owned id m = elim m.owner_user_id [ none ↦ false | some o ↦ o == id ]

  -- `assertMerchantAccess`
  abbrev pub may_access : Principal → Merchant → Bool
  may_access owner m = is_admin owner.role || is_owned owner.id m

  -- The `where` of `list`.
  abbrev pub is_listed : Principal → ListMerchants → Merchant → Bool
  is_listed owner q m =
      may_access owner m
      && elim q.city [ none ↦ true | some c ↦ same_text (some c) m.city ]
      && q.has_risk_level m.risk_level
      && q.has_status m.status
      && matches q.search m

  -- `list`, of the merchants in the order of their creation, newest first.
  unfoldable pub list : Principal → ListMerchants → ℕ → ℕ → List Merchant → List Merchant × ℕ
  list owner q page limit rows = (
    list_page page limit (filter (is_listed owner q) rows),
    length (filter (is_listed owner q) rows),
  )

  unfoldable pub find_one : Principal → ℕ → Action Store Merchant
  find_one owner id s = elim (find_merchant id s.merchants) [
    | none ↦ (err (not_found "Merchant not found"), s)
    | some m ↦
        if may_access owner m
        then (ok m, s)
        else (err (forbidden "Merchant belongs to another user"), s)
  ]

  abbrev pub set_given : UpdateMerchant → Merchant → Merchant
  set_given dto m = record m {
    category = given dto.category m.category;
    city = given dto.city m.city;
    country = or_else dto.country m.country;
    default_upi_vpa = given (normalized dto.default_upi_vpa) m.default_upi_vpa;
    display_name = or_else dto.display_name m.display_name;
    metadata = or_else dto.metadata m.metadata;
    postal_code = given dto.postal_code m.postal_code;
    risk_level = or_else dto.risk_level m.risk_level;
    state = given dto.state m.state;
  }

  abbrev pub set_approved : ℕ → ℕ → Merchant → Merchant
  set_approved now admin_id m = record m {
    approved_at = some now;
    approved_by_admin_id = some admin_id;
    status = MerchantStatus.approved;
  }

  abbrev pub set_status : MerchantStatus → Merchant → Merchant
  set_status status m = record m { status = status }

  -- The part of the update that only an administrator has.
  unfoldable pub set_by_admin : Principal → ℕ → Option MerchantStatus → Merchant → Merchant
  set_by_admin owner now status m =
      if not (is_admin owner.role)
      then m
      else if is_approval status
      then set_approved now owner.id m
      else set_status (or_else status m.status) m

  unfoldable pub update : Principal → ℕ → UpdateMerchant → ℕ → Action Store Merchant
  update owner id dto now =
      find_one owner id
      >> update_merchant id (λ m. set_by_admin owner now dto.status (set_given dto m))

  unfoldable pub approve : Principal → ℕ → ℕ → Action Store Merchant
  approve admin id now = update_merchant id (set_approved now admin.id)

  unfoldable pub reject : ℕ → Action Store Merchant
  reject id = update_merchant id (set_status MerchantStatus.rejected)

  unfoldable pub suspend : ℕ → Action Store Merchant
  suspend id = update_merchant id (set_status MerchantStatus.suspended)

  abbrev pub new_qr_code : ℕ → String → CreateMerchantQr → ℕ → MerchantQrCode
  new_qr_code merchant_id display_name dto id =
      let vpa = normalize_upi_vpa dto.upi_vpa in
      let payload =
        or_else dto.qr_payload (text.upi_payload vpa display_name dto.default_amount_paise) in
      record {
        id = id;
        merchant_id = merchant_id;
        upi_vpa = vpa;
        qr_payload = payload;
        qr_payload_hash = text.sha256_hex payload;
        default_amount_paise = dto.default_amount_paise;
        is_active = true;
        metadata = or_else dto.metadata "{}";
      }

  unfoldable pub create_qr : Principal → ℕ → CreateMerchantQr → Action Store MerchantQrCode
  create_qr owner merchant_id dto = do
    merchant ← find_one owner merchant_id
    insert_qr_code (new_qr_code merchant_id merchant.display_name dto)

  abbrev pub is_approved : Merchant → Bool
  is_approved m = is_approval (some m.status)

  abbrev pub has_vpa : String → List MerchantQrCode → Merchant → Bool
  has_vpa vpa codes m =
      same_text (some vpa) m.default_upi_vpa
      || any (λ q. q.merchant_id == m.id && str_eq q.upi_vpa vpa) codes

  -- `findByUpiVpa`, without the QR code that it includes
  unfoldable pub find_by_upi_vpa : String → Store → Option Merchant
  find_by_upi_vpa vpa s = find_first (λ m. has_vpa vpa s.qr_codes m && is_approved m) s.merchants

  unfoldable pub find_by_owner : ℕ → Store → Option Merchant
  find_by_owner owner_user_id s =
      find_first (λ m. is_owned owner_user_id m && is_approved m) s.merchants
