-- ===== src/Merchants/Requests.antt =====
-- The requests that write to the merchants, one after another, behind the guards of the controllers
-- apps/api/src/merchants/merchants.controller.ts and apps/api/src/admin/admin.controller.ts.
use pay_era.Prelude.{String, ℕ, some, List, [], ◌∷◌, ok, err}
use pay_era.Accounts.Store.{Principal}
use pay_era.Merchants.Store.{Store}
use pay_era.Merchants.Bodies.{CreateMerchant, UpdateMerchant, CreateMerchantQr}
use pay_era.Merchants.Service.{Texts, Codes, create, update, approve, reject, suspend, create_qr}
use pay_era.Accounts.Store.{UserRole}
use pay_era.Accounts.Roles.{can_activate}
use pay_era.Chain.Soroban.{Rpc, Addresses}
use pay_era.Merchants.Review
use pay_era.Merchants.Review.{ReviewMerchant}

pub data Request : Type 0 where
  creation : Principal → CreateMerchant → Codes → Request
  change : Principal → ℕ → UpdateMerchant → ℕ → Request
  approval : Principal → ℕ → ℕ → Request
  rejection suspension : Principal → ℕ → Request
  code : Principal → ℕ → CreateMerchantQr → Request
  -- The reviews of the administrators; the first number tells the calls of the contract apart.
  review_approval : ℕ → Principal → ℕ → ReviewMerchant → ℕ → Request
  review_rejection review_suspension : ℕ → Principal → ℕ → ReviewMerchant → Request

abbrev pub caller : Request → Principal
caller (creation p dto codes) = p
caller (change p id dto now) = p
caller (approval p id now) = p
caller (rejection p id) = p
caller (suspension p id) = p
caller (code p id dto) = p
caller (review_approval n p id dto now) = p
caller (review_rejection n p id dto) = p
caller (review_suspension n p id dto) = p

abbrev pub staff : List UserRole
staff = UserRole.merchant_operator ∷ UserRole.admin ∷ []

abbrev pub admins : List UserRole
admins = UserRole.admin ∷ []

-- The roles that the decorators of a handler, or else of its controller, name.
abbrev pub roles_of : Request → List UserRole
roles_of (creation p dto codes) = staff
roles_of (change p id dto now) = staff
roles_of (code p id dto) = staff
roles_of (approval p id now) = admins
roles_of (rejection p id) = admins
roles_of (suspension p id) = admins
roles_of (review_approval n p id dto now) = admins
roles_of (review_rejection n p id dto) = admins
roles_of (review_suspension n p id dto) = admins

module _ {V : Type 0} (rpc : Rpc V) (at : Addresses) (uuid : ℕ → List ℕ) (units : String → List ℕ)
    (hash_upi_vpa : String → String) (owner_text : ℕ → String) (text : Texts) where
  -- The tables after the handler of a request.
  unfoldable pub handle : Request → Store → Store
  handle (creation p dto codes) s = (create text p dto codes s).1
  handle (change p id dto now) s = (update text p id dto now s).1
  handle (approval p id now) s = (approve text p id now s).1
  handle (rejection p id) s = (reject text id s).1
  handle (suspension p id) s = (suspend text id s).1
  handle (code p id dto) s = (create_qr text p id dto s).1
  handle (review_approval n p id dto now) s =
      (Review.approve rpc at uuid units hash_upi_vpa owner_text n p id dto now s).1
  handle (review_rejection n p id dto) s =
      (Review.reject rpc at uuid units hash_upi_vpa owner_text n p id dto s).1
  handle (review_suspension n p id dto) s =
      (Review.suspend rpc at uuid units hash_upi_vpa owner_text n p id dto s).1

  -- The tables after one request, behind the guard of its roles.
  unfoldable pub serve : Request → Store → Store
  serve q s = elim (can_activate (roles_of q) (some (caller q))) [ ok _ ↦ handle q s | err e ↦ s ]

  unfoldable pub run : List Request → Store → Store
  run [] s = s
  run (q ∷ qs) s = run qs (serve q s)
