-- ===== src/Accounts/Store.antt =====
-- The tables of users, wallets, administrator logs and outgoing events (apps/api/prisma), with the
-- columns that the services of apps/api/src read or write. Times are milliseconds,
-- a wallet's metadata is its JSON text.
use pay_era.Prelude.{
  ℕ, ◌+◌, Bool, false, not, ◌&&◌, ◌||◌, Option, none, some, List, [], ◌∷◌, ◌++◌, String, ok, err,
  Action, no_record, unique_violation, ◌==◌, str_eq, any, if◌then◌else◌,
}
use pay_era.Prelude.Table.{find_first, update_many}

pub data UserRole : Type 0 where
  consumer merchant_operator brand_operator admin : UserRole

pub data UserStatus : Type 0 where
  pending_onboarding active suspended deleted : UserStatus

-- `unstarted` is NONE.
pub data KycStatus : Type 0 where
  unstarted pending verified rejected : KycStatus

pub data WalletStatus : Type 0 where
  active disconnected revoked : WalletStatus

abbrev pub is_admin : UserRole → Bool
is_admin UserRole.admin = Bool.true
is_admin UserRole.consumer = Bool.false
is_admin UserRole.merchant_operator = Bool.false
is_admin UserRole.brand_operator = Bool.false

abbrev pub kyc_name : KycStatus → String
kyc_name KycStatus.unstarted = "NONE"
kyc_name KycStatus.pending = "PENDING"
kyc_name KycStatus.verified = "VERIFIED"
kyc_name KycStatus.rejected = "REJECTED"

-- The caller of a service (`AuthenticatedPrincipal`).
pub record Principal : Type 0 where
  pub id : ℕ
  pub role : UserRole

pub record User : Type 0 where
  pub id : ℕ
  pub email : Option String
  pub email_normalized : Option String
  pub phone_e164 : Option String
  pub display_name : Option String
  pub role : UserRole
  pub status : UserStatus
  pub referral_code : Option String
  pub kyc_status : KycStatus
  pub kyc_reference : Option String
  pub kyc_verified_at : Option ℕ
  pub hashed_refresh_token : Option String
  pub last_login_at : Option ℕ
  pub deleted_at : Option ℕ

pub record Wallet : Type 0 where
  pub id : ℕ
  pub user_id : ℕ
  pub address : String
  pub address_normalized : String
  pub network : String
  pub provider : String
  pub label : Option String
  pub public_key : Option String
  pub metadata : String
  pub is_primary : Bool
  pub status : WalletStatus
  pub verified_at : Option ℕ
  pub last_used_at : Option ℕ

pub record AdminLog : Type 0 where
  pub actor_user_id : Option ℕ
  pub action : String
  pub target_type : String
  pub target_id : ℕ
  pub metadata : List (String × String)

pub record OutboxEvent : Type 0 where
  pub aggregate_type : String
  pub aggregate_id : ℕ
  pub event_type : String
  pub payload : KycStatus

pub record Store : Type 0 where
  pub users : List User
  pub wallets : List Wallet
  pub logs : List AdminLog
  pub outbox : List OutboxEvent
  pub next_id : ℕ

-- `user.update({ where: { id }, data })`
abbrev pub update_user : ℕ → (User → User) → Action Store User
update_user id f s = elim (find_first (λ u. u.id == id) s.users) [
  | none ↦ (err no_record, s)
  | some u ↦ (ok (f u), record s { users = update_many (λ x. x.id == id) f s.users })
]

-- `adminLog.create({ data })`
abbrev pub create_log : AdminLog → Action Store (Unit {0})
create_log l s = (ok tt, record s { logs = s.logs ++ l ∷ [] })

-- Two values of a unique column that may be empty.
abbrev pub same_text : Option String → Option String → Bool
same_text (some a) (some b) = str_eq a b
same_text (some a) none = false
same_text none b = false

-- The unique columns of `User`.
abbrev pub clashes : User → User → Bool
clashes u x =
    same_text u.email_normalized x.email_normalized
    || same_text u.phone_e164 x.phone_e164
    || same_text u.referral_code x.referral_code

-- `user.create({ data })`
abbrev pub insert_user : (ℕ → User) → Action Store User
insert_user make s =
    let u = make s.next_id in
    if any (clashes u) s.users
    then (err unique_violation, s)
    else (ok u, record s { users = s.users ++ u ∷ []; next_id = s.next_id + 1 })

-- `user.update({ where: { id }, data })` where a unique column is written.
abbrev pub update_unique : ℕ → (User → User) → Action Store User
update_unique id f s = elim (find_first (λ u. u.id == id) s.users) [
  | none ↦ (err no_record, s)
  | some u ↦
      if any (λ x. not (x.id == id) && clashes (f u) x) s.users
      then (err unique_violation, s)
      else (ok (f u), record s { users = update_many (λ x. x.id == id) f s.users })
]
