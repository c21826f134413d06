-- ===== src/Accounts/Users.antt =====
-- apps/api/src/users/users.service.ts and normalizeEmail, normalizePhone of
-- common/utils/normalizers.ts. A user's metadata is left out. JavaScript's `trim`, `toLowerCase` and
-- the search of the database (`contains`) are arguments.
pub mod Laws
use pay_era.Prelude.{
  ℕ, Bool, true, not, ◌&&◌, ◌||◌, Option, none, some, List, [], ◌∷◌, String, Result, ok, err,
  Action, bad_request, no_record, pure, raise, modify, transaction, ◌>>=◌, ◌>>◌, ◌==◌, str_eq,
  or_else, is_some, if◌then◌else◌, filter, length, drop, take,
}
use pay_era.Prelude.Table.{find_first, update_many}
use pay_era.Common.Pagination.{list_page}
use pay_era.Accounts.Store.{
  UserRole, UserStatus, KycStatus, WalletStatus, User, Wallet, AdminLog, Store, update_user,
  update_unique, insert_user, create_log,
}

-- `CreateUserDto`
pub record CreateUser : Type 0 where
  pub email : Option String
  pub phone_e164 : Option String
  pub display_name : Option String
  pub role : Option UserRole
  pub status : Option UserStatus

-- `UpdateUserDto`
pub record UpdateUser : Type 0 where
  pub email : Option String
  pub phone_e164 : Option String
  pub display_name : Option String
  pub role : Option UserRole
  pub status : Option UserStatus

-- `ListUsersDto` without its page; a role and a status are given by tests for them.
pub record ListUsers : Type 0 where
  pub search : Option String
  pub has_role : UserRole → Bool
  pub has_status : UserStatus → Bool

abbrev pub given : {A : Type 0} → Option A → Option A → Option A
given none old = old
given (some a) old = some a

module _ (trim to_lower_case : String → String) where
  abbrev pub normalize_email : Option String → Option String
  normalize_email none = none
  normalize_email (some e) = some (to_lower_case (trim e))

  abbrev pub normalize_phone : Option String → Option String
  normalize_phone none = none
  normalize_phone (some p) = some (trim p)

  abbrev pub new_user : CreateUser → String → ℕ → User
  new_user dto referral_code id = record {
    id = id;
    email = dto.email;
    email_normalized = normalize_email dto.email;
    phone_e164 = normalize_phone dto.phone_e164;
    display_name = dto.display_name;
    role = or_else dto.role UserRole.consumer;
    status = or_else dto.status UserStatus.active;
    referral_code = some referral_code;
    kyc_status = KycStatus.unstarted;
    kyc_reference = none;
    kyc_verified_at = none;
    hashed_refresh_token = none;
    last_login_at = none;
    deleted_at = none;
  }

  -- `create`, with the referral code that `createReferralCode` gives.
  unfoldable pub create : CreateUser → String → Action Store User
  create dto referral_code s =
      if not (is_some dto.email) && not (is_some dto.phone_e164)
      then (err (bad_request "Either email or phoneE164 is required"), s)
      else insert_user (new_user dto referral_code) s

  abbrev pub set_given : UpdateUser → User → User
  set_given dto u = record u {
    email = given dto.email u.email;
    email_normalized = given (normalize_email dto.email) u.email_normalized;
    phone_e164 = given (normalize_phone dto.phone_e164) u.phone_e164;
    display_name = given dto.display_name u.display_name;
    role = or_else dto.role u.role;
    status = or_else dto.status u.status;
  }

  -- `update`
  unfoldable pub update : ℕ → UpdateUser → Action Store User
  update id dto = update_unique id (set_given dto)

abbrev pub is_live : ℕ → User → Bool
is_live id u = u.id == id && not (is_some u.deleted_at)

-- `findOne`, and `me` of apps/api/src/auth/auth.service.ts: the user with the rows of its wallets.
unfoldable pub find_one : ℕ → Store → Result (User × List Wallet)
find_one id s = elim (find_first (is_live id) s.users) [
  | none ↦ err no_record
  | some u ↦ ok (u, filter (λ w. w.user_id == u.id) s.wallets)
]

abbrev pub set_status : UserStatus → User → User
set_status status u = record u { status = status }

unfoldable pub suspend : ℕ → Action Store User
suspend id = update_user id (set_status UserStatus.suspended)

unfoldable pub activate : ℕ → Action Store User
activate id = update_user id (set_status UserStatus.active)

abbrev pub deleted_log : ℕ → List (String × String) → AdminLog
deleted_log id metadata = record {
  actor_user_id = some id;
  action = "USER_ACCOUNT_DELETED";
  target_type = "USER";
  target_id = id;
  metadata = metadata;
}

abbrev pub set_deleted : ℕ → User → User
set_deleted now u = record u { deleted_at = some now; status = UserStatus.deleted }

-- `softDelete`; `now_text` is the time as text.
unfoldable pub soft_delete : ℕ → ℕ → String → Action Store User
soft_delete id now now_text = transaction (do
  user ← update_user id (set_deleted now)
  create_log (deleted_log id (("deletedAt", now_text) ∷ []))
  pure user)

abbrev pub set_erased : ℕ → User → User
set_erased now u = record u {
  deleted_at = some now;
  status = UserStatus.deleted;
  email = none;
  email_normalized = none;
  phone_e164 = none;
  display_name = some "Deleted User";
}

abbrev pub set_revoked : Wallet → Wallet
set_revoked w = record w { status = WalletStatus.revoked }

-- `wallet.updateMany({ where: { userId }, data: { status: 'REVOKED' } })`
abbrev pub revoke_wallets : ℕ → Action Store (Unit {0})
revoke_wallets id =
    modify (λ s. record s { wallets = update_many (λ w. w.user_id == id) set_revoked s.wallets })

-- `deleteAccount`
unfoldable pub delete_account : ℕ → ℕ → Action Store (Unit {0})
delete_account id now = transaction (do
  update_user id (set_erased now)
  revoke_wallets id
  create_log (deleted_log id (("selfDeleted", "true") ∷ [])))

module _ (contains contains_any_case : String → String → Bool)
    (to_lower_case : String → String) where
  abbrev holds : (String → Bool) → Option String → Bool
  holds p none = Bool.false
  holds p (some t) = p t

  abbrev pub is_found : Option String → User → Bool
  is_found none u = true
  is_found (some t) u =
      holds (contains_any_case t) u.display_name
      || holds (contains_any_case (to_lower_case t)) u.email_normalized
      || holds (contains t) u.phone_e164

  -- The `where` of `list`.
  abbrev pub is_listed : ListUsers → User → Bool
  is_listed q u =
      q.has_role u.role
      && q.has_status u.status
      && is_found q.search u
      && not (is_some u.deleted_at)

  -- `list`, of the users in the order of their creation, newest first.
  unfoldable pub list : ListUsers → ℕ → ℕ → List User → List User × ℕ
  list q page limit rows =
      (list_page page limit (filter (is_listed q) rows), length (filter (is_listed q) rows))

abbrev has_actor : ℕ → AdminLog → Bool
has_actor id l = elim l.actor_user_id [ none ↦ Bool.false | some a ↦ a == id ]

-- `Number(take) || 50`
abbrev or_fifty : ℕ → ℕ
or_fifty n = if n == 0 then 50 else n

-- `getAuditLog`, of the log entries in the order of their creation, newest first.
unfoldable pub get_audit_log : ℕ → ℕ → ℕ → List AdminLog → List AdminLog × ℕ
get_audit_log id skip size logs =
    let own = filter (has_actor id) logs in (take (or_fifty size) (drop skip own), length own)
