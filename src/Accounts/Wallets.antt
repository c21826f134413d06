-- ===== src/Accounts/Wallets.antt =====
-- apps/api/src/wallets/wallets.service.ts and normalizeWalletAddress of common/utils/normalizers.ts.
-- JavaScript's `trim` and `toLowerCase` are arguments.
pub mod Primary
pub mod Laws
use pay_era.Prelude.{
  ℕ, ◌+◌, Bool, true, false, not, ◌&&◌, ◌||◌, Option, none, some, List, [], ◌∷◌, ◌++◌, String, ok,
  err, Action, forbidden, not_found, unique_violation, no_record, pure, raise_if, modify,
  transaction, ◌>>=◌, ◌>>◌, ◌==◌, str_eq, or_else, if◌then◌else◌, any, filter, length,
}
use pay_era.Prelude.Table.{find_first, update_many}
use pay_era.Common.Pagination.{list_page}
use pay_era.Accounts.Store.{WalletStatus, Principal, is_admin, Wallet, Store}

-- `CreateWalletDto`
pub record CreateWallet : Type 0 where
  pub provider : String
  pub network : String
  pub address : String
  pub label : Option String
  pub public_key : Option String
  pub is_primary : Option Bool
  pub metadata : Option String

-- `UpdateWalletDto`
pub record UpdateWallet : Type 0 where
  pub label : Option String
  pub is_primary : Option Bool
  pub status : Option WalletStatus
  pub metadata : Option String

-- `ListWalletsDto` without its page; a status is given by a test for it.
pub record ListWallets : Type 0 where
  pub network : Option String
  pub provider : Option String
  pub has_status : WalletStatus → Bool

abbrev pub clear : Wallet → Wallet
clear w = record w { is_primary = false }

-- `wallet.updateMany({ data: { isPrimary: false }, where: { userId } })`
abbrev pub clear_primary : ℕ → Action Store (Unit {0})
clear_primary user_id =
    modify (λ s. record s { wallets = update_many (λ w. w.user_id == user_id) clear s.wallets })

abbrev pub clear_if : Option Bool → ℕ → Action Store (Unit {0})
clear_if none user_id = pure tt
clear_if (some false) user_id = pure tt
clear_if (some true) user_id = clear_primary user_id

-- `wallet.create({ data })` on a table whose addresses are unique in a network.
abbrev pub insert_wallet : (ℕ → Wallet) → Action Store Wallet
insert_wallet make s =
    let w = make s.next_id in
    if any (λ x. str_eq x.network w.network && str_eq x.address_normalized w.address_normalized)
      s.wallets
    then (err unique_violation, s)
    else (ok w, record s { wallets = s.wallets ++ w ∷ []; next_id = s.next_id + 1 })

-- `wallet.update({ where: { id }, data })`
abbrev pub update_wallet : ℕ → (Wallet → Wallet) → Action Store Wallet
update_wallet id f s = elim (find_first (λ w. w.id == id) s.wallets) [
  | none ↦ (err no_record, s)
  | some w ↦ (ok (f w), record s { wallets = update_many (λ x. x.id == id) f s.wallets })
]

module _ (trim to_lower_case : String → String) where
  abbrev pub normalize_wallet_address : String → String
  normalize_wallet_address address = to_lower_case (trim address)

  abbrev pub new_wallet : Principal → CreateWallet → ℕ → ℕ → Wallet
  new_wallet owner dto now id = record {
    id = id;
    user_id = owner.id;
    address = dto.address;
    address_normalized = normalize_wallet_address dto.address;
    network = dto.network;
    provider = dto.provider;
    label = dto.label;
    public_key = dto.public_key;
    metadata = or_else dto.metadata "{}";
    is_primary = or_else dto.is_primary false;
    status = WalletStatus.active;
    verified_at = some now;
    last_used_at = none;
  }

  unfoldable pub create : Principal → CreateWallet → ℕ → Action Store Wallet
  create owner dto now =
      transaction (clear_if dto.is_primary owner.id >> insert_wallet (new_wallet owner dto now))

-- `assertWalletAccess`
abbrev pub may_access : Principal → ℕ → Bool
may_access owner user_id = is_admin owner.role || owner.id == user_id

-- `findOne`
unfoldable pub find_one : Principal → ℕ → Action Store Wallet
find_one owner id s = elim (find_first (λ w. w.id == id) s.wallets) [
  | none ↦ (err (not_found "Wallet not found"), s)
  | some w ↦
      if may_access owner w.user_id
      then (ok w, s)
      else (err (forbidden "Wallet belongs to another user"), s)
]

abbrev pub set_given : UpdateWallet → Wallet → Wallet
set_given dto w = record w {
  is_primary = or_else dto.is_primary w.is_primary;
  label = elim dto.label [ none ↦ w.label | some l ↦ some l ];
  metadata = or_else dto.metadata w.metadata;
  status = or_else dto.status w.status;
}

-- `update`
unfoldable pub update : Principal → ℕ → UpdateWallet → Action Store Wallet
update owner id dto = do
  wallet ← find_one owner id
  transaction (clear_if dto.is_primary wallet.user_id >> update_wallet id (set_given dto))

abbrev pub set_disconnected : Wallet → Wallet
set_disconnected w = record w { is_primary = false; status = WalletStatus.disconnected }

-- `disconnect`
unfoldable pub disconnect : Principal → ℕ → Action Store Wallet
disconnect owner id = find_one owner id >> update_wallet id set_disconnected

abbrev pub is_given : Option String → String → Bool
is_given none text = true
is_given (some t) text = str_eq t text

-- The `where` of `list`.
abbrev pub is_listed : Principal → ListWallets → Wallet → Bool
is_listed owner q w =
    may_access owner w.user_id
    && is_given q.network w.network
    && is_given q.provider w.provider
    && q.has_status w.status

-- `list`, of the wallets in the order of their creation, newest first.
unfoldable pub list : Principal → ListWallets → ℕ → ℕ → List Wallet → List Wallet × ℕ
list owner q page limit rows = (
  list_page page limit (filter (is_listed owner q) rows),
  length (filter (is_listed owner q) rows),
)
