-- ===== src/Rewards/Service.antt =====
-- apps/api/src/rewards/rewards.service.ts.
pub mod Laws
use pay_era.Prelude.{
  ℕ, ◌+◌, Bool, true, false, not, ◌&&◌, ◌||◌, Option, none, some, List, [], ◌∷◌, String, ok, err,
  Action, Result, forbidden, not_found, ◌==◌, ltb, or_else, if◌then◌else◌, filter, length,
}
use pay_era.Prelude.Sort.{sort_by}
use pay_era.Common.Pagination.{list_page}
use pay_era.Common.Rewards.{calculate_spend_reward_star}
use pay_era.Accounts.Store.{Principal, is_admin}
use pay_era.Payments.Store.{RewardReason, RewardStatus, find_transaction, find_merchant}
use pay_era.Rewards.Store.{Reward, Store, find_reward, same_id, insert_reward, update_reward}

-- The answer of `calculateSpendReward`.
pub record SpendReward : Type 0 where
  pub amount_in_paise : ℕ
  pub formula : String
  pub star_amount : ℕ

unfoldable pub calculate_spend_reward : ℕ → SpendReward
calculate_spend_reward amount_in_paise = record {
  amount_in_paise = amount_in_paise;
  formula = "10 STAR per INR 100 spent";
  star_amount = calculate_spend_reward_star amount_in_paise;
}

-- `CreateRewardDto`
pub record CreateReward : Type 0 where
  pub user_id : ℕ
  pub transaction_id : Option ℕ
  pub campaign_id : Option ℕ
  pub referral_id : Option ℕ
  pub reason : RewardReason
  pub star_amount : ℕ
  pub status : Option RewardStatus
  pub formula_version : Option String
  pub rule_snapshot : Option String
  pub metadata : Option String

abbrev pub new_reward : CreateReward → ℕ → ℕ → Reward
new_reward dto now id = record {
  id = id;
  user_id = dto.user_id;
  transaction_id = dto.transaction_id;
  campaign_id = dto.campaign_id;
  referral_id = dto.referral_id;
  reason = dto.reason;
  status = or_else dto.status RewardStatus.pending;
  star_amount = dto.star_amount;
  formula_version = or_else dto.formula_version "MANUAL_V1";
  rule_snapshot = or_else dto.rule_snapshot "{}";
  stellar_mint_hash = none;
  minted_at = none;
  reversed_at = none;
  metadata = or_else dto.metadata "{}";
  created_at = now;
}

unfoldable pub create : (Reward → Bool) → CreateReward → ℕ → Action Store Reward
create has_keys dto now = insert_reward has_keys (new_reward dto now)

-- `reward.transaction?.merchant.ownerUserId`
abbrev pub merchant_owner : Store → Reward → Option ℕ
merchant_owner s r = elim r.transaction_id [
  | none ↦ none
  | some t ↦ elim (find_transaction t s.transactions) [
    | none ↦ none
    | some t ↦ elim (find_merchant t.merchant_id s.merchants) [
      | none ↦ none
      | some m ↦ m.owner_user_id
    ]
  ]
]

-- `assertRewardAccess`
abbrev pub may_see : Principal → Store → Reward → Bool
may_see owner s r =
    is_admin owner.role || r.user_id == owner.id || same_id (merchant_owner s r) (some owner.id)

-- `ListRewardsDto` without its page; a reason and a status are given by tests for them.
pub record ListRewards : Type 0 where
  pub user_id : Option ℕ
  pub has_reason : RewardReason → Bool
  pub has_status : RewardStatus → Bool

-- The `where` of `list`, whose `OR` names the same rows as `assertRewardAccess`.
abbrev pub is_listed : Principal → Store → ListRewards → Reward → Bool
is_listed owner s q r =
    (is_admin owner.role || r.user_id == owner.id || same_id (merchant_owner s r) (some owner.id))
    && q.has_reason r.reason
    && q.has_status r.status
    && elim q.user_id [ none ↦ true | some u ↦ r.user_id == u ]

-- `orderBy: { createdAt: "desc" }`
abbrev pub is_newer : Reward → Reward → Bool
is_newer r x = ltb x.created_at r.created_at

unfoldable pub list : Principal → ListRewards → ℕ → ℕ → Store → List Reward × ℕ
list owner q page limit s = (
  list_page page limit (sort_by is_newer (filter (is_listed owner s q) s.rewards)),
  length (filter (is_listed owner s q) s.rewards),
)

unfoldable pub find_one : Principal → ℕ → Action Store Reward
find_one owner id s = elim (find_reward id s.rewards) [
  | none ↦ (err (not_found "Reward not found"), s)
  | some r ↦
      if may_see owner s r
      then (ok r, s)
      else (err (forbidden "Reward is not visible to this user"), s)
]

-- `aggregate({ _sum: { starAmount }, where })`, with 0 for no row
abbrev pub star_sum : (Reward → Bool) → List Reward → ℕ
star_sum p [] = 0
star_sum p (r ∷ rs) = (if p r then r.star_amount else 0) + star_sum p rs

abbrev pub is_minted : RewardStatus → Bool
is_minted RewardStatus.minted = true
is_minted RewardStatus.pending = false
is_minted RewardStatus.failed = false
is_minted RewardStatus.reversed = false

abbrev pub is_pending : RewardStatus → Bool
is_pending RewardStatus.pending = true
is_pending RewardStatus.minted = false
is_pending RewardStatus.failed = false
is_pending RewardStatus.reversed = false

pub record Balance : Type 0 where
  pub lifetime_star : ℕ
  pub minted_star : ℕ
  pub pending_star : ℕ
  pub user_id : ℕ

unfoldable pub balance_of : ℕ → List Reward → Balance
balance_of user rs = record {
  lifetime_star = star_sum (λ r. r.user_id == user) rs;
  minted_star = star_sum (λ r. is_minted r.status && r.user_id == user) rs;
  pending_star = star_sum (λ r. is_pending r.status && r.user_id == user) rs;
  user_id = user;
}

unfoldable pub balance : Principal → Option ℕ → Store → Result Balance
balance owner user_id s =
    if not (is_admin owner.role) && not (or_else user_id owner.id == owner.id)
    then err (forbidden "Cannot read another user's reward balance")
    else ok (balance_of (or_else user_id owner.id) s.rewards)

abbrev pub set_minted : ℕ → Reward → Reward
set_minted now r = record r {
  minted_at = some now;
  status = RewardStatus.minted;
  stellar_mint_hash = none;
}

abbrev pub set_reversed : ℕ → Reward → Reward
set_reversed now r = record r { reversed_at = some now; status = RewardStatus.reversed }

unfoldable pub mint : ℕ → ℕ → Action Store Reward
mint id now = update_reward id (set_minted now)

unfoldable pub reverse : ℕ → ℕ → Action Store Reward
reverse id now = update_reward id (set_reversed now)
