-- ===== src/Payments/Referrals.antt =====
-- apps/api/src/referrals/referrals.service.ts: inviting, accepting, qualifying and rewarding. The
-- clock and the random code are arguments; a referral's metadata is its JSON text.
pub mod Invariant
pub mod Requests
pub mod Laws
use pay_era.Prelude.{
  ℕ, ◌+◌, Bool, true, false, not, ◌&&◌, ◌||◌, Option, none, some, List, [], ◌∷◌, ◌++◌, String,
  Result, ok, err, Action, bad_request, forbidden, not_found, no_record, unique_violation, pure,
  raise, raise_if, or_raise, gets, transaction, ◌>>=◌, ◌>>◌, ◌==◌, ltb, str_eq, or_else,
  if◌then◌else◌, any, is_some,
}
use pay_era.Prelude.Table.{find_first, update_many}
use pay_era.Common.Rewards.{referral_reward_star}
use pay_era.Accounts.Store.{Principal, is_admin}
use pay_era.Payments.Store.{Transaction, RewardStatus, find_transaction}
use pay_era.Payments.Transactions.{is_completed}

pub data ReferralStatus : Type 0 where
  invited qualified rewarded expired cancelled : ReferralStatus

pub record Referral : Type 0 where
  pub id : ℕ
  pub inviter_user_id : ℕ
  pub invited_user_id : Option ℕ
  pub code : String
  pub status : ReferralStatus
  pub first_transaction_id : Option ℕ
  pub reward_amount_star : ℕ
  pub qualified_at : Option ℕ
  pub rewarded_at : Option ℕ
  pub expires_at : Option ℕ
  pub metadata : String

-- The rewards of referrals.
pub record ReferralReward : Type 0 where
  pub id : ℕ
  pub user_id : ℕ
  pub referral_id : ℕ
  pub star_amount : ℕ
  pub status : RewardStatus
  pub minted_at : Option ℕ

pub record Store : Type 0 where
  pub transactions : List Transaction
  pub referrals : List Referral
  pub rewards : List ReferralReward
  pub next_id : ℕ

abbrev pub is_qualified : ReferralStatus → Bool
is_qualified ReferralStatus.qualified = true
is_qualified ReferralStatus.invited = false
is_qualified ReferralStatus.rewarded = false
is_qualified ReferralStatus.expired = false
is_qualified ReferralStatus.cancelled = false

abbrev pub same_id : Option ℕ → ℕ → Bool
same_id none b = false
same_id (some a) b = a == b

abbrev pub find_referral : ℕ → List Referral → Option Referral
find_referral id = find_first (λ r. r.id == id)

-- `referral.update`, where another referral may hold the value of a unique column already.
abbrev pub update_referral : ℕ → (Referral → Bool) → (Referral → Referral) → Action Store Referral
update_referral id taken f s = elim (find_referral id s.referrals) [
  | none ↦ (err no_record, s)
  | some r ↦
      if any (λ x. not (x.id == id) && taken x) s.referrals
      then (err unique_violation, s)
      else (ok (f r), record s { referrals = update_many (λ x. x.id == id) f s.referrals })
]

abbrev pub new_referral : Principal → String → Option ℕ → Option String → ℕ → Referral
new_referral owner code expires_at metadata id = record {
  id = id;
  inviter_user_id = owner.id;
  invited_user_id = none;
  code = code;
  status = ReferralStatus.invited;
  first_transaction_id = none;
  reward_amount_star = referral_reward_star;
  qualified_at = none;
  rewarded_at = none;
  expires_at = expires_at;
  metadata = or_else metadata "{}";
}

unfoldable pub create_invite : Principal → String → Option ℕ → Option String → Action Store Referral
create_invite owner code expires_at metadata s =
    let r = new_referral owner code expires_at metadata s.next_id in
    if any (λ x. str_eq x.code code) s.referrals
    then (err unique_violation, s)
    else (ok r, record s { referrals = s.referrals ++ r ∷ []; next_id = s.next_id + 1 })

abbrev pub is_past : ℕ → Option ℕ → Bool
is_past now none = false
is_past now (some time) = ltb time now

abbrev pub set_accepted : Principal → Referral → Referral
set_accepted owner r = record r { invited_user_id = some owner.id; status = ReferralStatus.invited }

unfoldable pub accept : Principal → String → ℕ → Action Store Referral
accept owner code now = do
  referral? ← gets (λ s. find_first (λ r. str_eq r.code code) s.referrals)
  referral ← or_raise referral? (not_found "Referral code not found")
  raise_if (referral.inviter_user_id == owner.id) (bad_request "Cannot accept your own referral")
  raise_if (is_some referral.invited_user_id && not (same_id referral.invited_user_id owner.id))
      (bad_request "Referral code has already been accepted")
  raise_if (is_past now referral.expires_at) (bad_request "Referral code has expired")
  update_referral referral.id (λ x. same_id x.invited_user_id owner.id) (set_accepted owner)

abbrev pub may_see : Principal → Referral → Bool
may_see owner r =
    is_admin owner.role || r.inviter_user_id == owner.id || same_id r.invited_user_id owner.id

unfoldable pub find_visible : Principal → ℕ → Action Store Referral
find_visible owner id s = elim (find_referral id s.referrals) [
  | none ↦ (err (not_found "Referral not found"), s)
  | some r ↦
      if may_see owner r
      then (ok r, s)
      else (err (forbidden "Referral is not visible to this user"), s)
]

-- The payment is the invited user's and completed.
abbrev pub is_first_payment : Option ℕ → Option Transaction → Bool
is_first_payment user? none = false
is_first_payment user? (some t) = same_id user? t.user_id && is_completed t.status

abbrev pub set_qualified : ℕ → ℕ → Referral → Referral
set_qualified first now r = record r {
  first_transaction_id = some first;
  qualified_at = some now;
  status = ReferralStatus.qualified;
}

unfoldable pub qualify : Principal → ℕ → ℕ → ℕ → Action Store Referral
qualify owner id first now = do
  referral ← find_visible owner id
  raise_if (not (is_some referral.invited_user_id)) (bad_request "Referral has not been accepted")
  payment? ← gets (λ s. find_transaction first s.transactions)
  raise_if (not (is_first_payment referral.invited_user_id payment?))
      (bad_request "First transaction must be completed by the invited user")
  update_referral id (λ x. same_id x.first_transaction_id first) (set_qualified first now)

abbrev pub new_reward : Referral → ℕ → ℕ → ReferralReward
new_reward r now id = record {
  id = id;
  user_id = r.inviter_user_id;
  referral_id = r.id;
  star_amount = r.reward_amount_star;
  status = RewardStatus.minted;
  minted_at = some now;
}

abbrev pub set_minted : ReferralReward → ReferralReward
set_minted w = record w { status = RewardStatus.minted }

-- `reward.upsert({ where: { referralId } })`
abbrev pub upsert_reward : Referral → ℕ → Action Store (Unit {0})
upsert_reward r now s = elim (find_first (λ w. w.referral_id == r.id) s.rewards) [
  | none ↦ (
    ok tt,
    record s { rewards = s.rewards ++ new_reward r now s.next_id ∷ []; next_id = s.next_id + 1 },
  )
  | some w ↦
      (ok tt, record s { rewards = update_many (λ x. x.referral_id == r.id) set_minted s.rewards })
]

abbrev pub set_rewarded : ℕ → Referral → Referral
set_rewarded now r = record r { rewarded_at = some now; status = ReferralStatus.rewarded }

-- `reward`, which returns the referral.
unfoldable pub reward : Principal → ℕ → ℕ → Action Store Referral
reward owner id now = do
  referral ← find_visible owner id
  raise_if (not (is_qualified referral.status))
      (bad_request "Referral must be qualified before reward")
  transaction
      (do upsert_reward referral now; update_referral referral.id (λ x. false) (set_rewarded now))
