-- ===== src/Rewards/Store.antt =====
-- The table of rewards (apps/api/prisma/schema.prisma) with the columns that the service writes, and
-- the tables that it joins. Times are milliseconds; a JSON column is its text.
use pay_era.Prelude.{
  ℕ, ◌+◌, Bool, true, false, ◌&&◌, ◌||◌, Option, none, some, List, [], ◌∷◌, ◌++◌, String, ok, err,
  Action, no_record, unique_violation, key_violation, ◌==◌, any, not, if◌then◌else◌,
}
use pay_era.Prelude.Table.{find_first, update_many}
use pay_era.Payments.Store.{RewardReason, RewardStatus, Transaction, Merchant}

pub record Reward : Type 0 where
  pub id : ℕ
  pub user_id : ℕ
  pub transaction_id : Option ℕ
  pub campaign_id : Option ℕ
  pub referral_id : Option ℕ
  pub reason : RewardReason
  pub status : RewardStatus
  pub star_amount : ℕ
  pub formula_version : String
  pub rule_snapshot : String
  pub stellar_mint_hash : Option String
  pub minted_at : Option ℕ
  pub reversed_at : Option ℕ
  pub metadata : String
  pub created_at : ℕ

pub record Store : Type 0 where
  pub rewards : List Reward
  pub transactions : List Transaction
  pub merchants : List Merchant
  pub next_id : ℕ

abbrev pub key : Reward → ℕ
key r = r.id

abbrev pub find_reward : ℕ → List Reward → Option Reward
find_reward id = find_first (λ r. r.id == id)

abbrev pub same_id : Option ℕ → Option ℕ → Bool
same_id (some a) (some b) = a == b
same_id (some a) none = false
same_id none b = false

abbrev pub same_reason : RewardReason → RewardReason → Bool
same_reason RewardReason.spend RewardReason.spend = true
same_reason RewardReason.referral RewardReason.referral = true
same_reason RewardReason.campaign RewardReason.campaign = true
same_reason RewardReason.merchant RewardReason.merchant = true
same_reason _ _ = false

-- The unique columns of `Reward` that a new row has; a new row has no hash.
abbrev pub clashes : Reward → Reward → Bool
clashes r x =
    same_id r.referral_id x.referral_id
    || same_id r.transaction_id x.transaction_id && same_reason r.reason x.reason

-- `reward.create({ data })`; `has_keys` tells whether the rows that the new row names exist.
unfoldable pub insert_reward : (Reward → Bool) → (ℕ → Reward) → Action Store Reward
insert_reward has_keys make s =
    if any (clashes (make s.next_id)) s.rewards
    then (err unique_violation, s)
    else if not (has_keys (make s.next_id))
    then (err key_violation, s)
    else (
      ok (make s.next_id),
      record s { rewards = s.rewards ++ make s.next_id ∷ []; next_id = s.next_id + 1 },
    )

-- `reward.update({ where: { id }, data })`, of columns that are not unique or become null
unfoldable pub update_reward : ℕ → (Reward → Reward) → Action Store Reward
update_reward id f s = elim (find_reward id s.rewards) [
  | none ↦ (err no_record, s)
  | some r ↦ (ok (f r), record s { rewards = update_many (λ x. x.id == id) f s.rewards })
]
