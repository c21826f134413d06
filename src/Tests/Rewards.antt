-- ===== src/Tests/Rewards.antt =====
-- The balances of rewards at concrete inputs.
use pay_era.Prelude.{◌≡◌, refl, none, some, [], ◌∷◌, ok, arith}
use pay_era.Prelude.Table.{IsKeyed}
use pay_era.Payments.Store.{RewardReason, RewardStatus}
use pay_era.Rewards.Store.{Reward, Store, key, update_reward}
use pay_era.Rewards.Service.{balance_of, set_minted, set_reversed, mint, reverse}
use pay_era.Rewards.Service.Laws.{IsMoved, mint-IsMoved}

-- A campaign's reward that was minted on the first of January 1970.
abbrev pub minted : Reward
minted = record {
  id = 1;
  user_id = 4;
  transaction_id = none;
  campaign_id = some 2;
  referral_id = none;
  reason = RewardReason.campaign;
  status = RewardStatus.minted;
  star_amount = 50;
  formula_version = "MANUAL_V1";
  rule_snapshot = "{}";
  stellar_mint_hash = some "H";
  minted_at = some 5;
  reversed_at = none;
  metadata = "{}";
  created_at = 5;
}

abbrev rewards : Store
rewards = record { rewards = minted ∷ []; transactions = []; merchants = []; next_id = 2 }

rewards-IsKeyed : IsKeyed key rewards.next_id rewards.rewards
rewards-IsKeyed = record { below = (omega arith, tt); distinct = (tt, tt) }

mint-IsMoved_example :
    let before = balance_of 4 rewards.rewards in
    let (minted_now, s₁) = mint 1 90 rewards in
    let (reversed, s₂) = reverse 1 90 rewards in
    ((minted_now ≡ ok (set_minted 90 minted))
      × IsMoved RewardStatus.minted 4 minted before (balance_of 4 s₁.rewards))
    × ((reversed ≡ ok (set_reversed 90 minted))
        × IsMoved RewardStatus.reversed 4 minted before (balance_of 4 s₂.rewards))
mint-IsMoved_example = mint-IsMoved 1 90 4 rewards rewards-IsKeyed refl

-- A reversed reward can be minted again, and its hash is lost.
minted_again : (mint 1 91 (reverse 1 90 rewards).1).0 ≡ ok (set_minted 91 (set_reversed 90 minted))
unfolding mint reverse update_reward
minted_again = refl
