-- ===== src/Common/Rewards.antt =====
-- apps/api/src/common/utils/rewards.ts. Amounts are bigints that are never negative.
use pay_era.Prelude.{ℕ, ◌+◌, ◌*◌, ◌/◌, ◌≤◌, ◌<◌, arith}

abbrev pub star_per_100_inr : ℕ
star_per_100_inr = 10

abbrev pub paise_per_100_inr : ℕ
paise_per_100_inr = 10000

abbrev pub referral_reward_star : ℕ
referral_reward_star = 100

unfoldable pub calculate_spend_reward_star : ℕ → ℕ
calculate_spend_reward_star amount_in_paise = amount_in_paise / paise_per_100_inr * star_per_100_inr

-- The reward is ten STAR for each whole 100 rupees: the largest multiple of ten with a thousand
-- paise to the STAR that the amount covers. Paying in two parts never earns more than paying at
-- once, and at most one step of ten STAR less.
pub calculate_spend_reward_star_lem :
    (a b : ℕ)
    → let star = calculate_spend_reward_star in
      (star a * 1000 ≤ a)
      × (a < (star a + 10) * 1000)
      × (star a + star b ≤ star (a + b))
      × (star (a + b) ≤ star a + star b + 10)
unfolding calculate_spend_reward_star
calculate_spend_reward_star_lem a b = omega arith
