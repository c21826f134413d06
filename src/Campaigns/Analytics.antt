-- ===== src/Campaigns/Analytics.antt =====
-- CampaignsService.analytics (apps/api/src/campaigns/campaigns.service.ts). JavaScript's numbers are
-- natural numbers that `round` takes to the nearest one that a double holds; a day of
-- `toISOString` is its number since 1970, in whose order `localeCompare` sorts the dates up to the
-- year 9999.
pub mod Laws
use pay_era.Prelude.{
  ℕ, ◌+◌, ◌/◌, Bool, true, false, ◌&&◌, List, [], ◌∷◌, Option, some, Action, pure, ◌>>=◌, ok, err,
  ◌==◌, ltb, if◌then◌else◌, filter, length,
}
use pay_era.Prelude.Sort.{sort_by}
use pay_era.Accounts.Store.{Principal}
use pay_era.Payments.Store.{Transaction}
use pay_era.Rewards.Store.{Reward, same_id}
use pay_era.Rewards.Service.{is_minted}
use pay_era.Campaigns.Store.{CampaignMerchant, Store}
use pay_era.Campaigns.Service.{find_campaign}

-- An entry of `timelineSeries`.
pub record Point : Type 0 where
  pub day : ℕ
  pub distributed : ℕ

-- The answer of `analytics`.
pub record Analytics : Type 0 where
  pub merchants : ℕ
  pub participant_count : ℕ
  pub total_distributed_star : ℕ
  pub revenue_influenced_paise : ℕ
  pub transactions : ℕ
  pub timeline_series : List Point

-- `reward.createdAt.toISOString().split("T")[0]`
abbrev pub day_of : Reward → ℕ
day_of r = r.created_at / 86400000

abbrev pub recent_rewards : ℕ → List Reward → List Reward
recent_rewards campaign_id =
    filter (λ r. same_id r.campaign_id (some campaign_id) && is_minted r.status)

abbrev pub paise_sum : List Transaction → ℕ
paise_sum [] = 0
paise_sum (t ∷ ts) = t.amount_in_paise + paise_sum ts

-- `.sort((a, b) => a.day.localeCompare(b.day))`
abbrev pub is_before : Point → Point → Bool
is_before p x = ltb p.day x.day

abbrev pub of_campaign : ℕ → Transaction → Bool
of_campaign id t = same_id t.campaign_id (some id)

abbrev pub is_joined : ℕ → CampaignMerchant → Bool
is_joined id l = l.campaign_id == id && l.is_active

module _ (round : ℕ → ℕ) where
  -- `seriesMap.set(day, …)`: a day that has no entry gets 0 first, at the end of the map.
  unfoldable pub add_to_day : ℕ → ℕ → List Point → List Point
  add_to_day day amount [] = record { day = day; distributed = round (0 + amount) } ∷ []
  add_to_day day amount (p ∷ ps) =
      if p.day == day
      then record p { distributed = round (p.distributed + amount) } ∷ ps
      else p ∷ add_to_day day amount ps

  -- The loop over the rewards, with the total and the map so far.
  unfoldable pub tally : List Reward → ℕ → List Point → ℕ × List Point
  tally [] total series = (total, series)
  tally (r ∷ rs) total series =
      let amount = round r.star_amount in
      tally rs (round (total + amount)) (add_to_day (day_of r) amount series)

  -- `totalDistributedSTAR` and `timelineSeries`
  unfoldable pub timeline : List Reward → ℕ × List Point
  timeline rs = let (total, series) = tally rs 0 [] in (total, sort_by is_before series)

  unfoldable pub report : ℕ → Store → Analytics
  report campaign_id s = record {
    merchants = length (filter (is_joined campaign_id) s.links);
    participant_count = length (filter (of_campaign campaign_id) s.transactions);
    total_distributed_star = (timeline (recent_rewards campaign_id s.rewards)).0;
    revenue_influenced_paise = paise_sum (filter (of_campaign campaign_id) s.transactions);
    transactions = length (filter (of_campaign campaign_id) s.transactions);
    timeline_series = (timeline (recent_rewards campaign_id s.rewards)).1;
  }

  unfoldable pub analytics : Principal → ℕ → Action Store Analytics
  analytics owner campaign_id =
      find_campaign owner campaign_id >>= λ _. λ s. (ok (report campaign_id s), s)
