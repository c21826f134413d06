-- ===== src/Tests/Campaigns.antt =====
-- Campaigns at concrete inputs.
use pay_era.Prelude.{◌≡◌, refl, true, none, some, List, [], ◌∷◌, ok, arith}
use pay_era.Prelude.Sort.{sort_by, insert_by}
use pay_era.Accounts.Store.{UserRole, Principal}
use pay_era.Campaigns.Store.{
  BrandStatus, CampaignStatus, CampaignRewardType, Brand, Campaign, CampaignMerchant, Store,
}
use pay_era.Campaigns.Service.{find_campaign}
use pay_era.Campaigns.Service.Requests.{Request, status, merchant, run}
use pay_era.Campaigns.Service.Laws.{IsThere, run-IsThere}
use pay_era.Campaigns.Analytics.{Analytics, recent_rewards, timeline, tally, add_to_day, analytics}
use pay_era.Campaigns.Analytics.Laws.{IsTimeline, analytics-IsTimeline}
use pay_era.Tests.Rewards.{minted}

abbrev brand : Brand
brand = record {
  id = 1;
  owner_user_id = some 4;
  name = "Brand";
  slug = "brand";
  status = BrandStatus.active;
  metadata = "{}";
  created_at = 1;
}

abbrev campaign : Campaign
campaign = record {
  id = 2;
  brand_id = 1;
  name = "Launch";
  description = none;
  status = CampaignStatus.draft;
  reward_type = CampaignRewardType.spend_and_earn;
  threshold_amount_paise = 50000;
  reward_amount_star = 50;
  budget_star = 1000;
  spent_star = 0;
  starts_at = none;
  ends_at = none;
  metadata = "{}";
  created_at = 2;
}

abbrev link : CampaignMerchant
link = record { campaign_id = 2; merchant_id = 7; is_active = true }

-- Two rewards on the first day and one on the second, the latest first.
abbrev tables : Store
tables = record {
  brands = brand ∷ [];
  campaigns = campaign ∷ [];
  links = link ∷ [];
  merchant_ids = 7 ∷ 8 ∷ [];
  transactions = [];
  rewards =
      record minted { created_at = 86400001 } ∷ minted ∷ record minted { star_amount = 3 } ∷ [];
  next_id = 9;
}

abbrev owner : Principal
owner = record { id = 4; role = UserRole.brand_operator }

abbrev stranger : Principal
stranger = record { id = 5; role = UserRole.brand_operator }

abbrev requests : List Request
requests = status stranger 2 CampaignStatus.active ∷ merchant stranger 2 8 ∷ []

campaign-IsThere : IsThere campaign brand (link ∷ []) tables
campaign-IsThere = record { campaign = refl; its_brand = refl; its_merchants = refl }

run-IsThere_example : IsThere campaign brand (link ∷ []) (run requests tables)
run-IsThere_example =
    run-IsThere campaign brand (link ∷ []) requests tables campaign-IsThere (refl, (refl, tt))

found : find_campaign owner 2 tables ≡ (ok campaign, tables)
unfolding find_campaign
found = refl

two_days :
    timeline (λ n. n) (recent_rewards 2 tables.rewards)
    ≡ (103, record { day = 0; distributed = 53 } ∷ record { day = 1; distributed = 50 } ∷ [])
unfolding timeline tally add_to_day sort_by insert_by
two_days = refl

analytics-IsTimeline_example :
    (a : Analytics) × ((analytics (λ n. n) owner 2 tables ≡ (ok a, tables))
      × IsTimeline (recent_rewards 2 tables.rewards) a.total_distributed_star a.timeline_series)
analytics-IsTimeline_example =
    analytics-IsTimeline (λ n. n) (λ n small. refl) owner 2 tables campaign found (omega arith)
