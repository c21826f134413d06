-- ===== src/Campaigns/Service/Requests.antt =====
-- The requests that write to the tables of campaigns, one after another.
use pay_era.Prelude.{ℕ, List, [], ◌∷◌}
use pay_era.Accounts.Store.{Principal}
use pay_era.Campaigns.Store.{CampaignStatus, Store}
use pay_era.Campaigns.Service.{
  CreateBrand, CreateCampaign, UpdateCampaign, create_brand, create_campaign, update_campaign,
  set_status, add_merchant,
}

pub data Request : Type 0 where
  brand : Principal → CreateBrand → ℕ → Request
  creation : Principal → CreateCampaign → ℕ → Request
  change : Principal → ℕ → UpdateCampaign → Request
  status : Principal → ℕ → CampaignStatus → Request
  merchant : Principal → ℕ → ℕ → Request

abbrev pub caller : Request → Principal
caller (brand p dto now) = p
caller (creation p dto now) = p
caller (change p id dto) = p
caller (status p id s) = p
caller (merchant p id m) = p

-- The tables after one request.
unfoldable pub serve : Request → Store → Store
serve (brand p dto now) s = (create_brand p dto now s).1
serve (creation p dto now) s = (create_campaign p dto now s).1
serve (change p id dto) s = (update_campaign p id dto s).1
serve (status p id st) s = (set_status p id st s).1
serve (merchant p id m) s = (add_merchant p id m s).1

unfoldable pub run : List Request → Store → Store
run [] s = s
run (q ∷ qs) s = run qs (serve q s)
