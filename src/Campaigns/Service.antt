-- ===== src/Campaigns/Service.antt =====
-- apps/api/src/campaigns/campaigns.service.ts without its analytics. The database's `contains`,
-- without regard to case, is an argument.
pub mod Requests
pub mod Laws
use pay_era.Prelude.{
  ℕ, Bool, true, false, ◌&&◌, ◌||◌, Option, none, some, List, [], ◌∷◌, String, Result, ok, err,
  Action, forbidden, not_found, pure, ◌>>=◌, ◌>>◌, ◌==◌, ltb, or_else, if◌then◌else◌, filter,
  length,
}
use pay_era.Prelude.Sort.{sort_by}
use pay_era.Common.Pagination.{list_page}
use pay_era.Accounts.Store.{Principal, is_admin}
use pay_era.Accounts.Users.{given}
use pay_era.Rewards.Store.{same_id}
use pay_era.Campaigns.Store.{
  BrandStatus, CampaignStatus, CampaignRewardType, Brand, Campaign, CampaignMerchant, Store,
  find_brand, find_campaign_row, insert_brand, insert_campaign, update_row, upsert_link,
}

-- `CreateBrandDto`
pub record CreateBrand : Type 0 where
  pub owner_user_id : Option ℕ
  pub name : String
  pub slug : String
  pub metadata : Option String

-- `CreateCampaignDto`
pub record CreateCampaign : Type 0 where
  pub brand_id : ℕ
  pub name : String
  pub description : Option String
  pub reward_type : Option CampaignRewardType
  pub threshold_amount_paise : ℕ
  pub reward_amount_star : ℕ
  pub budget_star : ℕ
  pub starts_at : Option ℕ
  pub ends_at : Option ℕ
  pub metadata : Option String

-- `UpdateCampaignDto`
pub record UpdateCampaign : Type 0 where
  pub name : Option String
  pub description : Option String
  pub status : Option CampaignStatus
  pub threshold_amount_paise : Option ℕ
  pub reward_amount_star : Option ℕ
  pub budget_star : Option ℕ
  pub starts_at : Option ℕ
  pub ends_at : Option ℕ
  pub metadata : Option String

-- `ListCampaignsDto` without its page; a reward type and a status are given by tests for them.
pub record ListCampaigns : Type 0 where
  pub brand_id : Option ℕ
  pub has_reward_type : CampaignRewardType → Bool
  pub has_status : CampaignStatus → Bool
  pub search : Option String

abbrev pub new_brand : Principal → CreateBrand → ℕ → ℕ → Brand
new_brand owner dto now id = record {
  id = id;
  owner_user_id =
      some (if is_admin owner.role then or_else dto.owner_user_id owner.id else owner.id);
  name = dto.name;
  slug = dto.slug;
  status = BrandStatus.active;
  metadata = or_else dto.metadata "{}";
  created_at = now;
}

unfoldable pub create_brand : Principal → CreateBrand → ℕ → Action Store Brand
create_brand owner dto now = insert_brand (new_brand owner dto now)

abbrev pub owns : Principal → Brand → Bool
owns owner b = is_admin owner.role || same_id b.owner_user_id (some owner.id)

-- `orderBy: { createdAt: "desc" }`
abbrev pub is_newer_brand : Brand → Brand → Bool
is_newer_brand b x = ltb x.created_at b.created_at

unfoldable pub list_brands : Principal → Store → List Brand
list_brands owner s = sort_by is_newer_brand (filter (owns owner) s.brands)

unfoldable pub assert_brand_access : Principal → ℕ → Action Store Brand
assert_brand_access owner brand_id s = elim (find_brand brand_id s.brands) [
  | none ↦ (err (not_found "Brand not found"), s)
  | some b ↦
      if owns owner b then (ok b, s) else (err (forbidden "Brand belongs to another user"), s)
]

abbrev pub new_campaign : CreateCampaign → ℕ → ℕ → Campaign
new_campaign dto now id = record {
  id = id;
  brand_id = dto.brand_id;
  name = dto.name;
  description = dto.description;
  status = CampaignStatus.draft;
  reward_type = or_else dto.reward_type CampaignRewardType.spend_and_earn;
  threshold_amount_paise = dto.threshold_amount_paise;
  reward_amount_star = dto.reward_amount_star;
  budget_star = dto.budget_star;
  spent_star = 0;
  starts_at = dto.starts_at;
  ends_at = dto.ends_at;
  metadata = or_else dto.metadata "{}";
  created_at = now;
}

unfoldable pub create_campaign : Principal → CreateCampaign → ℕ → Action Store Campaign
create_campaign owner dto now =
    assert_brand_access owner dto.brand_id >> insert_campaign (new_campaign dto now)

-- Whether the campaign's brand, which the foreign key of its table makes exist, is the caller's.
abbrev pub owns_campaign : Principal → List Brand → Campaign → Bool
owns_campaign owner brands c = is_admin owner.role || elim (find_brand c.brand_id brands) [
  | none ↦ false
  | some b ↦ same_id b.owner_user_id (some owner.id)
]

module _ (contains : String → String → Bool) where
  -- The `where` of `listCampaigns`.
  abbrev pub is_listed : Principal → List Brand → ListCampaigns → Campaign → Bool
  is_listed owner brands q c =
      owns_campaign owner brands c
      && elim q.brand_id [ none ↦ true | some b ↦ c.brand_id == b ]
      && q.has_reward_type c.reward_type
      && q.has_status c.status
      && elim q.search [ none ↦ true | some t ↦ contains t c.name ]

  -- `orderBy: { createdAt: "desc" }`
  abbrev pub is_newer : Campaign → Campaign → Bool
  is_newer c x = ltb x.created_at c.created_at

  unfoldable pub list_campaigns : Principal → ListCampaigns → ℕ → ℕ → Store → List Campaign × ℕ
  list_campaigns owner q page limit s = (
    list_page page limit (sort_by is_newer (filter (is_listed owner s.brands q) s.campaigns)),
    length (filter (is_listed owner s.brands q) s.campaigns),
  )

-- `findCampaign` with `assertCampaignAccess`
unfoldable pub find_campaign : Principal → ℕ → Action Store Campaign
find_campaign owner id s = elim (find_campaign_row id s.campaigns) [
  | none ↦ (err (not_found "Campaign not found"), s)
  | some c ↦
      if owns_campaign owner s.brands c
      then (ok c, s)
      else (err (forbidden "Campaign belongs to another user"), s)
]

abbrev pub set_given : UpdateCampaign → Campaign → Campaign
set_given dto c = record c {
  budget_star = or_else dto.budget_star c.budget_star;
  description = given dto.description c.description;
  ends_at = given dto.ends_at c.ends_at;
  metadata = or_else dto.metadata c.metadata;
  name = or_else dto.name c.name;
  reward_amount_star = or_else dto.reward_amount_star c.reward_amount_star;
  starts_at = given dto.starts_at c.starts_at;
  status = or_else dto.status c.status;
  threshold_amount_paise = or_else dto.threshold_amount_paise c.threshold_amount_paise;
}

unfoldable pub update_campaign : Principal → ℕ → UpdateCampaign → Action Store Campaign
update_campaign owner id dto = find_campaign owner id >> update_row id (set_given dto)

-- `{ status }` as an update
abbrev pub only_status : CampaignStatus → UpdateCampaign
only_status status = record {
  name = none;
  description = none;
  status = some status;
  threshold_amount_paise = none;
  reward_amount_star = none;
  budget_star = none;
  starts_at = none;
  ends_at = none;
  metadata = none;
}

unfoldable pub set_status : Principal → ℕ → CampaignStatus → Action Store Campaign
set_status owner id status = update_campaign owner id (only_status status)

unfoldable pub add_merchant : Principal → ℕ → ℕ → Action Store CampaignMerchant
add_merchant owner campaign_id merchant_id =
    find_campaign owner campaign_id >> upsert_link campaign_id merchant_id
