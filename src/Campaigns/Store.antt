-- ===== src/Campaigns/Store.antt =====
-- The tables of brands, campaigns and the merchants of a campaign (apps/api/prisma/schema.prisma).
-- Times are milliseconds; a JSON column is its text.
use pay_era.Prelude.{
  ℕ, ◌+◌, Bool, ◌&&◌, Option, none, some, List, [], ◌∷◌, ◌++◌, String, ok, err, Action, no_record,
  unique_violation, key_violation, ◌==◌, str_eq, any, if◌then◌else◌,
}
use pay_era.Prelude.Table.{find_first, update_many}
use pay_era.Payments.Store.{Transaction}
use pay_era.Rewards.Store.{Reward}

pub data BrandStatus : Type 0 where
  active suspended archived : BrandStatus

pub data CampaignStatus : Type 0 where
  draft active paused completed cancelled : CampaignStatus

pub data CampaignRewardType : Type 0 where
  welcome_bonus double_rewards spend_and_earn referral_campaign custom : CampaignRewardType

pub record Brand : Type 0 where
  pub id : ℕ
  pub owner_user_id : Option ℕ
  pub name : String
  pub slug : String
  pub status : BrandStatus
  pub metadata : String
  pub created_at : ℕ

pub record Campaign : Type 0 where
  pub id : ℕ
  pub brand_id : ℕ
  pub name : String
  pub description : Option String
  pub status : CampaignStatus
  pub reward_type : CampaignRewardType
  pub threshold_amount_paise : ℕ
  pub reward_amount_star : ℕ
  pub budget_star : ℕ
  pub spent_star : ℕ
  pub starts_at : Option ℕ
  pub ends_at : Option ℕ
  pub metadata : String
  pub created_at : ℕ

pub record CampaignMerchant : Type 0 where
  pub campaign_id : ℕ
  pub merchant_id : ℕ
  pub is_active : Bool

-- Of the merchants, the ids; `transactions` and `rewards` are read for the analytics.
pub record Store : Type 0 where
  pub brands : List Brand
  pub campaigns : List Campaign
  pub links : List CampaignMerchant
  pub merchant_ids : List ℕ
  pub transactions : List Transaction
  pub rewards : List Reward
  pub next_id : ℕ

abbrev pub key : Campaign → ℕ
key c = c.id

abbrev pub find_brand : ℕ → List Brand → Option Brand
find_brand id = find_first (λ b. b.id == id)

abbrev pub find_campaign_row : ℕ → List Campaign → Option Campaign
find_campaign_row id = find_first (λ c. c.id == id)

-- `brand.create({ data })`
unfoldable pub insert_brand : (ℕ → Brand) → Action Store Brand
insert_brand make s =
    if any (λ b. str_eq (make s.next_id).slug b.slug) s.brands then (err unique_violation, s) else (
      ok (make s.next_id),
      record s { brands = s.brands ++ make s.next_id ∷ []; next_id = s.next_id + 1 },
    )

-- `campaign.create({ data })`, for a brand that exists
abbrev pub insert_campaign : (ℕ → Campaign) → Action Store Campaign
insert_campaign make s = (
  ok (make s.next_id),
  record s { campaigns = s.campaigns ++ make s.next_id ∷ []; next_id = s.next_id + 1 },
)

-- `campaign.update({ where: { id }, data })`
unfoldable pub update_row : ℕ → (Campaign → Campaign) → Action Store Campaign
update_row id f s = elim (find_campaign_row id s.campaigns) [
  | none ↦ (err no_record, s)
  | some c ↦ (ok (f c), record s { campaigns = update_many (λ x. x.id == id) f s.campaigns })
]

-- `where: { campaignId_merchantId: { campaignId, merchantId } }`
abbrev pub is_link : ℕ → ℕ → CampaignMerchant → Bool
is_link campaign_id merchant_id l = l.campaign_id == campaign_id && l.merchant_id == merchant_id

abbrev pub set_active : CampaignMerchant → CampaignMerchant
set_active l = record l { is_active = Bool.true }

abbrev pub new_link : ℕ → ℕ → CampaignMerchant
new_link campaign_id merchant_id = record {
  campaign_id = campaign_id;
  merchant_id = merchant_id;
  is_active = Bool.true;
}

-- `campaignMerchant.upsert({ create, update, where })`
unfoldable pub upsert_link : ℕ → ℕ → Action Store CampaignMerchant
upsert_link campaign_id merchant_id s =
    elim (find_first (is_link campaign_id merchant_id) s.links) [
      | some l ↦ (
        ok (set_active l),
        record s { links = update_many (is_link campaign_id merchant_id) set_active s.links },
      )
      | none ↦
          if any (λ m. m == merchant_id) s.merchant_ids
          then (
            ok (new_link campaign_id merchant_id),
            record s { links = s.links ++ new_link campaign_id merchant_id ∷ [] },
          )
          else (err key_violation, s)
    ]
