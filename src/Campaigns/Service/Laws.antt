-- ===== src/Campaigns/Service/Laws.antt =====
-- Who can change a campaign, over any sequence of requests.
use pay_era.Prelude.{
  ℕ, ◌≡◌, ◌⊎◌, inl, inr, refl, sym, subst, true, false, some, List, [], ◌∷◌, ok, err, Exception,
  not_found, forbidden, bind_ok, bind_err, arith, Bool-cases, Option-cases, All, filter,
  filter-append, any, str_eq, append-nil, ◌==◌,
}
use pay_era.Prelude.Table.{find_first, find_first-append, find_first-update_many, update_many}
use pay_era.Accounts.Store.{Principal}
use pay_era.Campaigns.Store.{
  Brand, Campaign, CampaignMerchant, Store, key, find_brand, find_campaign_row, insert_brand,
  update_row, is_link, set_active, new_link, upsert_link, insert_campaign,
}
use pay_era.Campaigns.Service.{
  CreateBrand, CreateCampaign, UpdateCampaign, new_brand, create_brand, owns, assert_brand_access,
  new_campaign, create_campaign, owns_campaign, find_campaign, set_given, update_campaign,
  only_status, set_status, add_merchant,
}
use pay_era.Campaigns.Service.Requests.{
  Request, brand, creation, change, status, merchant, caller, serve, run,
}

abbrev pub merchants_of : ℕ → List CampaignMerchant → List CampaignMerchant
merchants_of id = filter (λ l. l.campaign_id == id)

module _ (c : Campaign) (b : Brand) (ls : List CampaignMerchant) where
  -- The campaign `c` of the brand `b` with the merchants `ls` is as it is in the tables.
  pub record IsThere (s : Store) : Type 0 where
    pub campaign : find_campaign_row c.id s.campaigns ≡ some c
    pub its_brand : find_brand c.brand_id s.brands ≡ some b
    pub its_merchants : merchants_of c.id s.links ≡ ls

  create_brand-IsThere :
      (p : Principal) (dto : CreateBrand) (now : ℕ) (s : Store)
      → IsThere s
      → IsThere (create_brand p dto now s).1
  unfolding create_brand insert_brand
  create_brand-IsThere p dto now s h =
      let make = new_brand p dto now in
      elim (Bool-cases (any (λ x. str_eq (make s.next_id).slug x.slug) s.brands)) [
        | inl taken ↦ rw (taken, create_brand, insert_brand) h
        | inr free ↦
            rw (free, create_brand, insert_brand)
              (record {
                campaign = h.campaign;
                its_brand =
                    find_first-append (λ x. x.id == c.brand_id) s.brands (make s.next_id ∷ [])
                      h.its_brand;
                its_merchants = h.its_merchants;
              })
      ]

  assert_brand_access_cases :
      (p : Principal) (id : ℕ) (s : Store)
      → ((x : Brand) × (assert_brand_access p id s ≡ (ok x, s)))
        ⊎ ((e : Exception) × (assert_brand_access p id s ≡ (err e, s)))
  unfolding assert_brand_access
  assert_brand_access_cases p id s = elim (Option-cases (find_brand id s.brands)) [
    | inl absent ↦ inr (not_found "Brand not found", ground arith)
    | inr (x, found) ↦ elim (Bool-cases (owns p x)) [
      | inl own ↦ inl (x, ground arith)
      | inr other ↦ inr (forbidden "Brand belongs to another user", ground arith)
    ]
  ]

  create_campaign-IsThere :
      (p : Principal) (dto : CreateCampaign) (now : ℕ) (s : Store)
      → IsThere s
      → IsThere (create_campaign p dto now s).1
  unfolding create_campaign
  create_campaign-IsThere p dto now s h =
      let make = new_campaign dto now in
      let next = λ (_ : Brand). insert_campaign make in
      let access = assert_brand_access p dto.brand_id in
      elim (assert_brand_access_cases p dto.brand_id s) [
        | inl (x, e) ↦
            subst (λ y. IsThere y.1) (sym (bind_ok access next s x s e))
              (record {
                campaign =
                    find_first-append (λ y. y.id == c.id) s.campaigns (make s.next_id ∷ [])
                      h.campaign;
                its_brand = h.its_brand;
                its_merchants = h.its_merchants;
              })
        | inr (x, e) ↦ subst (λ y. IsThere y.1) (sym (bind_err access next s x s e)) h
      ]

  update_row-IsThere :
      (id : ℕ) (f : Campaign → Campaign) (s : Store)
      → (id == c.id) ≡ false
      → ((x : Campaign) → (f x).id ≡ x.id)
      → IsThere s
      → IsThere (update_row id f s).1
  unfolding update_row
  update_row-IsThere id f s other same h = elim (Option-cases (find_campaign_row id s.campaigns)) [
    | inl absent ↦ rw (absent, update_row) h
    | inr (x, found) ↦
        let kept = find_first-update_many key id c.id f s.campaigns same in
        rw (found, update_row)
          (record {
            campaign = ground (arith, kept, h.campaign);
            its_brand = h.its_brand;
            its_merchants = h.its_merchants;
          })
  ]

  merchants_of-update :
      (id m : ℕ) (ks : List CampaignMerchant)
      → (id == c.id) ≡ false
      → merchants_of c.id (update_many (is_link id m) set_active ks) ≡ merchants_of c.id ks
  merchants_of-update id m [] other = refl
  merchants_of-update id m (k ∷ ks) other = ground (arith, merchants_of-update id m ks other)

  upsert_link-IsThere :
      (id m : ℕ) (s : Store) → (id == c.id) ≡ false → IsThere s → IsThere (upsert_link id m s).1
  unfolding upsert_link
  upsert_link-IsThere id m s other h = elim (Option-cases (find_first (is_link id m) s.links)) [
    | inr (l, found) ↦
        rw (found, upsert_link)
          (record {
            campaign = h.campaign;
            its_brand = h.its_brand;
            its_merchants = ground (arith, merchants_of-update id m s.links other, h.its_merchants);
          })
    | inl absent ↦ elim (Bool-cases (any (λ x. x == m) s.merchant_ids)) [
      | inr missing ↦ rw (absent, missing, upsert_link) h
      | inl present ↦
          let added = filter-append (λ l. l.campaign_id == c.id) s.links (new_link id m ∷ []) in
          rw (absent, present, upsert_link)
            (record {
              campaign = h.campaign;
              its_brand = h.its_brand;
              its_merchants =
                  ground
                    (arith, other, added, append-nil (merchants_of c.id s.links), h.its_merchants);
            })
    ]
  ]

  -- Whoever may not touch the brand is let through only for another campaign.
  find_campaign_cases :
      (p : Principal) (id : ℕ) (s : Store)
      → IsThere s
      → owns p b ≡ false
      → ((x : Campaign) × ((find_campaign p id s ≡ (ok x, s)) × ((id == c.id) ≡ false)))
        ⊎ ((e : Exception) × (find_campaign p id s ≡ (err e, s)))
  unfolding find_campaign
  find_campaign_cases p id s h barred = elim (Option-cases (find_campaign_row id s.campaigns)) [
    | inl absent ↦ inr (not_found "Campaign not found", ground arith)
    | inr (x, found) ↦ elim (Bool-cases (owns_campaign p s.brands x)) [
      | inr other ↦ inr (forbidden "Campaign belongs to another user", ground arith)
      | inl own ↦ elim (Bool-cases (id == c.id)) [
        | inr other ↦ inl (x, (ground arith, other))
        | inl same ↦
            let id_is : id ≡ c.id = ground arith in
            let found_c : find_campaign_row c.id s.campaigns ≡ some x = rw (← id_is) found in
            let x_is : x ≡ c = ground (arith, found_c, h.campaign) in
            let own_c = subst (λ y. owns_campaign p s.brands y ≡ true) x_is own in
            ground (arith, own_c, h.its_brand)
      ]
    ]
  ]

  update_campaign-IsThere :
      (p : Principal) (id : ℕ) (dto : UpdateCampaign) (s : Store)
      → IsThere s
      → owns p b ≡ false
      → IsThere (update_campaign p id dto s).1
  unfolding update_campaign
  update_campaign-IsThere p id dto s h barred =
      let next = λ (_ : Campaign). update_row id (set_given dto) in
      elim (find_campaign_cases p id s h barred) [
        | inr (x, e) ↦ subst (λ y. IsThere y.1) (sym (bind_err (find_campaign p id) next s x s e)) h
        | inl (x, (e, other)) ↦
            subst (λ y. IsThere y.1) (sym (bind_ok (find_campaign p id) next s x s e))
              (update_row-IsThere id (set_given dto) s other (λ y. refl) h)
      ]

  add_merchant-IsThere :
      (p : Principal) (id m : ℕ) (s : Store)
      → IsThere s
      → owns p b ≡ false
      → IsThere (add_merchant p id m s).1
  unfolding add_merchant
  add_merchant-IsThere p id m s h barred =
      let next = λ (_ : Campaign). upsert_link id m in
      elim (find_campaign_cases p id s h barred) [
        | inr (x, e) ↦ subst (λ y. IsThere y.1) (sym (bind_err (find_campaign p id) next s x s e)) h
        | inl (x, (e, other)) ↦
            subst (λ y. IsThere y.1) (sym (bind_ok (find_campaign p id) next s x s e))
              (upsert_link-IsThere id m s other h)
      ]

  serve-IsThere :
      (q : Request) (s : Store) → IsThere s → owns (caller q) b ≡ false → IsThere (serve q s)
  unfolding serve set_status
  serve-IsThere (brand p dto now) s h barred = create_brand-IsThere p dto now s h
  serve-IsThere (creation p dto now) s h barred = create_campaign-IsThere p dto now s h
  serve-IsThere (change p id dto) s h barred = update_campaign-IsThere p id dto s h barred
  serve-IsThere (status p id st) s h barred =
      update_campaign-IsThere p id (only_status st) s h barred
  serve-IsThere (merchant p id m) s h barred = add_merchant-IsThere p id m s h barred

  -- Whatever users other than administrators and the owner of its brand request, in any number and
  -- order, a campaign, its brand and the merchants of the campaign stay as they are.
  pub run-IsThere :
      (qs : List Request) (s : Store)
      → IsThere s
      → All (λ q. owns (caller q) b ≡ false) qs
      → IsThere (run qs s)
  unfolding run
  run-IsThere [] s h barred = h
  run-IsThere (q ∷ qs) s h barred =
      run-IsThere qs (serve q s) (serve-IsThere q s h barred.0) barred.1
