-- ===== src/Campaigns/Analytics/Laws.antt =====
-- The timeline of a campaign: its total, its days and their order.
use pay_era.Prelude.{
  ℕ, ◌+◌, ◌≤◌, ◌<◌, ◌≡◌, ◌≢◌, refl, inl, inr, Bool, true, List, [], ◌∷◌, ok, arith, ◌==◌, ltb,
  if◌then◌else◌, All, All-map, Bool-cases, bind_ok,
}
use pay_era.Prelude.Table.{IsDistinct}
use pay_era.Prelude.Sort.{insert_by, sort_by, All-insert_by, All-sort_by}
use pay_era.Accounts.Store.{Principal}
use pay_era.Rewards.Store.{Reward}
use pay_era.Rewards.Service.{star_sum}
use pay_era.Campaigns.Store.{Campaign, Store}
use pay_era.Campaigns.Service.{find_campaign}
use pay_era.Campaigns.Analytics.{
  Point, Analytics, day_of, recent_rewards, add_to_day, tally, is_before, timeline, report,
  analytics,
}

-- The largest number up to which doubles hold every natural number: 2 ^ 53.
abbrev pub exact_limit : ℕ
exact_limit = 9007199254740992

-- What the series gives to the days that pass a test.
abbrev pub weigh : (ℕ → Bool) → List Point → ℕ
weigh on [] = 0
weigh on (p ∷ ps) = (if on p.day then p.distributed else 0) + weigh on ps

-- The days of the series go up, so that no day is there twice.
abbrev pub IsAscending : List Point → Type 0
IsAscending [] = Unit
IsAscending (p ∷ ps) = All (λ q. p.day < q.day) ps × IsAscending ps

weigh-insert_by :
    (on : ℕ → Bool) (p : Point) (ps : List Point)
    → weigh on (insert_by is_before p ps) ≡ weigh on (p ∷ ps)
unfolding insert_by
weigh-insert_by on p [] = refl
weigh-insert_by on p (q ∷ ps) = elim (Bool-cases (ltb p.day q.day)) [
  | inl e ↦ rw (e, insert_by) refl
  | inr e ↦ rw (e, insert_by) (omega (arith, weigh-insert_by on p ps))
]

weigh-sort_by : (on : ℕ → Bool) (ps : List Point) → weigh on (sort_by is_before ps) ≡ weigh on ps
unfolding sort_by
weigh-sort_by on [] = refl
weigh-sort_by on (p ∷ ps) =
    omega (arith, weigh-insert_by on p (sort_by is_before ps), weigh-sort_by on ps)

insert_by-IsAscending :
    (p : Point) (ps : List Point)
    → All (λ q. q.day ≢ p.day) ps
    → IsAscending ps
    → IsAscending (insert_by is_before p ps)
unfolding insert_by
insert_by-IsAscending p [] apart h = (tt, tt)
insert_by-IsAscending p (q ∷ ps) apart h = elim (Bool-cases (ltb p.day q.day)) [
  | inl e ↦
      let first : p.day < q.day = ground arith in
      rw (e, insert_by)
        ((first, All-map (λ x. q.day < x.day) (λ x. p.day < x.day) (λ x k. omega arith) ps h.0), h)
  | inr e ↦
      let not_equal = apart.0 in
      let later : q.day < p.day = ground arith in
      rw (e, insert_by)
        (
          All-insert_by is_before (λ x. q.day < x.day) p ps later h.0,
          insert_by-IsAscending p ps apart.1 h.1,
        )
]

sort_by-IsAscending :
    (ps : List Point) → IsDistinct (λ p. p.day) ps → IsAscending (sort_by is_before ps)
unfolding sort_by
sort_by-IsAscending [] d = tt
sort_by-IsAscending (p ∷ ps) d =
    insert_by-IsAscending p (sort_by is_before ps)
      (All-sort_by is_before (λ q. q.day ≢ p.day) ps d.0) (sort_by-IsAscending ps d.1)

module _ (round : ℕ → ℕ) (limit : ℕ) (exact : (n : ℕ) → n ≤ limit → round n ≡ n) where
  weigh-add_to_day :
      (on : ℕ → Bool) (day amount : ℕ) (ps : List Point)
      → weigh (λ _. true) ps + amount ≤ limit
      → weigh on (add_to_day round day amount ps) ≡ weigh on ps + (if on day then amount else 0)
  unfolding add_to_day
  weigh-add_to_day on day amount [] h = ground (arith, exact (0 + amount) (omega (arith, h)))
  weigh-add_to_day on day amount (p ∷ ps) h = elim (Bool-cases (p.day == day)) [
    | inl own ↦
        let day_is : p.day ≡ day = ground arith in
        let sum = exact (p.distributed + amount) (omega (arith, h)) in
        rw (own, add_to_day, sum, ← day_is) (ground arith)
    | inr other ↦
        let rest = weigh-add_to_day on day amount ps (omega (arith, h)) in
        rw (other, add_to_day) (omega (arith, rest))
  ]

  tally-sums :
      (on : ℕ → Bool) (rs : List Reward) (total : ℕ) (ps : List Point)
      → weigh (λ _. true) ps ≡ total
      → total + star_sum (λ _. true) rs ≤ limit
      → let (t, series) = tally round rs total ps in
        (t ≡ total + star_sum (λ _. true) rs)
        × (weigh on series ≡ weigh on ps + star_sum (λ r. on (day_of r)) rs)
  unfolding tally
  tally-sums on [] total ps e h = (omega arith, omega arith)
  tally-sums on (r ∷ rs) total ps e h =
      let amount = exact r.star_amount (omega (arith, h)) in
      let sum = exact (total + r.star_amount) (omega (arith, h)) in
      let all = weigh-add_to_day (λ _. true) (day_of r) r.star_amount ps (omega (arith, e, h)) in
      let some_days = weigh-add_to_day on (day_of r) r.star_amount ps (omega (arith, e, h)) in
      let rest =
        tally-sums on rs (total + r.star_amount) (add_to_day round (day_of r) r.star_amount ps)
          (omega (arith, e, all)) (omega (arith, h)) in
      rw (amount, tally) (rw sum (omega (arith, rest.0), omega (arith, rest.1, some_days)))

  All-add_to_day :
      (other day amount : ℕ) (ps : List Point)
      → day ≢ other
      → All (λ p. p.day ≢ other) ps
      → All (λ p. p.day ≢ other) (add_to_day round day amount ps)
  unfolding add_to_day
  All-add_to_day other day amount [] apart h = (apart, tt)
  All-add_to_day other day amount (p ∷ ps) apart h = elim (Bool-cases (p.day == day)) [
    | inl own ↦ rw (own, add_to_day) h
    | inr new ↦ rw (new, add_to_day) (h.0, All-add_to_day other day amount ps apart h.1)
  ]

  add_to_day-IsDistinct :
      (day amount : ℕ) (ps : List Point)
      → IsDistinct (λ p. p.day) ps
      → IsDistinct (λ p. p.day) (add_to_day round day amount ps)
  unfolding add_to_day
  add_to_day-IsDistinct day amount [] d = (tt, tt)
  add_to_day-IsDistinct day amount (p ∷ ps) d = elim (Bool-cases (p.day == day)) [
    | inl own ↦ rw (own, add_to_day) d
    | inr new ↦
        rw (new, add_to_day)
          (
            All-add_to_day p.day day amount ps (λ e. ground arith) d.0,
            add_to_day-IsDistinct day amount ps d.1,
          )
  ]

  tally-IsDistinct :
      (rs : List Reward) (total : ℕ) (ps : List Point)
      → IsDistinct (λ p. p.day) ps
      → IsDistinct (λ p. p.day) (tally round rs total ps).1
  unfolding tally
  tally-IsDistinct [] total ps d = d
  tally-IsDistinct (r ∷ rs) total ps d =
      let amount = round r.star_amount in
      tally-IsDistinct rs (round (total + amount)) (add_to_day round (day_of r) amount ps)
        (add_to_day-IsDistinct (day_of r) amount ps d)

-- The total and the series of the timeline, independently of the loop that computes them.
abbrev pub IsTimeline : List Reward → ℕ → List Point → Type 0
IsTimeline rs total series =
    (total ≡ star_sum (λ _. true) rs)
    × (IsAscending series
        × ((day : ℕ) → weigh (λ d. d == day) series ≡ star_sum (λ r. day_of r == day) rs))

timeline-IsTimeline :
    (round : ℕ → ℕ)
    → ((n : ℕ) → n ≤ exact_limit → round n ≡ n)
    → (rs : List Reward) → star_sum (λ _. true) rs ≤ exact_limit
    → IsTimeline rs (timeline round rs).0 (timeline round rs).1
unfolding timeline
timeline-IsTimeline round exact rs small =
    let series = (tally round rs 0 []).1 in
    let sums = λ (on : ℕ → Bool).
      tally-sums round exact_limit exact on rs 0 [] refl (omega (arith, small)) in
    (
      omega (arith, (sums (λ _. true)).0),
      (
        sort_by-IsAscending series (tally-IsDistinct round exact_limit exact rs 0 [] tt),
        λ day. omega (arith, weigh-sort_by (λ d. d == day) series, (sums (λ d. d == day)).1),
      ),
    )

-- Who may see a campaign gets its analytics, with nothing written. While the MINTED rewards of the
-- campaign come to at most 2 ^ 53 STAR, the total is their sum, and the series gives each day the sum
-- of the rewards of that day, in the order of the days, no day twice.
pub analytics-IsTimeline :
    (round : ℕ → ℕ)
    → ((n : ℕ) → n ≤ exact_limit → round n ≡ n)
    → (owner : Principal) (id : ℕ) (s : Store) (c : Campaign) → find_campaign owner id s ≡ (ok c, s)
    → star_sum (λ _. true) (recent_rewards id s.rewards) ≤ exact_limit
    → (a : Analytics) × ((analytics round owner id s ≡ (ok a, s))
        × IsTimeline (recent_rewards id s.rewards) a.total_distributed_star a.timeline_series)
unfolding analytics report
analytics-IsTimeline round exact owner id s c found small = (
  report round id s,
  (
    bind_ok (find_campaign owner id) (λ _ t. (ok (report round id t), t)) s c s found,
    timeline-IsTimeline round exact (recent_rewards id s.rewards) small,
  ),
)
