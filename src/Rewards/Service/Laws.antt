-- ===== src/Rewards/Service/Laws.antt =====
-- The balances of users, and who sees which reward.
use pay_era.Prelude.{
  ℕ, ◌+◌, ◌≡◌, refl, inl, inr, Bool, true, ◌&&◌, some, List, [], ◌∷◌, ok, arith, ◌==◌,
  if◌then◌else◌, All, All-map, All-both, All-filter, All-filter_self, All-take, All-drop,
  Bool-cases, filter, drop, ◌-◌, ◌*◌,
}
use pay_era.Prelude.Table.{IsDistinct, IsKeyed, find_first_self, update_many, update_many-absent}
use pay_era.Prelude.Sort.{sort_by, All-sort_by}
use pay_era.Common.Pagination.{list_page, to_pagination}
use pay_era.Accounts.Store.{Principal}
use pay_era.Payments.Store.{RewardStatus}
use pay_era.Rewards.Store.{Reward, Store, key, find_reward, update_reward}
use pay_era.Rewards.Service.{
  ListRewards, Balance, star_sum, is_minted, is_pending, balance_of, set_minted, set_reversed, mint,
  reverse, find_one, list, may_see, is_listed, is_newer,
}

-- What `star_sum` takes of one reward.
abbrev pub part : Bool → Reward → ℕ
part counts r = if counts then r.star_amount else 0

star_sum-update :
    (p : Reward → Bool) (id : ℕ) (f : Reward → Reward) (rs : List Reward) {r : Reward}
    → ((x : Reward) → (f x).star_amount ≡ x.star_amount)
    → IsDistinct key rs
    → find_reward id rs ≡ some r
    → star_sum p (update_many (λ x. x.id == id) f rs) + part (p r) r
      ≡ star_sum p rs + part (p (f r)) r
star_sum-update p id f [] same d e = ground arith
star_sum-update p id f (x ∷ rs) {r} same d e = elim (Bool-cases (x.id == id)) [
  | inl own ↦
      let key_x : x.id ≡ id = ground arith in
      let absent = update_many-absent key id f rs (rw key_x at d.0) in
      ground (arith, same x, absent)
  | inr other ↦ ground (arith, star_sum-update p id f rs {r = r} same d.1 (ground arith))
]

-- The balances of `user` when the reward `r` gets another status.
abbrev pub IsMoved : RewardStatus → ℕ → Reward → Balance → Balance → Type 0
IsMoved status user r before after =
    let mine = r.user_id == user in
    (after.lifetime_star ≡ before.lifetime_star)
    × ((after.minted_star + part (is_minted r.status && mine) r
          ≡ before.minted_star + part (is_minted status && mine) r)
        × (after.pending_star + part (is_pending r.status && mine) r
            ≡ before.pending_star + part (is_pending status && mine) r))

update-IsMoved :
    (status : RewardStatus) (id user : ℕ) (f : Reward → Reward) (rs : List Reward) {r : Reward}
    → ((x : Reward) → (f x).star_amount ≡ x.star_amount)
    → ((x : Reward) → (f x).user_id ≡ x.user_id)
    → ((x : Reward) → (f x).status ≡ status)
    → IsDistinct key rs
    → find_reward id rs ≡ some r
    → IsMoved status user r
        (balance_of user rs)
        (balance_of user (update_many (λ x. x.id == id) f rs))
unfolding balance_of
update-IsMoved status id user f rs {r} amount owner becomes d e =
    let own = λ (x : Reward). x.user_id == user in
    let all_sum = star_sum-update own id f rs {r = r} amount d e in
    let minted_sum =
      star_sum-update (λ x. is_minted x.status && own x) id f rs {r = r} amount d e in
    let pending_sum =
      star_sum-update (λ x. is_pending x.status && own x) id f rs {r = r} amount d e in
    let all' = rw (owner r) at all_sum in
    let minted' = rw (owner r, becomes r) at minted_sum in
    let pending' = rw (owner r, becomes r) at pending_sum in
    (omega (arith, all'), (minted', pending'))

-- Minting and reversing a reward both succeed whatever its status is. Where `user` owns the reward,
-- the minted and the pending balance each lose its amount if its old status counts there, and gain it
-- if the new one does; the lifetime balance stays. The balances of other users stay.
pub mint-IsMoved :
    (id now user : ℕ) (s : Store) {r : Reward}
    → IsKeyed key s.next_id s.rewards
    → find_reward id s.rewards ≡ some r
    → let before = balance_of user s.rewards in
      let (minted, s₁) = mint id now s in
      let (reversed, s₂) = reverse id now s in
      ((minted ≡ ok (set_minted now r))
        × IsMoved RewardStatus.minted user r before (balance_of user s₁.rewards))
      × ((reversed ≡ ok (set_reversed now r))
          × IsMoved RewardStatus.reversed user r before (balance_of user s₂.rewards))
unfolding mint reverse update_reward
mint-IsMoved id now user s {r} h e =
    let minted =
      update-IsMoved RewardStatus.minted id user (set_minted now) s.rewards {r = r} (λ x. refl)
        (λ x. refl) (λ x. refl) h.distinct e in
    let reversed =
      update-IsMoved RewardStatus.reversed id user (set_reversed now) s.rewards {r = r} (λ x. refl)
        (λ x. refl) (λ x. refl) h.distinct e in
    (
      (rw (e, mint, update_reward) refl, rw (e, mint, update_reward) minted),
      (rw (e, reverse, update_reward) refl, rw (e, reverse, update_reward) reversed),
    )

find_one-visible :
    (owner : Principal) (s : Store) (r : Reward)
    → find_reward r.id s.rewards ≡ some r
    → may_see owner s r ≡ true
    → find_one owner r.id s ≡ (ok r, s)
unfolding find_one
find_one-visible owner s r e h = rw (e, h, find_one) refl

-- Whatever a request lists, the same caller can open: `findOne` returns each reward of the page.
pub list-find_one :
    (owner : Principal) (q : ListRewards) (page limit : ℕ) (s : Store)
    → IsKeyed key s.next_id s.rewards
    → All (λ r. find_one owner r.id s ≡ (ok r, s)) (list owner q page limit s).0
unfolding list list_page to_pagination
list-find_one owner q page limit s h =
    let P = λ (r : Reward). find_one owner r.id s ≡ (ok r, s) in
    let listed = is_listed owner s q in
    let rows = filter listed s.rewards in
    let found : All (λ r. find_reward r.id s.rewards ≡ some r) rows =
      All-filter (λ r. find_reward r.id s.rewards ≡ some r) listed s.rewards
        (find_first_self key s.rewards h.distinct) in
    let opens : All P rows =
      All-map (λ r. (find_reward r.id s.rewards ≡ some r) × (listed r ≡ true)) P
        (λ r both. find_one-visible owner s r both.0 (ground (arith, both.1))) rows
        (All-both (λ r. find_reward r.id s.rewards ≡ some r) (λ r. listed r ≡ true) rows found
          (All-filter_self listed s.rewards)) in
    All-take P limit (drop ((page - 1) * limit) (sort_by is_newer rows))
      (All-drop P ((page - 1) * limit) (sort_by is_newer rows) (All-sort_by is_newer P rows opens))
