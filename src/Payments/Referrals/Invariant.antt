-- ===== src/Payments/Referrals/Invariant.antt =====
-- What holds of referrals and their rewards between two requests.
use pay_era.Prelude.{
  ℕ, ◌≡◌, inl, inr, Bool, false, not, ◌&&◌, some, List, arith, All, All-map, any, ◌==◌, Bool-cases,
  Option-cases,
}
use pay_era.Prelude.Table.{
  update_many, IsKeyed, IsKeyed-update, IsDistinct, find_first-update_many, All-update_one,
}
use pay_era.Payments.Referrals.{
  Referral, ReferralReward, Store, same_id, find_referral, update_referral,
}

abbrev pub referral_key : Referral → ℕ
referral_key r = r.id

abbrev pub paid_for : ReferralReward → ℕ
paid_for w = w.referral_id

-- The reward is owed: it goes to the user who invited, with the amount that was promised.
abbrev pub IsOwed : List Referral → ReferralReward → Type 0
IsOwed rs w =
    (r : Referral) × (find_referral w.referral_id rs ≡ some r)
    × (w.user_id ≡ r.inviter_user_id)
    × (w.star_amount ≡ r.reward_amount_star)

-- Referrals have distinct ids, nobody accepted an invitation of their own, no referral has two
-- rewards, and every reward is owed.
pub record IsValid (s : Store) : Type 0 where
  pub ids : IsKeyed referral_key s.next_id s.referrals
  pub strangers : All (λ r. same_id r.invited_user_id r.inviter_user_id ≡ false) s.referrals
  pub once : IsDistinct paid_for s.rewards
  pub owed : All (IsOwed s.referrals) s.rewards

-- What an update of a referral may not touch.
pub record IsModest (f : Referral → Referral) : Type 0 where
  pub id : (r : Referral) → (f r).id ≡ r.id
  pub inviter : (r : Referral) → (f r).inviter_user_id ≡ r.inviter_user_id
  pub amount : (r : Referral) → (f r).reward_amount_star ≡ r.reward_amount_star

IsOwed-updated :
    (id : ℕ) (f : Referral → Referral) (rs : List Referral) (w : ReferralReward)
    → IsModest f
    → IsOwed rs w
    → IsOwed (update_many (λ r. r.id == id) f rs) w
IsOwed-updated id f rs w m (r, found, to, amount) =
    let read = find_first-update_many referral_key id w.referral_id f rs m.id in
    elim (Bool-cases (id == w.referral_id)) [
      | inl own ↦ (f r, ground arith, ground (arith, m.inviter r), ground (arith, m.amount r))
      | inr other ↦ (r, ground arith, to, amount)
    ]

strangers_updated :
    (id : ℕ) (f : Referral → Referral) (rs : List Referral) {r : Referral}
    → IsDistinct referral_key rs
    → find_referral id rs ≡ some r
    → same_id (f r).invited_user_id (f r).inviter_user_id ≡ false
    → All (λ r. same_id r.invited_user_id r.inviter_user_id ≡ false) rs
    → All
        (λ r. same_id r.invited_user_id r.inviter_user_id ≡ false)
        (update_many (λ r. r.id == id) f rs)
strangers_updated id f rs d e p h =
    All-update_one referral_key (λ r. same_id r.invited_user_id r.inviter_user_id ≡ false) id f rs d
      e p h

pub update_referral-IsValid :
    (id : ℕ) (taken : Referral → Bool) (f : Referral → Referral) (s : Store)
    → IsValid s
    → IsModest f
    → ((r : Referral)
        → find_referral id s.referrals ≡ some r
        → same_id (f r).invited_user_id (f r).inviter_user_id ≡ false)
    → IsValid (update_referral id taken f s).1
update_referral-IsValid id taken f s v m apart =
    elim (Option-cases (find_referral id s.referrals)) [
      | inl missing ↦ let out : (update_referral id taken f s).1 ≡ s = ground arith in rw out v
      | inr (r, found) ↦ elim (Bool-cases (any (λ x. not (x.id == id) && taken x) s.referrals)) [
        | inl clash ↦ let out : (update_referral id taken f s).1 ≡ s = ground arith in rw out v
        | inr free ↦
            let out : (update_referral id taken f s).1
                ≡ record s { referrals = update_many (λ x. x.id == id) f s.referrals } =
              ground arith in
            rw out (record {
              ids =
                  IsKeyed-update referral_key s.next_id (λ x. x.id == id) f s.referrals m.id v.ids;
              strangers =
                  strangers_updated id f s.referrals v.ids.distinct found (apart r found)
                    v.strangers;
              once = v.once;
              owed =
                  All-map (IsOwed s.referrals)
                    (IsOwed (update_many (λ x. x.id == id) f s.referrals))
                    (λ w. IsOwed-updated id f s.referrals w m) s.rewards v.owed;
            })
      ]
    ]
