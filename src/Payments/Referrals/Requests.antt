-- ===== src/Payments/Referrals/Requests.antt =====
-- Each request on referrals and the invariant of their tables.
use pay_era.Prelude.{
  ℕ, ◌+◌, ◌<◌, ◌≡◌, ◌≢◌, refl, sym, subst, ◌⊎◌, inl, inr, false, not, ◌&&◌, Option, none, some,
  List, [], ◌∷◌, ◌++◌, String, ok, is_ok, arith, All-append, All-map, any, ◌==◌, str_eq, is_some,
  Bool-cases, Option-cases, Result-cases,
}
use pay_era.Prelude.Table.{
  find_first, update_many, IsKeyed-append, IsDistinct, find_first-append, find_first-key,
  All-find_first, find_first_self, IsDistinct-update, All-update_many,
}
use pay_era.Accounts.Store.{Principal}
use pay_era.Payments.Store.{find_transaction}
use pay_era.Payments.Referrals.{
  Referral, ReferralReward, Store, same_id, find_referral, update_referral, new_referral,
  create_invite, accept, set_accepted, find_visible, may_see, qualify, set_qualified, new_reward,
  set_minted, upsert_reward, set_rewarded, reward, is_past, is_first_payment, is_qualified,
}
use pay_era.Payments.Referrals.Invariant.{
  referral_key, paid_for, IsOwed, IsValid, update_referral-IsValid,
}

pub create_invite-IsValid :
    (caller : Principal) (code : String) (expires : Option ℕ) (metadata : Option String) (s : Store)
    → IsValid s
    → IsValid (create_invite caller code expires metadata s).1
unfolding create_invite
create_invite-IsValid caller code expires metadata s v =
    let r = new_referral caller code expires metadata s.next_id in
    elim (Bool-cases (any (λ x. str_eq x.code code) s.referrals)) [
      | inl taken ↦
          let out : (create_invite caller code expires metadata s).1 ≡ s = ground arith in rw out v
      | inr free ↦
          let out : (create_invite caller code expires metadata s).1
              ≡ record s { referrals = s.referrals ++ r ∷ []; next_id = s.next_id + 1 } =
            ground arith in
          rw out (record {
            ids = IsKeyed-append referral_key s.next_id s.referrals r v.ids refl;
            strangers =
                All-append (λ x. same_id x.invited_user_id x.inviter_user_id ≡ false) s.referrals
                  (r ∷ []) v.strangers (refl, tt);
            once = v.once;
            owed =
                All-map (IsOwed s.referrals) (IsOwed (s.referrals ++ r ∷ []))
                  (λ w (x, found, to, amount). (
                    x,
                    find_first-append (λ y. y.id == w.referral_id) s.referrals (r ∷ []) found,
                    to,
                    amount,
                  ))
                  s.rewards v.owed;
          })
    ]

accept_cases :
    (caller : Principal) (code : String) (now : ℕ) (s : Store)
    → ((accept caller code now s).1 ≡ s)
      ⊎ ((r : Referral) × (find_first (λ x. str_eq x.code code) s.referrals ≡ some r)
          × ((r.inviter_user_id == caller.id) ≡ false)
          × ((accept caller code now s).1
              ≡ (update_referral r.id
                  (λ x. same_id x.invited_user_id caller.id)
                  (set_accepted caller)
                  s).1))
unfolding accept
accept_cases caller code now s =
    elim (Option-cases (find_first (λ x. str_eq x.code code) s.referrals)) [
      | inl missing ↦ inl (ground arith)
      | inr (r, found) ↦ elim (Bool-cases (r.inviter_user_id == caller.id)) [
        | inl own ↦ inl (ground arith)
        | inr other ↦
            elim (Bool-cases
              (is_some r.invited_user_id && not (same_id r.invited_user_id caller.id))) [
                | inl accepted ↦ inl (ground arith)
                | inr open_code ↦ elim (Bool-cases (is_past now r.expires_at)) [
                  | inl past ↦ inl (ground arith)
                  | inr valid ↦ inr (r, found, other, ground arith)
                ]
              ]
      ]
    ]

pub accept-IsValid :
    (caller : Principal) (code : String) (now : ℕ) (s : Store)
    → IsValid s
    → IsValid (accept caller code now s).1
accept-IsValid caller code now s v = elim (accept_cases caller code now s) [
  | inl same ↦ rw same v
  | inr (r, found, other, out) ↦
      let here =
        All-find_first referral_key (λ x. find_referral x.id s.referrals ≡ some x)
          (λ x. str_eq x.code code) s.referrals
          (find_first_self referral_key s.referrals v.ids.distinct) found in
      rw out (
        update_referral-IsValid r.id (λ x. same_id x.invited_user_id caller.id)
          (set_accepted caller) s v
          (record { id = λ x. refl; inviter = λ x. refl; amount = λ x. refl })
          (λ x e. ground (arith, here, e, other)))
]

find_visible_cases :
    (caller : Principal) (id : ℕ) (s : Store)
    → ((is_ok (find_visible caller id s).0 ≡ false) × ((find_visible caller id s).1 ≡ s))
      ⊎ ((r : Referral) × (find_visible caller id s ≡ (ok r, s))
          × (find_referral id s.referrals ≡ some r))
unfolding find_visible
find_visible_cases caller id s = elim (Option-cases (find_referral id s.referrals)) [
  | inl missing ↦ inl (ground arith, ground arith)
  | inr (r, found) ↦ elim (Bool-cases (may_see caller r)) [
    | inl seen ↦ inr (r, ground arith, found)
    | inr barred ↦ inl (ground arith, ground arith)
  ]
]

pub qualify-IsValid :
    (caller : Principal) (id first now : ℕ) (s : Store)
    → IsValid s
    → IsValid (qualify caller id first now s).1
unfolding qualify
qualify-IsValid caller id first now s v = elim (find_visible_cases caller id s) [
  | inl refused ↦ let out : (qualify caller id first now s).1 ≡ s = ground arith in rw out v
  | inr (r, read, found) ↦
      elim (Bool-cases (
        is_some r.invited_user_id
        && is_first_payment r.invited_user_id (find_transaction first s.transactions))) [
          | inr early ↦ let out : (qualify caller id first now s).1 ≡ s = ground arith in rw out v
          | inl paid ↦
              let out : (qualify caller id first now s).1
                  ≡ (update_referral id (λ x. same_id x.first_transaction_id first)
                      (set_qualified first now) s).1 =
                ground arith in
              rw out (
                update_referral-IsValid id (λ x. same_id x.first_transaction_id first)
                  (set_qualified first now) s v
                  (record { id = λ x. refl; inviter = λ x. refl; amount = λ x. refl })
                  (λ x e.
                    All-find_first referral_key
                      (λ y. same_id y.invited_user_id y.inviter_user_id ≡ false) (λ y. y.id == id)
                      s.referrals v.strangers e))
        ]
]

IsDistinct-added :
    (ws : List ReferralReward) (w : ReferralReward)
    → IsDistinct paid_for ws
    → find_first (λ x. x.referral_id == w.referral_id) ws ≡ none
    → IsDistinct paid_for (ws ++ w ∷ [])
IsDistinct-added [] w d e = (tt, tt)
IsDistinct-added (x ∷ ws) w d e =
    let apart : w.referral_id ≢ x.referral_id = ground (arith, e) in
    (
      All-append (λ y. paid_for y ≢ paid_for x) ws (w ∷ []) d.0 (apart, tt),
      IsDistinct-added ws w d.1 (ground (arith, e)),
    )

upsert_reward-IsValid :
    (r : Referral) (now : ℕ) (s : Store)
    → IsValid s
    → find_referral r.id s.referrals ≡ some r
    → IsValid (upsert_reward r now s).1
      × ((upsert_reward r now s).0 ≡ ok tt)
      × ((upsert_reward r now s).1.referrals ≡ s.referrals)
upsert_reward-IsValid r now s v found =
    elim (Option-cases (find_first (λ w. w.referral_id == r.id) s.rewards)) [
      | inl unpaid ↦
          let w = new_reward r now s.next_id in
          let out : upsert_reward r now s
              ≡ (ok tt, record s { rewards = s.rewards ++ w ∷ []; next_id = s.next_id + 1 }) =
            ground arith in
          rw out (
            record {
              ids = record {
                below =
                    All-map (λ x. x.id < s.next_id) (λ x. x.id < s.next_id + 1) (λ x h. omega arith)
                      s.referrals v.ids.below;
                distinct = v.ids.distinct;
              };
              strangers = v.strangers;
              once = IsDistinct-added s.rewards w v.once unpaid;
              owed =
                  All-append (IsOwed s.referrals) s.rewards (w ∷ []) v.owed
                    ((r, found, refl, refl), tt);
            },
            refl,
            refl,
          )
      | inr (w, paid) ↦
          let p = λ (x : ReferralReward). x.referral_id == r.id in
          let out : upsert_reward r now s
              ≡ (ok tt, record s { rewards = update_many p set_minted s.rewards }) =
            ground arith in
          rw out (
            record {
              ids = v.ids;
              strangers = v.strangers;
              once = IsDistinct-update paid_for p set_minted s.rewards (λ x. refl) v.once;
              owed =
                  All-update_many paid_for (IsOwed s.referrals) p set_minted s.rewards (λ x h. h)
                    v.owed;
            },
            refl,
            refl,
          )
    ]

pub reward-IsValid :
    (caller : Principal) (id now : ℕ) (s : Store) → IsValid s → IsValid (reward caller id now s).1
unfolding reward
reward-IsValid caller id now s v = elim (find_visible_cases caller id s) [
  | inl refused ↦ let out : (reward caller id now s).1 ≡ s = ground arith in rw out v
  | inr (r, read, found) ↦ elim (Bool-cases (is_qualified r.status)) [
    | inr early ↦ let out : (reward caller id now s).1 ≡ s = ground arith in rw out v
    | inl ready ↦
        let key_r : r.id ≡ id = find_first-key referral_key id s.referrals r found in
        let found_r : find_referral r.id s.referrals ≡ some r =
          subst (λ n. find_referral n s.referrals ≡ some r) (sym key_r) found in
        let (valid, passed, kept) = upsert_reward-IsValid r now s v found_r in
        let s' = (upsert_reward r now s).1 in
        let last = update_referral r.id (λ x. false) (set_rewarded now) s' in
        let done =
          update_referral-IsValid r.id (λ x. false) (set_rewarded now) s' valid
            (record { id = λ x. refl; inviter = λ x. refl; amount = λ x. refl })
            (λ x e.
              All-find_first referral_key (λ y. same_id y.invited_user_id y.inviter_user_id ≡ false)
                (λ y. y.id == r.id) s'.referrals valid.strangers e) in
        elim (Result-cases last.0) [
          | inl (a, fine) ↦
              let out : (reward caller id now s).1 ≡ last.1 = ground arith in rw out done
          | inr (e, thrown) ↦ let out : (reward caller id now s).1 ≡ s = ground arith in rw out v
        ]
  ]
]
