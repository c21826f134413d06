-- ===== src/Ramps/Reconciliation/Batch.antt =====
-- Which ramps a round of the poller takes.
use pay_era.Prelude.{
  ◌+◌, ◌⊎◌, ◌↔◌, Bool, not, String, Option-cases, leb→le, ℕ, zero, suc, ◌≤◌, ◌≡◌, refl, ◌++◌, true,
  false, inl, inr, Option, none, some, List, [], ◌∷◌, arith, All, All-map, All-drop, All-take,
  All-filter_self, Bool-cases, length, length-take-le, take, drop, filter,
}
use mathlib.Core.List.{Perm, perm_middle}
use mathlib.Core.List.Perm
use pay_era.Ramps.Status.{RampStatus, is_pending}
use pay_era.Ramps.Store.{Ramp}
use pay_era.Ramps.Reconciliation.{
  is_due, polled_by, insert_polled, sort_polled, batch, batch_size, max_age_ms,
}

abbrev pub IsBefore : Ramp → Ramp → Type 0
IsBefore a b = polled_by a.last_polled_at b.last_polled_at ≡ true

abbrev pub IsSorted : List Ramp → Type 0
IsSorted [] = Unit
IsSorted (r ∷ rs) = All (IsBefore r) rs × IsSorted rs

insert_polled-Perm : (r : Ramp) (rs : List Ramp) → Perm (insert_polled r rs) (r ∷ rs)
unfolding insert_polled
insert_polled-Perm r [] = Perm.refl (r ∷ [])
insert_polled-Perm r (x ∷ xs) = elim (Bool-cases (polled_by r.last_polled_at x.last_polled_at)) [
  | inl e ↦ rw e (Perm.refl (r ∷ x ∷ xs))
  | inr e ↦ rw e (Perm.trans (Perm.cons x (insert_polled-Perm r xs)) (Perm.swap r x xs))
]

sort_polled-Perm : (rs : List Ramp) → Perm (sort_polled rs) rs
unfolding sort_polled
sort_polled-Perm [] = Perm.refl []
sort_polled-Perm (r ∷ rs) =
    Perm.trans (insert_polled-Perm r (sort_polled rs)) (Perm.cons r (sort_polled-Perm rs))

polled_by_total : (a b : Option ℕ) → polled_by a b ≡ false → polled_by b a ≡ true
polled_by_total none b e = ground arith
polled_by_total (some a) none e = refl
polled_by_total (some a) (some b) e = ground arith

polled_by_trans :
    (a b c : Option ℕ) → polled_by a b ≡ true → polled_by b c ≡ true → polled_by a c ≡ true
polled_by_trans none b c p q = refl
polled_by_trans (some a) none c p q = ground arith
polled_by_trans (some a) (some b) none p q = ground arith
polled_by_trans (some a) (some b) (some c) p q = ground arith

All-insert_polled {κ} :
    (P : Ramp → Type κ) (r : Ramp) (rs : List Ramp) → P r → All P rs → All P (insert_polled r rs)
unfolding insert_polled
All-insert_polled P r [] p h = (p, tt)
All-insert_polled P r (x ∷ xs) p h =
    elim (Bool-cases (polled_by r.last_polled_at x.last_polled_at)) [
      | inl e ↦ rw e (p, h)
      | inr e ↦ rw e (h.0, All-insert_polled P r xs p h.1)
    ]

All-sort_polled {κ} : (P : Ramp → Type κ) (rs : List Ramp) → All P rs → All P (sort_polled rs)
unfolding sort_polled
All-sort_polled P [] h = tt
All-sort_polled P (r ∷ rs) h = All-insert_polled P r (sort_polled rs) h.0 (All-sort_polled P rs h.1)

insert_polled-IsSorted : (r : Ramp) (rs : List Ramp) → IsSorted rs → IsSorted (insert_polled r rs)
unfolding insert_polled
insert_polled-IsSorted r [] h = (tt, tt)
insert_polled-IsSorted r (x ∷ xs) h =
    elim (Bool-cases (polled_by r.last_polled_at x.last_polled_at)) [
      | inl e ↦ rw e (
        (
          e,
          All-map (IsBefore x) (IsBefore r)
              (λ y q. polled_by_trans r.last_polled_at x.last_polled_at y.last_polled_at e q) xs
              h.0,
        ),
        h,
      )
      | inr e ↦ rw e (
        All-insert_polled (IsBefore x) r xs (polled_by_total r.last_polled_at x.last_polled_at e)
            h.0,
        insert_polled-IsSorted r xs h.1,
      )
    ]

sort_polled-IsSorted : (rs : List Ramp) → IsSorted (sort_polled rs)
unfolding sort_polled
sort_polled-IsSorted [] = tt
sort_polled-IsSorted (r ∷ rs) = insert_polled-IsSorted r (sort_polled rs) (sort_polled-IsSorted rs)

take-drop : (n : ℕ) (rs : List Ramp) → take n rs ++ drop n rs ≡ rs
take-drop zero rs = refl
take-drop (suc n) [] = refl
take-drop (suc n) (r ∷ rs) = rw (take-drop n rs)

sorted_split :
    (n : ℕ) (rs : List Ramp) → IsSorted rs → All (λ a. All (IsBefore a) (drop n rs)) (take n rs)
sorted_split zero rs h = tt
sorted_split (suc n) [] h = tt
sorted_split (suc n) (r ∷ rs) h = (All-drop (IsBefore r) n rs h.0, sorted_split n rs h.1)

-- The statuses of a ramp that waits for the user, the anchor, Stellar or somebody else.
abbrev pub IsWaiting : RampStatus → Type 0
IsWaiting status =
    (status ≡ RampStatus.pending_user_transfer)
    ⊎ ((status ≡ RampStatus.pending_anchor)
        ⊎ ((status ≡ RampStatus.pending_stellar) ⊎ (status ≡ RampStatus.pending_external)))

-- A ramp that waits, that the provider knows, and that is at most 24 hours old.
abbrev pub IsDue : ℕ → Ramp → Type 0
IsDue now r =
    IsWaiting r.status
    × (((id : String) × (r.provider_tx_id ≡ some id)) × (now ≤ r.created_at + 86_400_000))

-- It was never polled, or not after the other one.
abbrev pub IsEarlier : Ramp → Ramp → Type 0
IsEarlier a b =
    (a.last_polled_at ≡ none)
    ⊎ ((x : ℕ) × ((y : ℕ) × ((a.last_polled_at ≡ some x)
            × ((b.last_polled_at ≡ some y) × (x ≤ y)))))

is_pending_iff : (status : RampStatus) → (is_pending status ≡ true) ↔ IsWaiting status
is_pending_iff RampStatus.pending_user_transfer = (λ e. inl refl, λ h. refl)
is_pending_iff RampStatus.pending_anchor = (λ e. inr (inl refl), λ h. refl)
is_pending_iff RampStatus.pending_stellar = (λ e. inr (inr (inl refl)), λ h. refl)
is_pending_iff RampStatus.pending_external = (λ e. inr (inr (inr refl)), λ h. refl)
is_pending_iff RampStatus.initiated = (λ e. ground arith, λ h. ground arith)
is_pending_iff RampStatus.completed = (λ e. ground arith, λ h. ground arith)
is_pending_iff RampStatus.refunded = (λ e. ground arith, λ h. ground arith)
is_pending_iff RampStatus.expired = (λ e. ground arith, λ h. ground arith)
is_pending_iff RampStatus.error = (λ e. ground arith, λ h. ground arith)

is_due_iff : (now : ℕ) (r : Ramp) → (is_due now r ≡ true) ↔ IsDue now r
is_due_iff now r = (
  λ e.
      let waits : IsWaiting r.status = (is_pending_iff r.status).0 (ground arith) in
      elim (Option-cases r.provider_tx_id) [
        | inl unknown ↦ ground arith
        | inr (id, known) ↦
            (waits, ((id, known), leb→le now (r.created_at + max_age_ms) (ground arith)))
      ],
  λ h.
      let waits = (is_pending_iff r.status).1 h.0 in
      let known = h.1.0.1 in let young = h.1.1 in ground (arith, waits, known, young),
)

IsBefore-IsEarlier : (a b : Ramp) → IsBefore a b → IsEarlier a b
IsBefore-IsEarlier a b e = elim (Option-cases a.last_polled_at) [
  | inl never ↦ inl never
  | inr (x, at_x) ↦ elim (Option-cases b.last_polled_at) [
    | inl never ↦ ground arith
    | inr (y, at_y) ↦ inr (x, (y, (at_x, (at_y, leb→le x y (ground arith)))))
  ]
]

partition-Perm :
    (p : Ramp → Bool) (rs : List Ramp) → Perm (filter p rs ++ filter (λ r. not (p r)) rs) rs
partition-Perm p [] = Perm.refl []
partition-Perm p (r ∷ rs) = elim (Bool-cases (p r)) [
  | inl e ↦ rw e (Perm.cons r (partition-Perm p rs))
  | inr e ↦ rw e (
      Perm.trans (perm_middle (filter p rs) (filter (λ x. not (p x)) rs))
        (Perm.cons r (partition-Perm p rs)))
]

full_or_all : (n : ℕ) (rs : List Ramp) → (drop n rs ≡ []) ⊎ (length (take n rs) ≡ n)
full_or_all zero rs = inr refl
full_or_all (suc n) [] = inl refl
full_or_all (suc n) (r ∷ rs) = elim (full_or_all n rs) [
  | inl e ↦ inl e
  | inr e ↦ inr (omega (arith, e))
]

-- What a round takes of the ramps `rs`: at most twenty. The ramps are those that it takes, those that
-- it leaves for later and others. The first two are due, the others are not; ramps are left for later
-- only where twenty are taken, and none of them was polled before one that is taken.
pub record IsRound (now : ℕ) (rs taken : List Ramp) : Type 0 where
  pub later : List Ramp
  pub others : List Ramp
  pub whole : Perm ((taken ++ later) ++ others) rs
  pub bounded : length taken ≤ 20
  pub full : (later ≡ []) ⊎ (length taken ≡ 20)
  pub taken_due : All (IsDue now) taken
  pub later_due : All (IsDue now) later
  pub others_not : All (λ r. ¬ (IsDue now r)) others
  pub fair : All (λ a. All (IsEarlier a) later) taken

-- A round of the poller takes at most twenty ramps, all of them due: they wait, are known to their
-- provider and are at most 24 hours old. Every ramp that is due is taken or left for later, and only
-- where twenty are taken is one left, none of which was polled before one that is taken.
pub batch-IsRound : (now : ℕ) (rs : List Ramp) → IsRound now rs (batch now rs)
unfolding batch
batch-IsRound now rs =
    let due = sort_polled (filter (is_due now) rs) in
    let is_true = λ (r : Ramp). is_due now r ≡ true in
    let all_due : All (IsDue now) due =
      All-map is_true (IsDue now) (λ r. (is_due_iff now r).0) due
        (All-sort_polled is_true (filter (is_due now) rs) (All-filter_self (is_due now) rs)) in
    let others = filter (λ r. not (is_due now r)) rs in
    let all : Perm (due ++ others) rs =
      Perm.trans (Perm.append_right others (sort_polled-Perm (filter (is_due now) rs)))
        (partition-Perm (is_due now) rs) in
    record {
      later = drop batch_size due;
      others = others;
      whole = rw take-drop all;
      bounded = length-take-le batch_size due;
      full = full_or_all batch_size due;
      taken_due = All-take (IsDue now) batch_size due all_due;
      later_due = All-drop (IsDue now) batch_size due all_due;
      others_not =
          All-map (λ r. not (is_due now r) ≡ true) (λ r. ¬ (IsDue now r))
            (λ r no_due is. ground (arith, (is_due_iff now r).1 is)) others
            (All-filter_self (λ r. not (is_due now r)) rs);
      fair =
          All-map (λ a. All (IsBefore a) (drop batch_size due))
            (λ a. All (IsEarlier a) (drop batch_size due))
            (λ a. All-map (IsBefore a) (IsEarlier a) (IsBefore-IsEarlier a) (drop batch_size due))
            (take batch_size due)
            (sorted_split batch_size due (sort_polled-IsSorted (filter (is_due now) rs)));
    }
