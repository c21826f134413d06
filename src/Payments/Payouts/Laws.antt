-- ===== src/Payments/Payouts/Laws.antt =====
-- What a round of the poller of payouts does to the settlement instructions.
use pay_era.Prelude.{
  ℕ, ◌+◌, ◌≤◌, ◌≡◌, ◌≢◌, refl, subst, ◌∙◌, inl, inr, true, false, Option, none, some, List, [], ◌∷◌,
  arith, filter, take, length, length-take-le, All, All-map, All-filter, All-take, All-filter_self,
  ◌==◌, Bool-cases, Option-cases, ==_refl, All-both, if◌then◌else◌,
}
use pay_era.Prelude.Table.{
  find_first, find_first-update_many, IsDistinct, IsDistinct-filter, IsDistinct-take,
  find_first_self,
}
use pay_era.Payments.Store.{Settlement, Store}
use pay_era.Payments.Payouts.{
  PayoutStatus, Check, is_sent, is_polled, pending_settlements, set_polled, ask, poll_one,
  poll_each, handle_pending_settlements,
}

abbrev pub settlement_key : Settlement → ℕ
settlement_key x = x.id

abbrev pub find_settlement : ℕ → List Settlement → Option Settlement
find_settlement n = find_first (λ x. x.id == n)

set_polled-id :
    (now : ℕ) (row : Settlement) (a : PayoutStatus) (x : Settlement)
    → (set_polled now row a x).id ≡ x.id
unfolding set_polled
set_polled-id now row a x = ground arith

module _ (check : Check) (now : ℕ) where
  -- The row of a polled instruction after its answer; where the check throws it is as before.
  abbrev pub polled : ℕ → Settlement → Settlement
  polled call x = elim (ask check call x) [ none ↦ x | some answer ↦ set_polled now x answer x ]

  -- The instructions of a batch have the rows that their answers, in this order, give them.
  abbrev pub Polled : ℕ → List Settlement → List Settlement → Type 0
  Polled call [] xs = Unit
  Polled call (r ∷ rs) xs =
      (find_settlement r.id xs ≡ some (polled call r)) × Polled (call + 1) rs xs

  find_poll_one :
      (call n : ℕ) (r : Settlement) (xs : List Settlement)
      → find_settlement r.id xs ≡ some r
      → find_settlement n (poll_one check now call r xs)
        ≡ (if r.id == n then some (polled call r) else find_settlement n xs)
  unfolding poll_one
  find_poll_one call n r xs e = elim (Option-cases (ask check call r)) [
    | inl none_answer ↦ elim (Bool-cases (r.id == n)) [
      | inl own ↦
          let same : r.id ≡ n = ground arith in
          let e' : find_settlement n xs ≡ some r =
            subst (λ m. find_settlement m xs ≡ some r) same e in
          ground arith
      | inr other ↦ ground arith
    ]
    | inr (a, answered) ↦
        let read =
          find_first-update_many settlement_key r.id n (set_polled now r a) xs
            (set_polled-id now r a) in
        ground (arith, read, e)
  ]

  still :
      (call : ℕ) (r : Settlement) (rs xs : List Settlement)
      → find_settlement r.id xs ≡ some r
      → All (λ x. find_settlement x.id xs ≡ some x) rs
      → All (λ x. x.id ≢ r.id) rs
      → All (λ x. find_settlement x.id (poll_one check now call r xs) ≡ some x) rs
  still call r [] xs e found apart = tt
  still call r (x ∷ rs) xs e found apart = (
    ground (arith, find_poll_one call x.id r xs e, apart.0, found.0),
    still call r rs xs e found.1 apart.1,
  )

  poll_each-kept :
      (call n : ℕ) (rs xs : List Settlement)
      → All (λ r. find_settlement r.id xs ≡ some r) rs
      → IsDistinct settlement_key rs
      → All (λ r. r.id ≢ n) rs
      → find_settlement n (poll_each check now call rs xs) ≡ find_settlement n xs
  unfolding poll_each
  poll_each-kept call n [] xs found d apart = refl
  poll_each-kept call n (r ∷ rs) xs found d apart =
      let xs' = poll_one check now call r xs in
      let here : find_settlement n xs' ≡ find_settlement n xs =
        ground (arith, find_poll_one call n r xs found.0, apart.0) in
      poll_each-kept (call + 1) n rs xs' (still call r rs xs found.0 found.1 d.0) d.1 apart.1 ∙ here

  poll_each-Polled :
      (call : ℕ) (rs xs : List Settlement)
      → All (λ r. find_settlement r.id xs ≡ some r) rs
      → IsDistinct settlement_key rs
      → Polled call rs (poll_each check now call rs xs)
  unfolding poll_each
  poll_each-Polled call [] xs found d = tt
  poll_each-Polled call (r ∷ rs) xs found d =
      let xs' = poll_one check now call r xs in
      let later = still call r rs xs found.0 found.1 d.0 in
      let kept = poll_each-kept (call + 1) r.id rs xs' later d.1 d.0 in
      (
        ground (arith, kept, find_poll_one call r.id r xs found.0, ==_refl r.id),
        poll_each-Polled (call + 1) rs xs' later d.1,
      )

  -- A round of the poller asks for at most twenty payouts, all of them SENT and with a reference.
  -- Each instruction that it asks for has afterwards the row that the answer to it gives; every other
  -- instruction, so each that is CONFIRMED or FAILED, keeps its row. It holds where the instructions
  -- have distinct ids, whatever the checks answer or throw.
  pub handle_pending_settlements_lem :
      (s : Store)
      → IsDistinct settlement_key s.settlements
      → let asked = pending_settlements s.settlements in
        let xs = (handle_pending_settlements check now s).settlements in
        (length asked ≤ 20)
        × All (λ x. is_polled x ≡ true) asked
        × Polled 0 asked xs
        × ((n : ℕ) (x : Settlement)
            → find_settlement n s.settlements ≡ some x
            → is_sent x.status ≡ false
            → find_settlement n xs ≡ some x)
  unfolding handle_pending_settlements pending_settlements
  handle_pending_settlements_lem s d =
      let due = filter is_polled s.settlements in
      let found =
        All-take (λ r. find_settlement r.id s.settlements ≡ some r) 20 due
          (All-filter (λ r. find_settlement r.id s.settlements ≡ some r) is_polled s.settlements
            (find_first_self settlement_key s.settlements d)) in
      let distinct =
        IsDistinct-take settlement_key 20 due
          (IsDistinct-filter settlement_key is_polled s.settlements d) in
      let sent =
        All-take (λ x. is_polled x ≡ true) 20 due (All-filter_self is_polled s.settlements) in
      (
        length-take-le 20 due,
        sent,
        poll_each-Polled 0 (take 20 due) s.settlements found distinct,
        λ n x e closed.
            let apart =
              All-map (λ r. (find_settlement r.id s.settlements ≡ some r) × (is_polled r ≡ true))
                (λ r. r.id ≢ n)
                (λ r h own.
                  let e' : find_settlement n s.settlements ≡ some r =
                    subst (λ m. find_settlement m s.settlements ≡ some r) own h.0 in
                  let h1 = h.1 in ground arith)
                (take 20 due)
                (All-both (λ r. find_settlement r.id s.settlements ≡ some r)
                  (λ r. is_polled r ≡ true) (take 20 due) found sent) in
            poll_each-kept 0 n (take 20 due) s.settlements found distinct apart ∙ e,
      )
