-- ===== src/Payments/Processor/Tick/Laws.antt =====
-- One tick of the job of payments.
use pay_era.Prelude.{
  ℕ, ◌≤◌, ◌≡◌, ◌≢◌, refl, ◌∙◌, ◌⊎◌, inl, inr, true, ◌&&◌, some, List, [], ◌∷◌, String, ok, arith,
  filter, length, length-take-le, All, All-map, All-filter, All-take, All-filter_self, any, ◌==◌,
  ==_refl, Bool-cases,
}
use pay_era.Prelude.Table.{IsKeyed-update}
use pay_era.Payments.Store.{TransactionStatus, Transaction, Store, key, find_transaction}
use pay_era.Payments.Store.Invariant.{IsValid}
use pay_era.Payments.Rates.{Numbers}
use pay_era.Payments.Processor.Services.{Services}
use pay_era.Payments.Processor.Payment.{process_transaction}
use pay_era.Payments.Processor.Payment.Moves.{Holds, last_or-append}
use pay_era.Payments.Processor.Payment.Laws.{Settled, process_transaction-Settled}
use pay_era.Payments.Processor.Tick.{
  process_from, process_with_retry, is_claimable, set_claimed, claimed_batch, process_each, claim,
  handle_pending_transactions, is_authorized, since,
}

-- The payment `n` is completed or failed.
abbrev pub IsOver : ℕ → Store → Type 0
IsOver n s =
    (t : Transaction) × (find_transaction n s.transactions ≡ some t)
    × ((t.status ≡ TransactionStatus.completed) ⊎ (t.status ≡ TransactionStatus.failed))

abbrev pub IsPresent : ℕ → Store → Type 0
IsPresent n s = (t : Transaction) × (find_transaction n s.transactions ≡ some t)

present_all :
    (ts : List Transaction) → All (λ x. (t : Transaction) × (find_transaction x.id ts ≡ some t)) ts
present_all [] = tt
present_all (x ∷ ts) = (
  (x, ground (arith, ==_refl x.id)),
  All-map (λ y. (t : Transaction) × (find_transaction y.id ts ≡ some t))
      (λ y. (t : Transaction) × (find_transaction y.id (x ∷ ts) ≡ some t))
      (λ y (t, e). elim (Bool-cases (x.id == y.id)) [
        | inl own ↦ (x, ground arith)
        | inr other ↦ (t, ground arith)
      ])
      ts (present_all ts),
)

module _ (num : Numbers) (id_text : ℕ → String) (services : Services num) (now : ℕ) where
  -- What a payment's turn does to the tables.
  pub record Turn (n : ℕ) (s s' : Store) : Type 0 where
    pub valid : IsValid s'
    pub over : IsOver n s'
    pub others :
        (m : ℕ) → m ≢ n → find_transaction m s'.transactions ≡ find_transaction m s.transactions

  Settled-Turn :
      (attempt : ℕ) (tx : Transaction) (s : Store) (t : Transaction) (s' : Store)
      → Settled num id_text services now attempt tx s t s'
      → Turn tx.id s s'
  Settled-Turn attempt tx s t s' (Settled.completed m) = record {
    valid = m.holds.valid;
    over = (m.row, m.holds.found, inl m.status);
    others = m.others;
  }
  Settled-Turn attempt tx s t s' (Settled.failed ps qs split m) = record {
    valid = m.holds.valid;
    over = (
      m.row,
      m.holds.found,
      inr (m.status ∙ last_or-append t.status ps (TransactionStatus.failed ∷ [])),
    );
    others = m.others;
  }

  process_with_retry-Turn :
      (tx : Transaction) (s : Store) (t : Transaction)
      → Holds tx.id s t
      → let out = process_with_retry num id_text services now tx s in
        (out.0 ≡ ok tt) × Turn tx.id s out.1
  unfolding process_with_retry process_from
  process_with_retry-Turn tx s t h =
      let once = process_transaction-Settled num id_text services now 1 tx s t h in
      let out : process_with_retry num id_text services now tx s
          ≡ (ok tt, (process_transaction num id_text services now 1 tx s).1) =
        ground (arith, once.0) in
      rw out (refl, Settled-Turn 1 tx s t _ once.1)

  kept-IsPresent : (n m : ℕ) (s s' : Store) → Turn n s s' → IsPresent m s → IsPresent m s'
  kept-IsPresent n m s s' turn (t, e) = elim (Bool-cases (m == n)) [
    | inl own ↦ let same : m ≡ n = ground arith in (turn.over.0, rw same turn.over.1)
    | inr other ↦ let apart : m ≢ n = ground arith in (t, turn.others m apart ∙ e)
  ]

  kept-IsOver : (n m : ℕ) (s s' : Store) → Turn n s s' → IsOver m s → IsOver m s'
  kept-IsOver n m s s' turn (t, e, ended) = elim (Bool-cases (m == n)) [
    | inl own ↦ let same : m ≡ n = ground arith in rw same turn.over
    | inr other ↦ let apart : m ≢ n = ground arith in (t, turn.others m apart ∙ e, ended)
  ]

  -- What a batch of payments leaves.
  pub record Batch (ts : List Transaction) (s s' : Store) : Type 0 where
    pub valid : IsValid s'
    pub all_over : All (λ t. IsOver t.id s') ts
    pub still_over : (n : ℕ) → IsOver n s → IsOver n s'
    pub others :
        (n : ℕ)
        → All (λ t. n ≢ t.id) ts
        → find_transaction n s'.transactions ≡ find_transaction n s.transactions

  process_each-Batch :
      (ts : List Transaction) (s : Store)
      → IsValid s
      → All (λ t. IsPresent t.id s) ts
      → let out = process_each num id_text services now ts s in (out.0 ≡ ok tt) × Batch ts s out.1
  unfolding process_each
  process_each-Batch [] s v h =
      (refl, record { valid = v; all_over = tt; still_over = λ n o. o; others = λ n apart. refl })
  process_each-Batch (t ∷ ts) s v h =
      let first = process_with_retry-Turn t s h.0.0 (record { valid = v; found = h.0.1 }) in
      let s' = (process_with_retry num id_text services now t s).1 in
      let turn = first.1 in
      let there =
        All-map (λ x. IsPresent x.id s) (λ x. IsPresent x.id s')
          (λ x p. kept-IsPresent t.id x.id s s' turn p) ts h.1 in
      let rest = process_each-Batch ts s' turn.valid there in
      let out : process_each num id_text services now (t ∷ ts) s
          ≡ process_each num id_text services now ts s' =
        ground (arith, first.0) in
      rw out (
        rest.0,
        record {
          valid = rest.1.valid;
          all_over = (rest.1.still_over t.id turn.over, rest.1.all_over);
          still_over = λ n o. rest.1.still_over n (kept-IsOver t.id n s s' turn o);
          others = λ n apart. rest.1.others n apart.1 ∙ turn.others n apart.0;
        },
      )

  claim-IsValid : (s : Store) → IsValid s → IsValid (claim num id_text services now s)
  claim-IsValid s v = record {
    ids =
        IsKeyed-update key s.next_id (is_claimable num id_text services now)
          (set_claimed num id_text services now) s.transactions (λ t. refl) v.ids;
    owners = v.owners;
    ordered = v.ordered;
  }

  -- The payments that a tick takes once it has claimed what it can.
  abbrev pub taken : Store → List Transaction
  taken s = claimed_batch num id_text services now (claim num id_text services now s).transactions

  -- A tick that finds a payment to claim returns whatever the services answer. It takes at most ten
  -- payments, each of them authorized in the last six seconds; when it returns, every one of them is
  -- completed or failed, every other payment is as the claim left it, and the invariant of the
  -- tables is kept.
  pub handle_pending_transactions_lem :
      (s : Store)
      → IsValid s
      → any (is_claimable num id_text services now) s.transactions ≡ true
      → let out = handle_pending_transactions num id_text services now s in
        (out.0 ≡ ok tt)
        × (length (taken s) ≤ 10)
        × All
            (λ t.
              (is_authorized num id_text services now t.status
                && since num id_text services now t.authorized_at)
              ≡ true)
            (taken s)
        × Batch (taken s) (claim num id_text services now s) out.1
  unfolding handle_pending_transactions claimed_batch
  handle_pending_transactions_lem s v found =
      let s' = claim num id_text services now s in
      let test = λ (t : Transaction).
        is_authorized num id_text services now t.status
        && since num id_text services now t.authorized_at in
      let there =
        All-take (λ t. IsPresent t.id s') 10 (filter test s'.transactions)
          (All-filter (λ t. IsPresent t.id s') test s'.transactions
            (present_all s'.transactions)) in
      let done = process_each-Batch (taken s) s' (claim-IsValid s v) there in
      rw found (
        done.0,
        length-take-le 10 (filter test s'.transactions),
        All-take (λ t. test t ≡ true) 10 (filter test s'.transactions)
            (All-filter_self test s'.transactions),
        done.1,
      )
