-- ===== src/Payments/Transactions/Ending.antt =====
-- Cancelling and failing a payment.
use pay_era.Prelude.{
  ℕ, ◌≡◌, refl, ◌⊎◌, inl, inr, Bool, true, false, some, String, Result, ok, is_ok, arith, ◌&&◌, not,
  ◌==◌, Bool-cases, Option-cases, subst,
}
use pay_era.Prelude.Table.{find_first, find_first-update_many}
use pay_era.Accounts.Store.{Principal}
use pay_era.Payments.Store.{
  TransactionStatus, Transaction, Store, key, find_transaction, set_transaction, add_event,
}
use pay_era.Payments.Store.Invariant.{
  IsValid, add_event-IsValid, set_transaction-IsValid, find_transaction-below,
}
use pay_era.Payments.Transactions.{
  FailTransaction, is_created, is_completed, is_visible, find_one, cancel, fail,
}
use pay_era.Payments.Transactions.Access.{MaySee, find_one-MaySee}

abbrev pub set_cancelled : Transaction → Transaction
set_cancelled t = record t { status = TransactionStatus.cancelled }

abbrev pub set_failed : FailTransaction → Transaction → Transaction
set_failed dto t = record t {
  failure_code = some dto.failure_code;
  failure_message = dto.failure_message;
  status = TransactionStatus.failed;
}

-- How a request to end a payment ends: refused, with nothing written, where no payment has the id,
-- the caller may not see it or its status bars it; or carried out for a payment that the caller may
-- see and whose status allows it, with one more event and the payment's row changed.
pub data Ended (user : Principal) (id : ℕ) (s : Store) (allowed : TransactionStatus → Bool)
    (status : TransactionStatus) (event_type : String) (f : Transaction → Transaction)
    (out : Result Transaction × Store) : Type 0 where
  refused :
      ((t : Transaction)
        → find_transaction id s.transactions ≡ some t
        → MaySee user s t
        → allowed t.status ≡ false)
      → is_ok out.0 ≡ false
      → out.1 ≡ s
      → Ended user id s allowed status event_type f out
  carried_out :
      (t : Transaction)
      → find_transaction id s.transactions ≡ some t
      → MaySee user s t
      → allowed t.status ≡ true
      → out ≡ (ok (f t), set_transaction id f (add_event id status event_type s))
      → Ended user id s allowed status event_type f out

find_one_cases :
    (user : Principal) (id : ℕ) (s : Store)
    → ((is_ok (find_one user id s).0 ≡ false) × ((find_one user id s).1 ≡ s))
      ⊎ ((t : Transaction) × (find_one user id s ≡ (ok t, s)))
unfolding find_one
find_one_cases user id s =
    elim (Option-cases (find_first (λ t. t.id == id && is_visible user s t) s.transactions)) [
      | inl nothing ↦ inl (ground arith, ground arith)
      | inr (t, found) ↦ inr (t, ground arith)
    ]

-- What `find_one` throws for is not there for the caller.
hidden :
    (user : Principal) (id : ℕ) (s : Store)
    → IsValid s
    → is_ok (find_one user id s).0 ≡ false
    → (t : Transaction) → find_transaction id s.transactions ≡ some t
    → ¬ (MaySee user s t)
hidden user id s v e t found may_see =
    let seen = ((find_one-MaySee user id s v).0 t).1 (found, may_see) in ground arith

-- What `find_one` returns is the one payment with the id.
only :
    (id : ℕ) (s : Store) (allowed : TransactionStatus → Bool) {t : Transaction}
    → find_transaction id s.transactions ≡ some t
    → allowed t.status ≡ false
    → (u : Transaction) → find_transaction id s.transactions ≡ some u
    → allowed u.status ≡ false
only id s allowed {t} found late u own =
    let same : t ≡ u = ground arith in subst (λ x. allowed x.status ≡ false) same late

abbrev pub not_completed : TransactionStatus → Bool
not_completed status = not (is_completed status)

-- `cancel` carries a request out for every CREATED payment that the caller may see: its row becomes
-- CANCELLED and gets its event. Where there is no such payment it throws and writes nothing.
pub cancel-Ended :
    (user : Principal) (id : ℕ) (s : Store)
    → IsValid s
    → Ended user id s is_created TransactionStatus.cancelled "transaction.cancelled" set_cancelled
        (cancel user id s)
unfolding cancel
cancel-Ended user id s v = elim (find_one_cases user id s) [
  | inl (e, same) ↦
      refused (λ t found sees. absurd (hidden user id s v e t found sees)) (ground arith)
        (ground arith)
  | inr (t, read) ↦
      let (found, may_see) = ((find_one-MaySee user id s v).0 t).0 read in
      elim (Bool-cases (is_created t.status)) [
        | inl fresh ↦ carried_out t found may_see fresh (ground arith)
        | inr late ↦
            refused (λ u own _. only id s is_created found late u own) (ground arith) (ground arith)
      ]
]

-- `fail` carries a request out exactly for a payment that the caller may see and that is not
-- COMPLETED.
pub fail-Ended :
    (user : Principal) (id : ℕ) (dto : FailTransaction) (s : Store)
    → IsValid s
    → Ended user id s not_completed TransactionStatus.failed "transaction.failed"
        (set_failed dto)
        (fail user id dto s)
unfolding fail
fail-Ended user id dto s v = elim (find_one_cases user id s) [
  | inl (e, same) ↦
      refused (λ t found sees. absurd (hidden user id s v e t found sees)) (ground arith)
        (ground arith)
  | inr (t, read) ↦
      let (found, may_see) = ((find_one-MaySee user id s v).0 t).0 read in
      elim (Bool-cases (is_completed t.status)) [
        | inl over ↦
            refused (λ u own _. only id s not_completed found (ground arith) u own) (ground arith)
              (ground arith)
        | inr running ↦ carried_out t found may_see (ground arith) (ground arith)
      ]
]

-- A request to end a payment keeps the invariant.
Ended-IsValid :
    (user : Principal) (id : ℕ) (s : Store) {allowed : TransactionStatus → Bool}
    {status : TransactionStatus} {event_type : String} {f : Transaction → Transaction}
    (out : Result Transaction × Store)
    → IsValid s
    → ((t : Transaction) → (f t).id ≡ t.id)
    → Ended user id s allowed status event_type f out
    → IsValid out.1
Ended-IsValid user id s out v same (refused barred e unchanged) = rw unchanged v
Ended-IsValid user id s {status} {event_type} {f} out v same
      (carried_out t found may_see ok_status done) =
    rw done (
      set_transaction-IsValid id f (add_event id status event_type s) same
        (add_event-IsValid id status event_type s v (find_transaction-below id s v found)))

-- Whoever asks, a COMPLETED payment keeps its row: it can be neither cancelled nor failed. Both
-- requests keep the invariant of the tables.
pub completed_kept :
    (user : Principal) (id n : ℕ) (dto : FailTransaction) (s : Store) (t : Transaction)
    → IsValid s
    → find_transaction n s.transactions ≡ some t
    → t.status ≡ TransactionStatus.completed
    → let after_cancel = (cancel user id s).1 in
      let after_fail = (fail user id dto s).1 in
      (find_transaction n after_cancel.transactions ≡ some t)
      × IsValid after_cancel
      × (find_transaction n after_fail.transactions ≡ some t)
      × IsValid after_fail
completed_kept user id n dto s t v found done = (
  keeps is_created refl (cancel-Ended user id s v) (λ _. refl),
  Ended-IsValid user id s (cancel user id s) v (λ _. refl) (cancel-Ended user id s v),
  keeps not_completed refl (fail-Ended user id dto s v) (λ _. refl),
  Ended-IsValid user id s (fail user id dto s) v (λ _. refl) (fail-Ended user id dto s v),
)
  where
    keeps :
        (allowed : TransactionStatus → Bool) {status : TransactionStatus} {event_type : String}
        {f : Transaction → Transaction} {out : Result Transaction × Store}
        → allowed TransactionStatus.completed ≡ false
        → Ended user id s allowed status event_type f out
        → ((x : Transaction) → (f x).id ≡ x.id)
        → find_transaction n out.1.transactions ≡ some t
    keeps allowed barred (refused _ e same) key_same = rw same found
    keeps allowed {f} barred (carried_out u own may_see ok_status out) key_same =
        let read = find_first-update_many key id n f s.transactions key_same in
        rw out (ground (arith, read, own, found, done, barred, ok_status))
