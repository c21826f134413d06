-- ===== src/Payments/Store/Invariant.antt =====
-- What holds of the payment tables between two requests.
use pay_era.Prelude.{ℕ, ◌<◌, ◌≡◌, refl, some, String, arith, All-append, ◌==◌}
use pay_era.Prelude.Table.{IsKeyed, IsKeyed-update, IsBelow, find_first-key, All-find_first}
use pay_era.Prelude.Trail.{IsOrdered, append-IsOrdered}
use pay_era.Payments.Store.{
  Transaction, TransactionStatus, Store, key, owner, number, find_transaction, set_transaction,
  next_event, add_event,
}

-- Payments have distinct ids, every event belongs to a payment's id that was given out, and each
-- payment's events are numbered 1, 2, 3, ….
pub record IsValid (s : Store) : Type 0 where
  pub ids : IsKeyed key s.next_id s.transactions
  pub owners : IsBelow owner s.next_id s.events
  pub ordered : IsOrdered owner number s.events

pub add_event-IsValid :
    (id : ℕ) (status : TransactionStatus) (event_type : String) (s : Store)
    → IsValid s
    → id < s.next_id
    → IsValid (add_event id status event_type s)
add_event-IsValid id status event_type s v h = record {
  ids = v.ids;
  owners = All-append (λ e. owner e < s.next_id) s.events _ v.owners (h, tt);
  ordered =
      append-IsOrdered owner number s.events (next_event id status event_type s) v.ordered refl;
}

pub set_transaction-IsValid :
    (id : ℕ) (f : Transaction → Transaction) (s : Store)
    → ((t : Transaction) → (f t).id ≡ t.id)
    → IsValid s
    → IsValid (set_transaction id f s)
set_transaction-IsValid id f s same v = record {
  ids = IsKeyed-update key s.next_id (λ t. t.id == id) f s.transactions same v.ids;
  owners = v.owners;
  ordered = v.ordered;
}

-- The id of a payment that is there was given out.
pub find_transaction-below :
    (id : ℕ) (s : Store) {t : Transaction}
    → IsValid s
    → find_transaction id s.transactions ≡ some t
    → id < s.next_id
find_transaction-below id s {t} v e =
    let own = find_first-key key id s.transactions t e in
    let below =
      All-find_first key (λ x. x.id < s.next_id) (λ x. x.id == id) s.transactions v.ids.below e in
    omega (arith, own, below)
