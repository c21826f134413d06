-- ===== src/Payments/Processor/Payment/Moves.antt =====
-- How the statuses of one payment move: the changes of its row with the events that they append.
use pay_era.Prelude.{
  ℕ, ◌≡◌, ◌≢◌, refl, sym, ap, ◌∙◌, some, List, [], ◌∷◌, ◌++◌, map, append-nil, append_assoc, ok,
  arith, ◌>>◌,
}
use pay_era.Prelude.Table.{find_first-update_many}
use pay_era.Prelude.Trail.{trail, trail-append}
use pay_era.Payments.Store.{
  TransactionStatus, Transaction, Store, key, owner, number, find_transaction, update_transaction,
  set_transaction, add_event, event_name,
}
use pay_era.Payments.Store.Invariant.{
  IsValid, add_event-IsValid, set_transaction-IsValid, find_transaction-below,
}
use pay_era.Payments.Processor.Work.{log_event}

-- The statuses in a payment's events, oldest first.
abbrev pub history : ℕ → Store → List TransactionStatus
history id s = map (λ e. e.status) (trail owner number id s.events)

abbrev pub last_or : TransactionStatus → List TransactionStatus → TransactionStatus
last_or old [] = old
last_or old (x ∷ xs) = last_or x xs

-- The payment `id` is `t` in the tables.
pub record Holds (id : ℕ) (s : Store) (t : Transaction) : Type 0 where
  pub valid : IsValid s
  pub found : find_transaction id s.transactions ≡ some t

-- From `s` to `s'`, the payment went through the statuses `moves`, each with its event, and no
-- other payment changed.
pub record Moves (id : ℕ) (s : Store) (t : Transaction) (moves : List TransactionStatus)
    (s' : Store) : Type 0 where
  pub row : Transaction
  pub holds : Holds id s' row
  pub status : row.status ≡ last_or t.status moves
  pub logged : history id s' ≡ history id s ++ moves
  pub others :
      (n : ℕ) → n ≢ id → find_transaction n s'.transactions ≡ find_transaction n s.transactions

pub last_or-append :
    (old : TransactionStatus) (xs ys : List TransactionStatus)
    → last_or old (xs ++ ys) ≡ last_or (last_or old xs) ys
last_or-append old [] ys = refl
last_or-append old (x ∷ xs) ys = last_or-append x xs ys

pub stay : (id : ℕ) (s : Store) (t : Transaction) → Holds id s t → Moves id s t [] s
stay id s t h = record {
  row = t;
  holds = h;
  status = refl;
  logged = sym (append-nil _);
  others = λ n other. refl;
}

pub Moves-trans :
    (id : ℕ) (s : Store) (t : Transaction) (xs ys : List TransactionStatus) (s' s'' : Store)
    → (m : Moves id s t xs s') → Moves id s' m.row ys s''
    → Moves id s t (xs ++ ys) s''
Moves-trans id s t xs ys s' s'' m k = record {
  row = k.row;
  holds = k.holds;
  status = ground (arith, k.status, m.status, last_or-append t.status xs ys);
  logged = k.logged ∙ ap (λ h. h ++ ys) m.logged ∙ append_assoc (history id s) xs ys;
  others = λ n other. k.others n other ∙ m.others n other;
}

-- A call that leaves the payments and the events alone.
pub still :
    (id : ℕ) (s s' : Store) (t : Transaction)
    → s'.transactions ≡ s.transactions
    → s'.events ≡ s.events
    → s'.next_id ≡ s.next_id
    → Holds id s t
    → Moves id s t [] s'
still id s s' t rows events next h = record {
  row = t;
  holds = record {
    valid = record {
      ids = rw (rows, next) h.valid.ids;
      owners = rw (events, next) h.valid.owners;
      ordered = rw events h.valid.ordered;
    };
    found = rw rows h.found;
  };
  status = refl;
  logged = rw events (sym (append-nil _));
  others = λ n other. rw rows refl;
}

-- A write to the row that keeps its status.
pub amend :
    (id : ℕ) (f : Transaction → Transaction) (s : Store) (t : Transaction)
    → ((x : Transaction) → (f x).id ≡ x.id)
    → ((x : Transaction) → (f x).status ≡ x.status)
    → Holds id s t
    → Moves id s t [] (set_transaction id f s)
amend id f s t same st h =
    let read = λ (n : ℕ). find_first-update_many key id n f s.transactions same in
    record {
      row = f t;
      holds = record {
        valid = set_transaction-IsValid id f s same h.valid;
        found = ground (arith, read id, h.found);
      };
      status = st t;
      logged = sym (append-nil _);
      others = λ n other. ground (arith, read n);
    }

map-append {ℓ} :
    {A B : Type ℓ} (f : A → B) (xs ys : List A) → map f (xs ++ ys) ≡ map f xs ++ map f ys
map-append f [] ys = refl
map-append f (x ∷ xs) ys = ap (λ r. f x ∷ r) (map-append f xs ys)

abbrev pub entered : ℕ → TransactionStatus → (Transaction → Transaction) → Store → Store
entered id status f s = add_event id status (event_name status) (set_transaction id f s)

-- Writing a status to the row and to the log.
pub enter :
    (id : ℕ) (status : TransactionStatus) (f : Transaction → Transaction) (s : Store)
    (t : Transaction)
    → ((x : Transaction) → (f x).id ≡ x.id)
    → ((x : Transaction) → (f x).status ≡ status)
    → Holds id s t
    → Moves id s t (status ∷ []) (entered id status f s)
enter id status f s t same st h =
    let read = λ (n : ℕ). find_first-update_many key id n f s.transactions same in
    record {
      row = f t;
      holds = record {
        valid =
            add_event-IsValid id status (event_name status) (set_transaction id f s)
              (set_transaction-IsValid id f s same h.valid)
              (find_transaction-below id s h.valid h.found);
        found = ground (arith, read id, h.found);
      };
      status = st t;
      logged =
          ap (map (λ e. e.status)) (trail-append owner number id s.events _ refl)
          ∙ map-append (λ e. e.status) (trail owner number id s.events) _;
      others = λ n other. ground (arith, read n);
    }

-- The two database calls that write a status.
pub enter_eq :
    (id : ℕ) (status : TransactionStatus) (f : Transaction → Transaction) (s : Store)
    (t : Transaction)
    → Holds id s t
    → (update_transaction id f >> log_event id status) s ≡ (ok tt, entered id status f s)
enter_eq id status f s t h = let found = h.found in ground arith
