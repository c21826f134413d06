-- ===== src/Payments/Processor/Payment/Runs.antt =====
-- How a call of the processor moves one payment: the events that it appends, and where it can
-- stop.
use pay_era.Prelude.{
  ℕ, ◌≡◌, refl, sym, ap, ◌∙◌, ◌⊎◌, inl, inr, none, List, [], ◌∷◌, ◌++◌, append_assoc, subst, Result,
  ok, err, Action, Exception, arith, ◌>>=◌, Result-cases,
}
use pay_era.Payments.Store.{TransactionStatus, Transaction}
use pay_era.Payments.Processor.Work.{Work, move_to, set_status}
use pay_era.Payments.Processor.Payment.Moves.{
  Holds, Moves, Moves-trans, still, entered, enter, enter_eq,
}

-- How a call ended that was to go through the statuses `moves`: it did, or it threw on the way.
abbrev pub Ended :
    {A : Type 0} → ℕ → Work → Transaction → List TransactionStatus → Result A × Work → Type 0
Ended {A} id w t moves out =
    ((a : A) × (out.0 ≡ ok a) × Moves id w.store t moves out.1.store)
    ⊎ ((e : Exception) × (out.0 ≡ err e)
        × (ps : List TransactionStatus) × (qs : List TransactionStatus) × (ps ++ qs ≡ moves)
        × Moves id w.store t ps out.1.store)

-- Run on a payment, a call goes through the statuses `moves`, or throws on the way.
pub record Runs {A : Type 0} (id : ℕ) (m : Action Work A) (moves : List TransactionStatus)
    : Type 0 where
  pub run : (w : Work) (t : Transaction) → Holds id w.store t → Ended id w t moves (m w)

-- A call that writes nothing to the payments and their events.
pub record IsStill {A : Type 0} (m : Action Work A) : Type 0 where
  pub rows : (w : Work) → (m w).1.store.transactions ≡ w.store.transactions
  pub events : (w : Work) → (m w).1.store.events ≡ w.store.events
  pub next : (w : Work) → (m w).1.store.next_id ≡ w.store.next_id

module _ (id : ℕ) where
  pub Runs-still : {A : Type 0} (m : Action Work A) → IsStill m → Runs id m []
  Runs-still {A} m quiet = record { run = end }
    where
      end : (w : Work) (t : Transaction) → Holds id w.store t → Ended id w t [] (m w)
      end w t h =
          let kept =
            still id w.store (m w).1.store t (quiet.rows w) (quiet.events w) (quiet.next w) h in
          elim (Result-cases (m w).0) [
            | inl (a, e) ↦ inl (a, e, kept)
            | inr (x, e) ↦ inr (x, e, [], [], refl, kept)
          ]

  pub Runs-bind :
      {A B : Type 0} (m : Action Work A) (f : A → Action Work B) (xs ys : List TransactionStatus)
      → Runs id m xs
      → ((a : A) → Runs id (f a) ys)
      → Runs id (m >>= f) (xs ++ ys)
  Runs-bind m f xs ys hm hf = record { run = end }
    where
      end :
          (w : Work) (t : Transaction) → Holds id w.store t → Ended id w t (xs ++ ys) ((m >>= f) w)
      end w t h = elim (hm.run w t h) [
        | inr (e, thrown, ps, qs, split, moved) ↦
            let out : (m >>= f) w ≡ (err e, (m w).1) = ground arith in
            rw out (
              inr (
                e,
                refl,
                ps,
                qs ++ ys,
                sym (append_assoc ps qs ys) ∙ ap (λ l. l ++ ys) split,
                moved,
              ))
        | inl (a, passed, moved) ↦
            let out : (m >>= f) w ≡ f a (m w).1 = ground arith in
            elim ((hf a).run (m w).1 moved.row moved.holds) [
              | inl (b, e, more) ↦
                  rw out (inl (b, e, Moves-trans id w.store t xs ys _ _ moved more))
              | inr (x, e, ps, qs, split, more) ↦ rw out (
                  inr (
                    x,
                    e,
                    xs ++ ps,
                    qs,
                    append_assoc xs ps qs ∙ ap (λ l. xs ++ l) split,
                    Moves-trans id w.store t xs ps _ _ moved more,
                  ))
            ]
      ]

  -- A still call in front adds nothing.
  pub Runs-quiet :
      {A B : Type 0} (m : Action Work A) (f : A → Action Work B) (ys : List TransactionStatus)
      → IsStill m
      → ((a : A) → Runs id (f a) ys)
      → Runs id (m >>= f) ys
  Runs-quiet m f ys quiet hf = Runs-bind m f [] ys (Runs-still m quiet) hf

  pub move_to_eq :
      (now : ℕ) (status : TransactionStatus) (w : Work) (t : Transaction)
      → Holds id w.store t
      → move_to now id status w
        ≡ (ok tt, record w { store = entered id status (set_status now status none none) w.store })
  move_to_eq now status w t h =
      ap (λ r. (r.0, record w { store = r.1 }))
        (enter_eq id status (set_status now status none none) w.store t h)

  pub Runs-move :
      (now : ℕ) (status : TransactionStatus) → Runs id (move_to now id status) (status ∷ [])
  Runs-move now status = record { run = end }
    where
      end :
          (w : Work) (t : Transaction)
          → Holds id w.store t
          → Ended id w t (status ∷ []) (move_to now id status w)
      end w t h =
          let moved =
            enter id status (set_status now status none none) w.store t (λ x. refl) (λ x. refl) h in
          subst (Ended id w t (status ∷ [])) (sym (move_to_eq now status w t h))
            (inl (tt, refl, moved))
