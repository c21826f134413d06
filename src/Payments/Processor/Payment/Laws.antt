-- ===== src/Payments/Processor/Payment/Laws.antt =====
-- How the processing of a payment ends.
use pay_era.Prelude.{
  ℕ, ◌≡◌, refl, ap, inl, inr, Option, none, some, List, [], ◌∷◌, ◌++◌, String, ok, Action,
  Exception, arith, lift, ◌>>◌, str_eq, Bool-cases,
}
use pay_era.Payments.Store.{TransactionStatus, Transaction, Store, set_transaction}
use pay_era.Payments.Rates.{Numbers}
use pay_era.Payments.Processor.Services.{Services}
use pay_era.Payments.Processor.Work.{Minted, Work, move_to, set_status, failure_text}
use pay_era.Payments.Processor.Steps.{
  create_payment, register_payment, quote_payment, convert, route, mark_settled, pay_out,
  mint_rewards,
}
use pay_era.Payments.Processor.Payment.{
  advance, finish, give_up, process_transaction, fresh, save_hash, confirm, log_completed,
}
use pay_era.Payments.Processor.Payment.Moves.{
  Holds, Moves, Moves-trans, stay, still, enter, enter_eq, entered, amend,
}
use pay_era.Payments.Processor.Payment.Runs.{Runs, Runs-bind, Runs-still, Runs-move, move_to_eq}
use pay_era.Payments.Processor.Payment.Steps.{
  Writes-Runs, create_payment-Runs, quote_payment-Runs, convert-Runs, route-Runs, mark_settled-Runs,
}
use pay_era.Payments.Processor.Payment.Quiet.{pay_out-IsStill}
use pay_era.Payments.Processor.Payment.Minting.{mint_rewards-IsStill}

-- The statuses of a payment up to the last call that can throw.
abbrev pub progress : List TransactionStatus
progress =
    TransactionStatus.authorized ∷ TransactionStatus.quoted ∷ TransactionStatus.converting
    ∷ TransactionStatus.routing_stellar ∷ TransactionStatus.settling ∷ TransactionStatus.settling
    ∷ TransactionStatus.rewarding ∷ []

module _ (num : Numbers) (id_text : ℕ → String) (services : Services num) (now : ℕ) (attempt : ℕ)
    (tx : Transaction) where
  register_payment-Runs :
      Runs tx.id
        (register_payment num id_text services now attempt tx)
        (TransactionStatus.authorized ∷ TransactionStatus.quoted ∷ [])
  unfolding register_payment
  register_payment-Runs =
      Runs-bind tx.id (move_to now tx.id TransactionStatus.authorized)
        (λ _. create_payment num id_text services now attempt tx)
        (TransactionStatus.authorized ∷ []) (TransactionStatus.quoted ∷ [])
        (Runs-move tx.id now TransactionStatus.authorized)
        (λ _.
          Writes-Runs num id_text services now attempt tx
            (create_payment num id_text services now attempt tx) TransactionStatus.quoted
            (create_payment-Runs num id_text services now attempt tx))

  -- The last call on the contract touches no table.
  abbrev complete : Action Work (Unit {0})
  complete = lift (services.complete_payment attempt tx.id)

  complete-Runs : Runs tx.id complete []
  complete-Runs =
      Runs-still tx.id _ (record { rows = λ w. refl; events = λ w. refl; next = λ w. refl })

  advance-Runs : Runs tx.id (advance num id_text services now attempt tx) progress
  unfolding advance
  advance-Runs =
      let m7 = complete in
      let m6 : Action Work (Unit {0}) = move_to now tx.id TransactionStatus.rewarding >> m7 in
      let m5 : Action Work (Unit {0}) = mint_rewards num id_text services now attempt tx >> m6 in
      let m4 : Action Work (Unit {0}) = pay_out num id_text services now attempt tx >> m5 in
      let m3 : Action Work (Unit {0}) = mark_settled num id_text services now attempt tx >> m4 in
      let m2 : Action Work (Unit {0}) = route num id_text services now attempt tx >> m3 in
      let m1 : Action Work (Unit {0}) = convert num id_text services now attempt tx >> m2 in
      let m0 : Action Work (Unit {0}) = quote_payment num id_text services now attempt tx >> m1 in
      let r6 : Runs tx.id m6 (TransactionStatus.rewarding ∷ []) =
        Runs-bind tx.id (move_to now tx.id TransactionStatus.rewarding) (λ _. m7) _ _
          (Runs-move tx.id now TransactionStatus.rewarding) (λ _. complete-Runs) in
      let r5 : Runs tx.id m5 (TransactionStatus.rewarding ∷ []) =
        Runs-bind tx.id (mint_rewards num id_text services now attempt tx) (λ _. m6) _ _
          (Runs-still tx.id _ (mint_rewards-IsStill num id_text services now attempt tx))
          (λ _. r6) in
      let r4 : Runs tx.id m4 (TransactionStatus.rewarding ∷ []) =
        Runs-bind tx.id (pay_out num id_text services now attempt tx) (λ _. m5) _ _
          (Runs-still tx.id _ (pay_out-IsStill num id_text services now attempt tx)) (λ _. r5) in
      let r3 =
        Runs-bind tx.id (mark_settled num id_text services now attempt tx) (λ _. m4) _ _
          (Writes-Runs num id_text services now attempt tx _ _
            (mark_settled-Runs num id_text services now attempt tx))
          (λ _. r4) in
      let r2 =
        Runs-bind tx.id (route num id_text services now attempt tx) (λ _. m3) _ _
          (route-Runs num id_text services now attempt tx) (λ _. r3) in
      let r1 =
        Runs-bind tx.id (convert num id_text services now attempt tx) (λ _. m2) _ _
          (Writes-Runs num id_text services now attempt tx _ _
            (convert-Runs num id_text services now attempt tx))
          (λ _. r2) in
      let r0 =
        Runs-bind tx.id (quote_payment num id_text services now attempt tx) (λ _. m1) _ _
          (Writes-Runs num id_text services now attempt tx _ _
            (quote_payment-Runs num id_text services now attempt tx))
          (λ _. r1) in
      Runs-bind tx.id (register_payment num id_text services now attempt tx) (λ _. m0) _ _
        register_payment-Runs (λ _. r0)

  log_completed-Still :
      (hash? : Option String) (ledger? : Option ℕ) (minted? : Option Minted) (s : Store)
      → let out = log_completed num id_text services now attempt tx hash? ledger? minted? s in
        (out.0 ≡ ok tt)
        × (out.1.transactions ≡ s.transactions)
        × (out.1.events ≡ s.events)
        × (out.1.next_id ≡ s.next_id)
  log_completed-Still (some hash) (some ledger) (some minted) s =
      elim (Bool-cases (str_eq hash "")) [
        | inl empty ↦ (ground arith, ground arith, ground arith, ground arith)
        | inr there ↦ (ground arith, ground arith, ground arith, ground arith)
      ]
  log_completed-Still (some hash) (some ledger) none s = (refl, refl, refl, refl)
  log_completed-Still (some hash) none minted? s = (refl, refl, refl, refl)
  log_completed-Still none ledger? minted? s = (refl, refl, refl, refl)

  confirm-Still :
      (w : Work) (t : Transaction)
      → Holds tx.id w.store t
      → let out = confirm num id_text services now attempt tx w in
        (out.0 ≡ ok tt) × Moves tx.id w.store t [] out.1.store
  unfolding confirm
  confirm-Still w t h =
      let logged = log_completed-Still w.hash w.ledger w.reward_result _ in
      (logged.0, still tx.id w.store _ t logged.1 logged.2 logged.3 h)

  -- The end of a payment that passed: it is completed.
  finish-Completes :
      (w : Work) (t : Transaction)
      → Holds tx.id w.store t
      → let out = finish num id_text services now attempt tx w in
        (out.0 ≡ ok tt) × Moves tx.id w.store t (TransactionStatus.completed ∷ []) out.1.store
  unfolding finish
  finish-Completes w t h =
      let set = set_status now TransactionStatus.completed none none in
      let moved = enter tx.id TransactionStatus.completed set w.store t (λ x. refl) (λ x. refl) h in
      let w' = record w { store = entered tx.id TransactionStatus.completed set w.store } in
      let at_end = move_to_eq tx.id now TransactionStatus.completed w t h in
      let out : finish num id_text services now attempt tx w
          ≡ confirm num id_text services now attempt tx w' =
        ground arith in
      let last = confirm-Still w' moved.row moved.holds in
      rw out (last.0, Moves-trans tx.id w.store t _ [] _ _ moved last.1)

  save_hash-Still :
      (hash? : Option String) (s : Store) (t : Transaction)
      → Holds tx.id s t
      → let out = save_hash num id_text services now attempt tx hash? s in
        (out.0 ≡ ok tt) × Moves tx.id s t [] out.1
  save_hash-Still none s t h = (refl, stay tx.id s t h)
  save_hash-Still (some hash) s t h = elim (Bool-cases (str_eq hash "")) [
    | inl empty ↦ rw empty (refl, stay tx.id s t h)
    | inr there ↦
        let f : Transaction → Transaction =
          λ x. record x { stellar_transaction_hash = some hash } in
        let found = h.found in
        let out : save_hash num id_text services now attempt tx (some hash) s
            ≡ (ok tt, set_transaction tx.id f s) =
          ground arith in
        rw out (refl, amend tx.id f s t (λ x. refl) (λ x. refl) h)
  ]

  pub give_up-Fails :
      (e : Exception) (w : Work) (t : Transaction)
      → Holds tx.id w.store t
      → let out = give_up num id_text services now attempt tx e w in
        (out.0 ≡ ok tt) × Moves tx.id w.store t (TransactionStatus.failed ∷ []) out.1.store
  unfolding give_up
  give_up-Fails e w t h =
      let set =
        set_status now TransactionStatus.failed (some "STELLAR_ERROR") (some (failure_text e)) in
      let saved = save_hash-Still w.hash w.store t h in
      let s = (save_hash num id_text services now attempt tx w.hash w.store).1 in
      let written = enter_eq tx.id TransactionStatus.failed set s saved.1.row saved.1.holds in
      let failed =
        enter tx.id TransactionStatus.failed set s saved.1.row (λ x. refl) (λ x. refl)
          saved.1.holds in
      let out : give_up num id_text services now attempt tx e w
          ≡ (ok tt, record w { store = entered tx.id TransactionStatus.failed set s }) =
        ground (arith, saved.0) in
      rw out (refl, Moves-trans tx.id w.store t [] _ _ _ saved.1 failed)

  -- How the payment has moved when its processing is over.
  pub data Settled (s : Store) (t : Transaction) (s' : Store) : Type 0 where
    completed : Moves tx.id s t (progress ++ TransactionStatus.completed ∷ []) s' → Settled s t s'
    failed :
        (ps qs : List TransactionStatus)
        → ps ++ qs ≡ progress
        → Moves tx.id s t (ps ++ TransactionStatus.failed ∷ []) s'
        → Settled s t s'

  -- Processing a payment that is in the tables never throws, whatever the services answer. Either
  -- the payment went through all statuses, each with its event in the log, and is completed, or it
  -- went through the first of them, the last event says that it failed, and it is failed. No other
  -- payment changes, and the invariant of the tables is kept.
  pub process_transaction-Settled :
      (s : Store) (t : Transaction)
      → Holds tx.id s t
      → let out = process_transaction num id_text services now attempt tx s in
        (out.0 ≡ ok tt) × Settled s t out.1
  unfolding process_transaction
  process_transaction-Settled s t h =
      let w0 = fresh num id_text services now attempt tx s in
      let w1 = (advance num id_text services now attempt tx w0).1 in
      elim (advance-Runs.run w0 t h) [
        | inl (u, passed, moved) ↦
            let last = finish-Completes w1 moved.row moved.holds in
            let out : process_transaction num id_text services now attempt tx s
                ≡ (ok tt, (finish num id_text services now attempt tx w1).1.store) =
              ground (arith, last.0) in
            rw out (
              ap (λ r. r.0) out,
              Settled.completed (Moves-trans tx.id s t progress _ _ _ moved last.1),
            )
        | inr (e, thrown, ps, qs, split, moved) ↦
            let last = give_up-Fails e w1 moved.row moved.holds in
            let out : process_transaction num id_text services now attempt tx s
                ≡ (ok tt, (give_up num id_text services now attempt tx e w1).1.store) =
              ground (arith, last.0) in
            rw out (
              ap (λ r. r.0) out,
              Settled.failed ps qs split (Moves-trans tx.id s t ps _ _ _ moved last.1),
            )
      ]
