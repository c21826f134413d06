-- ===== src/Chain/Wiring/Laws.antt =====
-- What a payment needs of its wallet.
use pay_era.Prelude.{
  ℕ, ◌≡◌, refl, ap, inl, inr, false, none, [], ◌∷◌, ok, err, Exception, failure, arith, or_else,
  or_option, ◌&&◌, all, Option-cases, String,
}
use mathlib.Core.Option
use pay_era.Prelude.Table.{find_first}
use pay_era.Payments.Store.{TransactionStatus, Transaction, Store}
use pay_era.Payments.Rates.{Numbers}
use pay_era.Payments.Processor.Services.{PaymentArgs}
use pay_era.Payments.Processor.Work.{
  Work, set_status, is_reward_of, is_spend, find_by_id, zero_hash,
}
use pay_era.Payments.Processor.Steps
use pay_era.Payments.Processor.Payment.{advance, give_up, process_transaction, fresh}
use pay_era.Payments.Processor.Payment.Moves.{Holds, Moves, Moves-trans, enter, entered}
use pay_era.Payments.Processor.Payment.Runs.{move_to_eq}
use pay_era.Payments.Processor.Payment.Laws.{give_up-Fails}
use pay_era.Chain.Soroban.{labels_of, is_valid_argument}
use pay_era.Chain.Soroban.Laws.{invoke-invalid}
use pay_era.Chain.Soroban.Contracts.{create_payment, payment_call}
use pay_era.Chain.Wiring.{Outside, forget, on_chain}

-- The address that the processor passes for the payer of a payment.
abbrev pub payer_of : Transaction → Store → String
payer_of tx s =
    or_else (Option.map (λ x. x.address) (find_by_id (λ x. x.id) tx.wallet_id s.wallets)) ""

module _ {V : Type 0} (num : Numbers) (out : Outside V num) (id_text : ℕ → String) (now attempt : ℕ)
    (tx : Transaction) where
  create_payment-payer :
      (args : PaymentArgs)
      → out.rpc.is_address args.payer ≡ false
      → (e : Exception) × (forget
            (create_payment out.rpc out.addresses out.uuid out.units attempt args)
          ≡ err e)
  unfolding create_payment
  create_payment-payer args no_address =
      let call = payment_call out.rpc out.addresses out.uuid out.units args in
      let invalid : all (is_valid_argument out.rpc) call.arguments ≡ false = ground arith in
      let (e, refused) =
        invoke-invalid out.rpc (labels_of "PaymentEngine create_payment") attempt call invalid in
      (e, ground arith)

  step-payer :
      (w : Work)
      → out.rpc.is_address (payer_of tx w.store) ≡ false
      → (e : Exception) × (Steps.create_payment num id_text (on_chain num out) now attempt tx w
          ≡ (err e, w))
  unfolding Steps.create_payment on_chain
  step-payer w no_address =
      elim (Option-cases
        (find_first (λ r. is_reward_of tx.id r && is_spend r.reason) w.store.rewards)) [
          | inl missing ↦ (failure "No spend reward found for transaction", ground arith)
          | inr (r, found) ↦
              let (e, refused) =
                create_payment-payer
                  (record {
                    payment_id = tx.id;
                    payer = payer_of tx w.store;
                    merchant_id = tx.merchant_id;
                    asset = tx.asset_in;
                    amount_in_paise = tx.amount_in_paise;
                    qr_hash =
                        or_else
                          (or_option
                            (Option.map (λ q. q.qr_payload_hash)
                              (find_by_id (λ q. q.id) tx.merchant_qr_code_id w.store.qr_codes))
                            tx.qr_payload_hash)
                          zero_hash;
                    reward_id = r.id;
                  })
                  no_address in
              (e, ground arith)
        ]

  -- The tables when the payment is AUTHORIZED.
  abbrev authorized : Store → Work
  authorized s = record (fresh num id_text (on_chain num out) now attempt tx s) {
    store =
        entered tx.id TransactionStatus.authorized
          (set_status now TransactionStatus.authorized none none) s;
  }

  advance-payer :
      (s : Store) (t : Transaction)
      → Holds tx.id s t
      → out.rpc.is_address (payer_of tx s) ≡ false
      → let services = on_chain num out in
        (e : Exception) × (advance num id_text services now attempt tx
            (fresh num id_text services now attempt tx s)
          ≡ (err e, authorized s))
  unfolding advance Steps.register_payment
  advance-payer s t h no_address =
      let w0 = fresh num id_text (on_chain num out) now attempt tx s in
      let (e, refused) = step-payer (authorized s) no_address in
      let at_start = move_to_eq tx.id now TransactionStatus.authorized w0 t h in (e, ground arith)

  -- A payment whose wallet has no Stellar address, or that has no wallet, always fails at its first
  -- step, behind the services that the program has: its statuses are AUTHORIZED and FAILED, and no
  -- other payment changes.
  pub process_transaction-payer :
      (s : Store) (t : Transaction)
      → Holds tx.id s t
      → out.rpc.is_address (payer_of tx s) ≡ false
      → let done = process_transaction num id_text (on_chain num out) now attempt tx s in
        (done.0 ≡ ok tt)
        × Moves tx.id s t (TransactionStatus.authorized ∷ TransactionStatus.failed ∷ []) done.1
  unfolding process_transaction
  process_transaction-payer s t h no_address =
      let services = on_chain num out in
      let w1 = authorized s in
      let set = set_status now TransactionStatus.authorized none none in
      let begun = enter tx.id TransactionStatus.authorized set s t (λ x. refl) (λ x. refl) h in
      let (e, refused) = advance-payer s t h no_address in
      let last = give_up-Fails num id_text services now attempt tx e w1 begun.row begun.holds in
      let done : process_transaction num id_text services now attempt tx s
          ≡ (ok tt, (give_up num id_text services now attempt tx e w1).1.store) =
        ground (arith, last.0) in
      rw done (
        ap (λ r. r.0) done,
        Moves-trans tx.id s t (TransactionStatus.authorized ∷ []) (TransactionStatus.failed ∷ []) _
            _ begun last.1,
      )
