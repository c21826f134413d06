-- ===== src/Payments/Processor/Payment/Steps.antt =====
-- Which statuses each step of a payment goes through.
use pay_era.Prelude.{
  ℕ, ◌≡◌, refl, sym, subst, ◌⊎◌, inl, inr, some, [], ◌∷◌, String, ok, err, Action, Exception, arith,
  Option-cases, Result-cases, ap, ◌&&◌, failure, or_else, or_option,
}
use mathlib.Core.Option
use pay_era.Prelude.Table.{find_first}
use pay_era.Payments.Store.{TransactionStatus, Transaction}
use pay_era.Payments.Rates.{Numbers}
use pay_era.Payments.Processor.Services.{Services, Submitted}
use pay_era.Payments.Processor.Work.{Work, move_to, is_reward_of, is_spend, find_by_id, zero_hash}
use pay_era.Payments.Processor.Steps.{
  create_payment, get_usdc_rate, amount_at, quote_payment, convert, record_submitted, route,
  mark_settled, set_submitted, amount_or_least,
}
use pay_era.Payments.Processor.Payment.Moves.{Holds, stay, enter, enter_eq, entered}
use pay_era.Payments.Processor.Payment.Runs.{Runs, Ended, Runs-move}

module _ (num : Numbers) (id_text : ℕ → String) (services : Services num) (now : ℕ) (attempt : ℕ)
    (tx : Transaction) where
  -- A call that throws before it writes anything, or ends by writing a status.
  abbrev pub Writes : Action Work (Unit {0}) → TransactionStatus → Type 0
  Writes m status =
      (w : Work) → ((e : Exception) × (m w ≡ (err e, w))) ⊎ (m w ≡ move_to now tx.id status w)

  pub Writes-Runs :
      (m : Action Work (Unit {0})) (status : TransactionStatus)
      → Writes m status
      → Runs tx.id m (status ∷ [])
  Writes-Runs m status h = record { run = end }
    where
      end :
          (w : Work) (t : Transaction) → Holds tx.id w.store t → Ended tx.id w t (status ∷ []) (m w)
      end w t k = elim (h w) [
        | inl (e, thrown) ↦
            rw thrown (inr (e, refl, [], status ∷ [], refl, (stay tx.id w.store t k)))
        | inr moved ↦
            subst (Ended tx.id w t (status ∷ [])) (sym moved)
              ((Runs-move tx.id now status).run w t k)
      ]

  pub create_payment-Runs :
      Writes (create_payment num id_text services now attempt tx) TransactionStatus.quoted
  unfolding create_payment
  create_payment-Runs w =
      elim (Option-cases
        (find_first (λ r. is_reward_of tx.id r && is_spend r.reason) w.store.rewards)) [
          | inl missing ↦ inl (failure "No spend reward found for transaction", ground arith)
          | inr (r, found) ↦
              elim (Result-cases (
                services.create_payment attempt (record {
                  payment_id = tx.id;
                  payer =
                      or_else
                        (Option.map (λ x. x.address)
                          (find_by_id (λ x. x.id) tx.wallet_id w.store.wallets))
                        "";
                  merchant_id = tx.merchant_id;
                  asset = tx.asset_in;
                  amount_in_paise = tx.amount_in_paise;
                  qr_hash =
                      or_else
                        (or_option
                          (Option.map (λ q. q.qr_payload_hash)
                            (find_by_id (λ q. q.id) tx.merchant_qr_code_id w.store.qr_codes))
                          tx.qr_payload_hash)
                        zero_hash;
                  reward_id = r.id;
                }))) [
                  | inr (e, thrown) ↦ inl (e, ground arith)
                  | inl (u, done) ↦ inr (ground arith)
                ]
        ]

  pub convert-Runs :
      Writes (convert num id_text services now attempt tx) TransactionStatus.routing_stellar
  unfolding convert
  convert-Runs w = elim (Result-cases (services.mark_converted attempt tx.id)) [
    | inr (e, thrown) ↦ inl (e, ground arith)
    | inl (u, done) ↦ inr (ground arith)
  ]

  pub mark_settled-Runs :
      Writes (mark_settled num id_text services now attempt tx) TransactionStatus.settling
  unfolding mark_settled
  mark_settled-Runs w = elim (Result-cases (services.mark_settled attempt tx.id)) [
    | inr (e, thrown) ↦ inl (e, ground arith)
    | inl (u, done) ↦ inr (ground arith)
  ]

  pub quote_payment-Runs :
      Writes (quote_payment num id_text services now attempt tx) TransactionStatus.converting
  unfolding quote_payment
  quote_payment-Runs w =
      let usdc =
        amount_at num id_text services now attempt tx
          (get_usdc_rate num id_text services now attempt tx) 1_000_000 in
      let asset =
        amount_at num id_text services now attempt tx (num.parse tx.quote_rate_inr_per_asset)
          10_000_000 in
      elim (Result-cases usdc) [
        | inr (e, thrown) ↦ inl (e, ground arith)
        | inl (a, known) ↦ elim (Result-cases asset) [
          | inr (e, thrown) ↦ inl (e, ground arith)
          | inl (b, known_too) ↦
              elim (Result-cases (
                services.quote_payment attempt (record {
                  payment_id = tx.id;
                  asset_amount = b;
                  usdc_amount = a;
                  network_fee_paise = 0;
                }))) [
                  | inr (e, thrown) ↦ inl (e, ground arith)
                  | inl (u, done) ↦ inr (ground arith)
                ]
        ]
      ]

  -- Keeping the answer of Stellar in the variables touches no table.
  record_submitted_eq :
      (r : Submitted) (w : Work) (t : Transaction)
      → Holds tx.id w.store t
      → record_submitted num id_text services now attempt tx r w ≡ (
        ok tt,
        record w {
          store =
              entered tx.id TransactionStatus.settling
                (set_submitted num id_text services now attempt tx r)
                w.store;
        },
      )
  unfolding record_submitted
  record_submitted_eq r w t h =
      ap (λ x. (x.0, record w { store = x.1 }))
        (enter_eq tx.id TransactionStatus.settling
          (set_submitted num id_text services now attempt tx r) w.store t h)

  pub route-Runs :
      Runs tx.id (route num id_text services now attempt tx) (TransactionStatus.settling ∷ [])
  unfolding route
  route-Runs = record { run = end }
    where
      end :
          (w : Work) (t : Transaction)
          → Holds tx.id w.store t
          → Ended tx.id w t
              (TransactionStatus.settling ∷ [])
              (route num id_text services now attempt tx w)
      end w t h =
          elim (Result-cases (
            services.submit_payment attempt (record {
              transaction_public_id = tx.public_id;
              asset_code = tx.asset_in;
              amount_crypto =
                  amount_or_least num id_text services now attempt tx tx.amount_in_crypto;
            }))) [
              | inr (e, thrown) ↦
                  let out : route num id_text services now attempt tx w ≡ (err e, w) =
                    ground arith in
                  subst (Ended tx.id w t _) (sym out)
                    (inr (e, refl, [], _, refl, stay tx.id w.store t h))
              | inl (r, sent) ↦
                  let w' = record w { hash = some r.hash; ledger = some r.ledger } in
                  let set = set_submitted num id_text services now attempt tx r in
                  let written = record_submitted_eq r w' t h in
                  let out : route num id_text services now attempt tx w ≡ (
                    ok tt,
                    record w' { store = entered tx.id TransactionStatus.settling set w.store },
                  ) =
                    ground arith in
                  subst (Ended tx.id w t _) (sym out) (
                    inl (
                      tt,
                      refl,
                      enter tx.id TransactionStatus.settling set w.store t (λ x. refl) (λ x. refl)
                          h,
                    ))
            ]
