-- ===== src/Payments/Processor/Payment/Quiet.antt =====
-- The payout of a payment and the tables of payments and events.
use pay_era.Prelude.{
  ℕ, ◌≡◌, refl, inl, inr, Option, none, some, String, Action, arith, ◌==◌, str_eq, Bool-cases,
  Option-cases, Result-cases,
}
use Prim.Native.String
use pay_era.Prelude.Table.{find_first}
use pay_era.Payments.Store.{Merchant, Transaction, Reward, find_merchant}
use pay_era.Payments.Rates.{Numbers}
use pay_era.Payments.Processor.Services.{Services}
use pay_era.Payments.Processor.Work.{Work, update_reward, on_store}
use pay_era.Payments.Processor.Steps.{pay_out, pay_out_to, pay_vpa, pay_merchant}
use pay_era.Payments.Processor.Payment.Runs.{IsStill}

-- Two states of the work with the same payments and events.
abbrev pub Same : Work → Work → Type 0
Same w w' =
    (w'.store.transactions ≡ w.store.transactions)
    × (w'.store.events ≡ w.store.events)
    × (w'.store.next_id ≡ w.store.next_id)

pub Same-IsStill : {A : Type 0} (m : Action Work A) → ((w : Work) → Same w (m w).1) → IsStill m
Same-IsStill m h = record { rows = λ w. (h w).0; events = λ w. (h w).1; next = λ w. (h w).2 }

update_reward-Same :
    (id : ℕ) (f : Reward → Reward) (w : Work) → Same w (on_store (update_reward id f) w).1
update_reward-Same id f w = elim (Option-cases (find_first (λ r. r.id == id) w.store.rewards)) [
  | inl missing ↦ (ground arith, ground arith, ground arith)
  | inr (r, found) ↦ (ground arith, ground arith, ground arith)
]

module _ (num : Numbers) (id_text : ℕ → String) (services : Services num) (now : ℕ) (attempt : ℕ)
    (tx : Transaction) where
  pay_merchant-Same :
      (m : Merchant) (vpa : String) (w : Work)
      → Same w (pay_merchant num id_text services now attempt tx m vpa w).1
  pay_merchant-Same m vpa w =
      elim (Result-cases (
        services.initiate_upi_payout attempt (record {
          reference_id = String.◌++◌ "SETTLE_" (id_text tx.id);
          amount_paise = tx.amount_in_paise;
          merchant_upi_vpa = vpa;
          merchant_name = m.display_name;
          purpose = String.◌++◌ "Payment settlement for transaction " tx.public_id;
        }))) [
          | inl (p, sent) ↦ (ground arith, ground arith, ground arith)
          | inr (e, thrown) ↦ (ground arith, ground arith, ground arith)
        ]

  pay_vpa-Same :
      (m : Merchant) (vpa : Option String) (w : Work)
      → Same w (pay_vpa num id_text services now attempt tx m vpa w).1
  pay_vpa-Same m none w = (refl, refl, refl)
  pay_vpa-Same m (some vpa) w =
      let paid = pay_merchant-Same m vpa w in
      elim (Bool-cases (str_eq vpa "")) [
        | inl empty ↦ (ground arith, ground arith, ground arith)
        | inr there ↦ (ground arith, ground arith, ground arith)
      ]

  pay_out_to-Same :
      (m? : Option Merchant) (w : Work)
      → Same w (pay_out_to num id_text services now attempt tx m? w).1
  pay_out_to-Same none w = (refl, refl, refl)
  pay_out_to-Same (some m) w = pay_vpa-Same m m.default_upi_vpa w

  pub pay_out-IsStill : IsStill (pay_out num id_text services now attempt tx)
  unfolding pay_out
  pay_out-IsStill =
      Same-IsStill (pay_out num id_text services now attempt tx)
        (λ w. pay_out_to-Same (find_merchant tx.merchant_id w.store.merchants) w)
