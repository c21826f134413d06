-- ===== src/Payments/Settlement/Mock.antt =====
-- The poller of payouts on a service without credentials.
use Prim.Native.String
use pay_era.Prelude.{
  ℕ, ◌+◌, ◌≡◌, inl, inr, refl, true, false, some, List, [], ◌∷◌, String, ok, arith, Option-cases,
  All,
}
use pay_era.Prelude.Table.{IsDistinct}
use pay_era.Payments.Rates.{Numbers}
use pay_era.Payments.Store.{SettlementStatus, Settlement, Store}
use pay_era.Payments.Payouts.{
  Check, is_polled, ask, set_polled, pending_settlements, handle_pending_settlements,
}
use pay_era.Payments.Payouts.Laws.{
  settlement_key, find_settlement, polled, Polled, handle_pending_settlements_lem,
}
use pay_era.Payments.Settlement.{
  DecentroConfig, Decentro, Session, Clock, is_configured, check_payout_status, mock_status_check,
}

-- The instruction has become CONFIRMED, with the number that is made of its own reference.
abbrev pub IsMadeUp : List Settlement → Settlement → Type 0
IsMadeUp xs r =
    (x : Settlement) × ((reference : String) × ((find_settlement r.id xs ≡ some x)
        × ((r.settlement_reference ≡ some reference)
            × ((x.status ≡ SettlementStatus.confirmed)
                × (x.utr_number ≡ some (String.◌++◌ "UTR_" reference))))))

module _ (num : Numbers) (config : DecentroConfig) (decentro : Decentro num) (clock : ℕ → Clock)
    (session : ℕ → Session) (unset : is_configured config ≡ false) where
  -- The service's answers to the poller, whatever session and time each call finds.
  abbrev pub service_check : Check
  service_check call reference =
      (check_payout_status num config decentro (clock call) call reference (session call)).0

  mock_answer :
      (c : Clock) (call : ℕ) (reference : String) (s : Session)
      → (check_payout_status num config decentro c call reference s).0
        ≡ ok (mock_status_check num reference)
  unfolding check_payout_status
  mock_answer c call reference s = ground arith

  service_check-mock :
      (call : ℕ) (reference : String)
      → service_check call reference ≡ ok (mock_status_check num reference)
  service_check-mock call reference = mock_answer (clock call) call reference (session call)

  polled-IsMadeUp :
      (now call : ℕ) (r : Settlement) (xs : List Settlement)
      → is_polled r ≡ true
      → find_settlement r.id xs ≡ some (polled service_check now call r)
      → IsMadeUp xs r
  unfolding set_polled
  polled-IsMadeUp now call r xs due found = elim (Option-cases r.settlement_reference) [
    | inl e ↦ ground arith
    | inr (reference, e) ↦
        let answer : ask service_check call r ≡ some (mock_status_check num reference) =
          ground (arith, service_check-mock call reference) in
        (
          set_polled now r (mock_status_check num reference) r,
          (reference, (ground arith, (e, (refl, refl)))),
        )
  ]

  all-IsMadeUp :
      (now call : ℕ) (rs xs : List Settlement)
      → All (λ r. is_polled r ≡ true) rs
      → Polled service_check now call rs xs
      → All (IsMadeUp xs) rs
  all-IsMadeUp now call [] xs due h = tt
  all-IsMadeUp now call (r ∷ rs) xs due h =
      (polled-IsMadeUp now call r xs due.0 h.0, all-IsMadeUp now (call + 1) rs xs due.1 h.1)

  -- Without credentials, a round of the poller confirms every payout that it asks for, each with a
  -- number that is made of its own reference, although no bank was asked.
  pub handle_pending_settlements-IsMadeUp :
      (now : ℕ) (s : Store)
      → IsDistinct settlement_key s.settlements
      → All
          (IsMadeUp (handle_pending_settlements service_check now s).settlements)
          (pending_settlements s.settlements)
  handle_pending_settlements-IsMadeUp now s d =
      let (_, due, rows, _) = handle_pending_settlements_lem service_check now s d in
      all-IsMadeUp now 0 (pending_settlements s.settlements)
        (handle_pending_settlements service_check now s).settlements due rows
