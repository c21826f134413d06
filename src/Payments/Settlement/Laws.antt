-- ===== src/Payments/Settlement/Laws.antt =====
-- Which payouts succeed.
use pay_era.Prelude.{
  ℕ, ◌≡◌, ◌⊎◌, ◌↔◌, inl, inr, refl, sym, ap, true, false, String, ok, err, Exception, failure,
  arith, Bool-cases, Result-cases, str_eq, eq_iff,
}
use Prim.Native.String
use pay_era.Payments.Rates.{Numbers}
use pay_era.Payments.Processor.Services.{PayoutArgs, Payout}
use pay_era.Payments.Settlement.{
  DecentroConfig, Answer, threw, refused, answered, DecentroPayoutResponse, Session, Clock,
  is_configured, read_answer, get_access_token, Decentro, payout_request, send_payout, mock_payout,
  initiate_upi_payout,
}

read_answer_cases :
    {A : Type 0} (what : String) (a : Answer A)
    → ((r : A) × ((a ≡ answered r) × (read_answer what a ≡ ok r)))
      ⊎ ((e : Exception) × (read_answer what a ≡ err e))
read_answer_cases what (threw e) = inr (e, refl)
read_answer_cases what (refused t) = inr (failure (String.◌++◌ what t), refl)
read_answer_cases what (answered r) = inl (r, (refl, refl))

module _ (num : Numbers) where
  abbrev pub payout_of : DecentroPayoutResponse → Payout
  payout_of r = record { transaction_id = r.transaction_id; status = r.payout_status }

  module _ (decentro : Decentro num) (call : ℕ) (params : PayoutArgs) (token : String)
      (p : Payout) where
    abbrev IsPaid : DecentroPayoutResponse → Type 0
    IsPaid body =
        (decentro.payout call token (payout_request num params) ≡ answered body)
        × ((body.status ≡ "success") × (p ≡ payout_of body))

    send_payout_of :
        send_payout num decentro call params token ≡ ok p
        → (body : DecentroPayoutResponse) × IsPaid body
    unfolding send_payout
    send_payout_of h =
        elim (read_answer_cases "Decentro payout failed: "
          (decentro.payout call token (payout_request num params))) [
            | inl (r, (e, read)) ↦ elim (Bool-cases (str_eq r.status "success")) [
              | inl b ↦ (r, (e, ((eq_iff r.status "success").0 b, ground arith)))
              | inr b ↦ ground arith
            ]
            | inr (x, read) ↦ ground arith
          ]

    of_send_payout :
        (body : DecentroPayoutResponse)
        → IsPaid body
        → send_payout num decentro call params token ≡ ok p
    unfolding send_payout
    of_send_payout body (e, (b, own)) =
        let good : str_eq body.status "success" ≡ true = (eq_iff body.status "success").1 b in
        rw (send_payout, e, good) (ap ok (sym own))

  -- A payout succeeds in two cases only: without credentials it is made up, and nobody is asked;
  -- with them there was a token, and Decentro answered the request, which carried the token and the
  -- amount in rupees, with "success". Everything else is an exception.
  pub initiate_upi_payout_iff :
      (config : DecentroConfig) (decentro : Decentro num) (clock : Clock) (call : ℕ)
      (suffix : String) (params : PayoutArgs) (s : Session) (p : Payout)
      → ((initiate_upi_payout num config decentro clock call suffix params s).0 ≡ ok p) ↔ (
          ((is_configured config ≡ false) × (p ≡ mock_payout num suffix))
          ⊎ ((is_configured config ≡ true)
              × ((token : String) × ((body : DecentroPayoutResponse) × (((get_access_token clock
                          (decentro.auth call)
                          s).0
                        ≡ ok token)
                      × ((decentro.payout call token (payout_request num params) ≡ answered body)
                          × ((body.status ≡ "success") × (p ≡ payout_of body))))))))
  unfolding initiate_upi_payout
  initiate_upi_payout_iff config decentro clock call suffix params s p =
      let got = (get_access_token clock (decentro.auth call) s).0 in
      elim (Bool-cases (is_configured config)) [
        | inr unset ↦ (
          λ h. inl (unset, ground arith),
          λ h. elim h [ inl (_, own) ↦ rw unset (ap ok (sym own)) | inr (set, _) ↦ ground arith ],
        )
        | inl set ↦ elim (Result-cases got) [
          | inl (t, e) ↦ (
            λ h.
                let (body, paid) = send_payout_of decentro call params t p (ground arith) in
                inr (set, (t, (body, (e, paid)))),
            λ h. elim h [
              | inl (unset, _) ↦ ground arith
              | inr (_, (u, (body, (again, paid)))) ↦
                  let own : t ≡ u = ground arith in
                  ground (arith, of_send_payout decentro call params u p body paid)
            ],
          )
          | inr (x, e) ↦ (
            λ h. ground arith,
            λ h. elim h [
              | inl (unset, _) ↦ ground arith
              | inr (_, (u, (body, (again, paid)))) ↦ ground arith
            ],
          )
        ]
      ]
