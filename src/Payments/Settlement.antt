-- ===== src/Payments/Settlement.antt =====
-- apps/api/src/settlement/settlement.service.ts: payouts by UPI through Decentro, with its access
-- token. What Decentro answers to a request is an argument, which takes the number of the request.
pub mod Issuing
pub mod Laws
pub mod Mock
use pay_era.Prelude.{
  ℕ, ◌+◌, ◌*◌, Bool, true, false, not, ◌&&◌, ◌||◌, Option, none, some, String, Result, ok, err,
  Exception, failure, Action, lift, pure, ◌>>=◌, str_eq, ltb, if◌then◌else◌,
}
use Prim.Native.String
use pay_era.Payments.Rates.{Numbers}
use pay_era.Payments.Payouts.{PayoutStatus}
use pay_era.Payments.Processor.Services.{PayoutArgs, Payout}

-- `DecentroConfig`, where a variable that is not set is the empty text.
pub record DecentroConfig : Type 0 where
  pub client_id : String
  pub client_secret : String
  pub module_secret : String

-- What `fetch` ends with: an exception, a response that is not ok (the text that the service makes
-- of its status and its body), or the body.
pub data Answer (A : Type 0) : Type 0 where
  threw : Exception → Answer A
  refused : String → Answer A
  answered : A → Answer A

pub record DecentroAuthResponse : Type 0 where
  pub status : String
  pub access_token : Option String
  pub expires_in : ℕ
  -- The response as text, for the exception.
  pub body : String

pub record DecentroPayoutResponse : Type 0 where
  pub status : String
  pub transaction_id : String
  pub payout_status : String
  pub body : String

pub record DecentroStatusResponse : Type 0 where
  pub payout_status : String
  pub utr_number : Option String

-- The fields of the service that change.
pub record Session : Type 0 where
  pub access_token : Option String
  pub token_expiry : ℕ

-- The time of a call, and the time when its token has come.
pub record Clock : Type 0 where
  pub now : ℕ
  pub received : ℕ

abbrev pub is_set : String → Bool
is_set t = not (str_eq t "")

abbrev pub is_configured : DecentroConfig → Bool
is_configured c = is_set c.client_id && is_set c.client_secret && is_set c.module_secret

abbrev pub read_answer : {A : Type 0} → String → Answer A → Result A
read_answer what (threw e) = err e
read_answer what (refused text) = err (failure (String.◌++◌ what text))
read_answer what (answered a) = ok a

-- `this.accessToken && Date.now() < this.tokenExpiry - 60000`: the token that is still good.
unfoldable pub cached_token : ℕ → Session → Option String
cached_token now s = elim s.access_token [
  | none ↦ none
  | some t ↦ if is_set t && ltb (now + 60000) s.token_expiry then some t else none
]

-- `data.status !== 'success' || !data.data?.access_token`
unfoldable pub issued_token : DecentroAuthResponse → Result String
issued_token r =
    let failed = failure (String.◌++◌ "Decentro auth failed: " r.body) in
    elim r.access_token [
      | none ↦ err failed
      | some t ↦ if str_eq r.status "success" && is_set t then ok t else err failed
    ]

abbrev pub fetched_token : Answer DecentroAuthResponse → Result (String × ℕ)
fetched_token a = elim (read_answer "Decentro auth failed: " a) [
  | err e ↦ err e
  | ok r ↦ elim (issued_token r) [ err e ↦ err e | ok t ↦ ok (t, r.expires_in) ]
]

-- `getAccessToken`, with what Decentro answers if it is asked.
unfoldable pub get_access_token : Clock → Answer DecentroAuthResponse → Action Session String
get_access_token clock answer s = elim (cached_token clock.now s) [
  | some t ↦ (ok t, s)
  | none ↦ elim (fetched_token answer) [
    | err e ↦ (err e, s)
    | ok (t, expires_in) ↦
        (ok t, record { access_token = some t; token_expiry = clock.received + expires_in * 1000 })
  ]
]

module _ (num : Numbers) where
  pub record DecentroPayoutRequest : Type 0 where
    pub beneficiary_name : String
    pub beneficiary_account_number : String
    pub beneficiary_ifsc : String
    pub amount : num.Number
    pub purpose : String
    pub reference_id : String
    pub upi_vpa : String

  -- Decentro, as the service sees it: the answers to the request for a token, and to those for a
  -- payout and for its status, which carry the token.
  pub record Decentro : Type 0 where
    pub auth : ℕ → Answer DecentroAuthResponse
    pub payout : ℕ → String → DecentroPayoutRequest → Answer DecentroPayoutResponse
    pub payout_status : ℕ → String → String → Answer DecentroStatusResponse

  abbrev pub payout_request : PayoutArgs → DecentroPayoutRequest
  payout_request params = record {
    beneficiary_name = params.merchant_name;
    beneficiary_account_number = "0000000000";
    beneficiary_ifsc = "N/A";
    amount = num.div (num.of_nat params.amount_paise) (num.of_nat 100);
    purpose = params.purpose;
    reference_id = params.reference_id;
    upi_vpa = params.merchant_upi_vpa;
  }

  abbrev pub accepted_payout : DecentroPayoutResponse → Result Payout
  accepted_payout r =
      if str_eq r.status "success"
      then ok (record { transaction_id = r.transaction_id; status = r.payout_status })
      else err (failure (String.◌++◌ "Decentro payout failed: " r.body))

  -- The request for a payout with a token.
  unfoldable pub send_payout : Decentro → ℕ → PayoutArgs → String → Result Payout
  send_payout decentro call params token =
      elim (read_answer "Decentro payout failed: "
        (decentro.payout call token (payout_request params))) [
          | err e ↦ err e
          | ok r ↦ accepted_payout r
        ]

  unfoldable pub send_status : Decentro → ℕ → String → String → Result PayoutStatus
  send_status decentro call transaction_id token =
      elim (read_answer "Decentro status check failed: "
        (decentro.payout_status call token transaction_id)) [
          | err e ↦ err e
          | ok r ↦ ok (record { status = r.payout_status; utr_number = r.utr_number })
        ]

  -- `mockPayout`; `suffix` are the time and the last eight characters of the reference, in a text.
  abbrev pub mock_payout : String → Payout
  mock_payout suffix = record { transaction_id = String.◌++◌ "MOCK_" suffix; status = "SUCCESS" }

  -- `mockStatusCheck`
  abbrev pub mock_status_check : String → PayoutStatus
  mock_status_check transaction_id = record {
    status = "SUCCESS";
    utr_number = some (String.◌++◌ "UTR_" transaction_id);
  }

  -- A call with a token, after the service has got one.
  abbrev pub with_token :
      {A : Type 0} → Decentro → Clock → ℕ → (String → Result A) → Action Session A
  with_token decentro clock call send s =
      let (r, s') = get_access_token clock (decentro.auth call) s in
      elim r [ err e ↦ (err e, s') | ok token ↦ (send token, s') ]

  unfoldable pub initiate_upi_payout :
      DecentroConfig → Decentro → Clock → ℕ → String → PayoutArgs → Action Session Payout
  initiate_upi_payout config decentro clock call suffix params s =
      if not (is_configured config)
      then (ok (mock_payout suffix), s)
      else with_token decentro clock call (send_payout decentro call params) s

  unfoldable pub check_payout_status :
      DecentroConfig → Decentro → Clock → ℕ → String → Action Session PayoutStatus
  check_payout_status config decentro clock call transaction_id s =
      if not (is_configured config)
      then (ok (mock_status_check transaction_id), s)
      else with_token decentro clock call (send_status decentro call transaction_id) s
