-- ===== src/Tests/Settlement.antt =====
-- Payouts, the ramp provider and the contracts at concrete inputs.
use pay_era.Prelude.{
  ℕ, ◌+◌, ◌<◌, ◌≡◌, ◌⊎◌, ◌↔◌, refl, true, false, none, some, List, [], ◌∷◌, String, ok, All,
}
use pay_era.Payments.Store.{SettlementStatus, Settlement, Store}
use pay_era.Payments.Payouts.{pending_settlements, handle_pending_settlements}
use pay_era.Payments.Processor.Services.{PayoutArgs}
use pay_era.Payments.Settlement.{
  DecentroConfig, answered, refused, DecentroAuthResponse, DecentroPayoutResponse, Session, Clock,
  Decentro, is_configured, get_access_token, payout_request, mock_payout, initiate_upi_payout,
  cached_token, issued_token,
}
use pay_era.Payments.Settlement.Issuing.{
  Request, after, IsIssued, IsIssuedIn, get_access_token-IsIssued,
}
use pay_era.Payments.Settlement.Laws.{payout_of, initiate_upi_payout_iff}
use pay_era.Payments.Settlement.Mock.{IsMadeUp, service_check, handle_pending_settlements-IsMadeUp}
use pay_era.Tests.Payments.{whole}

abbrev auth_response : DecentroAuthResponse
auth_response = record { status = "success"; access_token = some "T"; expires_in = 3600; body = "" }

abbrev paid : DecentroPayoutResponse
paid = record { status = "success"; transaction_id = "D1"; payout_status = "PENDING"; body = "" }

abbrev pub decentro : Decentro whole
decentro = record {
  auth = λ call. answered auth_response;
  payout = λ call token request. answered paid;
  payout_status = λ call token id. refused "500";
}

abbrev configured : DecentroConfig
configured = record { client_id = "c"; client_secret = "s"; module_secret = "m" }

abbrev pub not_configured : DecentroConfig
not_configured = record { client_id = ""; client_secret = ""; module_secret = "" }

abbrev pub clock_at : ℕ → Clock
clock_at n = record { now = n; received = n + 1 }

abbrev first_call : List Request
first_call = (clock_at 100, answered auth_response) ∷ []

held : (get_access_token (clock_at 200) (refused "401") (after first_call)).0 ≡ ok "T"
unfolding after get_access_token cached_token issued_token
held = refl

get_access_token-IsIssued_example :
    ((expiry : ℕ) × ((200 + 60000 < expiry) × IsIssuedIn first_call "T" expiry))
    ⊎ ((expiry : ℕ) × IsIssued (clock_at 200, refused "401") "T" expiry)
get_access_token-IsIssued_example =
    get_access_token-IsIssued first_call (clock_at 200) (refused "401") "T" held

abbrev params : PayoutArgs
params = record {
  reference_id = "TX1";
  amount_paise = 5000;
  merchant_upi_vpa = "shop@upi";
  merchant_name = "Shop";
  purpose = "payment";
}

abbrev pub start : Session
start = record { access_token = none; token_expiry = 0 }

initiate_upi_payout_iff_example :
    ((initiate_upi_payout whole configured decentro (clock_at 5) 0 "5_TX1" params start).0
      ≡ ok (payout_of whole paid))
    ↔ (((is_configured configured ≡ false) × (payout_of whole paid ≡ mock_payout whole "5_TX1"))
        ⊎ ((is_configured configured ≡ true)
            × ((token : String) × ((body : DecentroPayoutResponse) × (((get_access_token
                        (clock_at 5)
                        (decentro.auth 0)
                        start).0
                      ≡ ok token)
                    × ((decentro.payout 0 token (payout_request whole params) ≡ answered body)
                        × ((body.status ≡ "success")
                            × (payout_of whole paid ≡ payout_of whole body))))))))
initiate_upi_payout_iff_example =
    initiate_upi_payout_iff whole configured decentro (clock_at 5) 0 "5_TX1" params start
      (payout_of whole paid)

abbrev sent_payout : Settlement
sent_payout = record {
  id = 1;
  transaction_id = 7;
  merchant_id = 8;
  amount_paise = 5000;
  status = SettlementStatus.sent;
  settlement_reference = some "MOCK_5_TX1";
  mock_reference = none;
  failure_reason = none;
  confirmed_at = none;
  settlement_status = none;
  utr_number = none;
  last_polled_at = none;
}

abbrev store : Store
store = record {
  merchants = [];
  qr_codes = [];
  wallets = [];
  transactions = [];
  events = [];
  settlements = sent_payout ∷ [];
  rewards = [];
  logs = [];
  next_id = 9;
}

handle_pending_settlements-IsMadeUp_example :
    All
      (IsMadeUp
        (handle_pending_settlements
          (service_check whole not_configured decentro clock_at (λ n. start) refl)
          50
          store).settlements)
      (pending_settlements store.settlements)
handle_pending_settlements-IsMadeUp_example =
    handle_pending_settlements-IsMadeUp whole not_configured decentro clock_at (λ n. start) refl 50
      store (tt, tt)
