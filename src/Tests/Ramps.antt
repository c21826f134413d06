-- ===== src/Tests/Ramps.antt =====
-- Ramps at concrete inputs.
use pay_era.Prelude.{
  ◌&&◌, ◌+◌, ◌≡◌, refl, true, false, none, some, List, [], ◌∷◌, ◌++◌, String, ok, err, failure, ltb,
  if◌then◌else◌,
}
use pay_era.Accounts.Store.{KycStatus}
use pay_era.Ramps.Status.{RampStatus, RampType, same_status}
use pay_era.Ramps.Provider.{StatusResult, Provider, register, register_from, has, get}
use pay_era.Ramps.Provider.Laws.{register-Resolves, Resolves}
use pay_era.Ramps.Retry.{with_retry}
use pay_era.Ramps.Retry.Laws.{Ends, with_retry-Ends}
use pay_era.Ramps.Store.{Ramp, Store}
use pay_era.Ramps.Store.Invariant.{IsValid}
use pay_era.Ramps.Initiation.{InitiateArgs, Ambient, initiate, initiate_on_ramp, initiate_off_ramp}
use pay_era.Ramps.Refresh.{refresh_status, apply_status}
use pay_era.Ramps.Initiation.Gate.{initiate_gate, Gated}
use pay_era.Ramps.Initiation.Laws.{
  initiate_lem, answer, final_row, final_result, first_event, second_event,
}
use pay_era.Ramps.Refresh.Apply.{Logged}
use pay_era.Ramps.Refresh.Laws.{refresh_status-Logged}
use pay_era.Ramps.Reconciliation.{batch}
use pay_era.Ramps.Reconciliation.Batch.{batch-IsRound, IsRound}
use pay_era.Ramps.History.{Request, on_ramp, refresh, reconcile, run, Keeps, run-Keeps}
use pay_era.Accounts.Kyc.{truthy}

abbrev completed_result : StatusResult
completed_result = record {
  status = RampStatus.completed;
  raw_status = "completed";
  amount_in = some "10";
  amount_out = some "9.5";
  amount_fee = none;
  reference_number = none;
  stellar_memo = none;
  stellar_memo_type = none;
  anchor_account = none;
  stellar_tx_hash = some "h";
}

-- A provider whose first authentication fails.
abbrev flaky : Provider
flaky = record {
  id = "MONEYGRAM";
  supports_on_ramp = true;
  supports_off_ramp = true;
  supports_status_callback = false;
  authenticate = λ k address. if ltb 0 k then ok "token" else err (failure "timeout");
  initiate_on_ramp =
      λ k token p. ok (record { provider_tx_id = "tx"; interactive_url = "https://url" });
  initiate_off_ramp =
      λ k token p. ok (record { provider_tx_id = "tx"; interactive_url = "https://url" });
  get_status = λ k token tx. ok completed_result;
}

abbrev args : InitiateArgs
args = record {
  user_id = 7;
  provider_id = "MONEYGRAM";
  user_stellar_address = "GABC";
  amount = some "10";
  asset_code = none;
}

abbrev env : Ambient
env = record { now = 1000; nonce = "abc" }

abbrev no_ramps : Store
no_ramps = record { ramps = []; events = []; next_id = 1 }

no_ramps-IsValid : IsValid no_ramps
no_ramps-IsValid = record {
  ids = record { below = tt; distinct = tt };
  owners = tt;
  ordered = λ id. tt;
  rows = tt;
}

abbrev pending_ramp : Ramp
pending_ramp = record {
  id = 3;
  public_id = "ONRAMP_x";
  user_id = 7;
  provider = "MONEYGRAM";
  type = RampType.onramp;
  status = RampStatus.pending_anchor;
  user_stellar_address = "GABC";
  asset_code = "USDC";
  amount_in = none;
  amount_out = none;
  amount_fee = none;
  provider_tx_id = some "tx";
  interactive_url = some "https://url";
  reference_number = none;
  stellar_memo = none;
  stellar_memo_type = none;
  anchor_account = none;
  stellar_tx_hash = none;
  failure_code = none;
  failure_message = none;
  created_at = 1000;
  completed_at = none;
  last_polled_at = none;
}

abbrev one_ramp : Store
one_ramp = record { ramps = pending_ramp ∷ []; events = []; next_id = 4 }

abbrev requests : List Request
requests =
    on_ramp (flaky ∷ []) (ok KycStatus.verified) args env
    ∷ refresh (flaky ∷ []) 2000 1 1
    ∷ reconcile (flaky ∷ []) 3000 2
    ∷ []

run-Keeps_example : Keeps no_ramps (run requests no_ramps)
run-Keeps_example = run-Keeps requests no_ramps no_ramps-IsValid

initiate_lem_example :
    let (r, s') = initiate RampType.onramp flaky args env no_ramps in
    let a = answer RampType.onramp flaky args in
    (r ≡ final_result RampType.onramp flaky args env no_ramps a)
    × (s'.ramps ≡ no_ramps.ramps ++ final_row RampType.onramp flaky args env no_ramps a ∷ [])
    × (s'.events
        ≡ (no_ramps.events ++ first_event RampType.onramp flaky args env no_ramps ∷ [])
          ++ second_event RampType.onramp flaky args env no_ramps a ∷ [])
    × (s'.next_id ≡ no_ramps.next_id + 1)
initiate_lem_example = initiate_lem RampType.onramp flaky args env no_ramps no_ramps-IsValid

initiate_gate_example :
    Gated RampType.onramp
      (λ p. p.supports_on_ramp)
      (flaky ∷ [])
      (ok KycStatus.pending)
      args
      env
      no_ramps
      (initiate_on_ramp (flaky ∷ []) (ok KycStatus.pending) args env no_ramps)
    × Gated RampType.offramp
        (λ p. p.supports_off_ramp && truthy args.amount)
        (flaky ∷ [])
        (ok KycStatus.pending)
        args
        env
        no_ramps
        (initiate_off_ramp (flaky ∷ []) (ok KycStatus.pending) args env no_ramps)
initiate_gate_example = initiate_gate (flaky ∷ []) (ok KycStatus.pending) args env no_ramps

refresh_status-Logged_example :
    Logged 3 one_ramp (refresh_status (flaky ∷ []) 5000 1 3 one_ramp).1 RampStatus.completed
unfolding refresh_status get apply_status same_status
refresh_status-Logged_example =
    refresh_status-Logged (flaky ∷ []) 5000 1 3 one_ramp RampStatus.completed refl

with_retry-Ends_example :
    Ends (λ k. flaky.authenticate k "GABC") 0 3 (with_retry (λ k. flaky.authenticate k "GABC") 3)
with_retry-Ends_example = with_retry-Ends (λ k. flaky.authenticate k "GABC") 3

batch-IsRound_example : IsRound 2000 one_ramp.ramps (batch 2000 one_ramp.ramps)
batch-IsRound_example = batch-IsRound 2000 one_ramp.ramps

abbrev reported : String
reported = "completed"

register-Resolves_example :
    (flaky ∷ [] ≡ flaky ∷ [])
    × Resolves (flaky ∷ []) (flaky ∷ [])
    × ((id : String) (p : Provider) → get id (flaky ∷ []) ≡ ok p → p.id ≡ id)
unfolding register register_from has
register-Resolves_example = register-Resolves (flaky ∷ []) (flaky ∷ []) refl
