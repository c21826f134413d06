-- ===== src/Ramps/Refresh.antt =====
-- apps/api/src/ramps/ramps.service.ts: refreshing the status of a ramp, with the provider's answers
-- (Ramps/Provider) and the clock as arguments.
pub mod Apply
pub mod Laws
use pay_era.Prelude.{
  ℕ, suc, ◌+◌, ◌-◌, ◌*◌, min, max, Bool, true, false, not, ◌&&◌, Option, none, some, List, [], ◌∷◌,
  map, String, Result, ok, err, Action, Exception, bad_request, forbidden, not_found, message, pure,
  raise, lift, or_raise, raise_if, try_catch, gets, ◌>>=◌, ◌>>◌, ◌==◌, str_eq, if◌then◌else◌,
  filter, length, take, drop,
}
use Prim.Native.String
use pay_era.Prelude.Table.{find_first}
use pay_era.Accounts.Store.{KycStatus, kyc_name}
use pay_era.Accounts.Kyc.{truthy}
use pay_era.Ramps.Status.{RampStatus, RampType, is_terminal, same_status}
use pay_era.Ramps.Provider.{InitiateParams, InitiateResult, StatusResult, Provider, Registry, get}
use pay_era.Ramps.Retry.{with_retry}
use pay_era.Ramps.Store.{Ramp, Payload, Store, find_ramp, create_ramp, update_ramp, append_event}
use pay_era.Ramps.Initiation.{◌<>◌}

-- `if (x !== undefined) data.f = x`
abbrev pub overwrite : Option String → Option String → Option String
overwrite none old = old
overwrite (some t) _ = some t

-- The columns that a status result overwrites whether or not the status changed.
abbrev pub set_details : ℕ → StatusResult → Ramp → Ramp
set_details now result r = record r {
  last_polled_at = some now;
  amount_in = overwrite result.amount_in r.amount_in;
  amount_out = overwrite result.amount_out r.amount_out;
  amount_fee = overwrite result.amount_fee r.amount_fee;
  reference_number = overwrite result.reference_number r.reference_number;
  stellar_memo = overwrite result.stellar_memo r.stellar_memo;
  stellar_memo_type = overwrite result.stellar_memo_type r.stellar_memo_type;
  anchor_account = overwrite result.anchor_account r.anchor_account;
  stellar_tx_hash = overwrite result.stellar_tx_hash r.stellar_tx_hash;
}

-- The columns that a change of status writes.
abbrev pub set_status : ℕ → StatusResult → Ramp → Ramp
set_status now result r = record r {
  status = result.status;
  completed_at =
      if same_status result.status RampStatus.completed then some now else r.completed_at;
  failure_code =
      if same_status result.status RampStatus.error then some "PROVIDER_ERROR" else r.failure_code;
  failure_message =
      if same_status result.status RampStatus.error
      then some ("Provider reported status \"" <> result.raw_status <> "\"")
      else r.failure_message;
}

-- `data`, applied to the row.
abbrev pub set_result : ℕ → RampStatus → StatusResult → Ramp → Ramp
set_result now previous result r =
    if same_status result.status previous
    then set_details now result r
    else set_status now result (set_details now result r)

unfoldable pub apply_status : ℕ → ℕ → RampStatus → StatusResult → String → Action Store RampStatus
apply_status now id previous result source = (do
  update_ramp id (set_result now previous result)
  (if same_status result.status previous
      then pure tt
      else append_event id (some result.status) "ramp.status_changed" source
          (Payload.changed previous result.status result.raw_status))
  pure result.status)

-- The part of `refreshStatus` behind its early returns. `call` numbers the calls to the provider.
abbrev pub poll : Registry → ℕ → ℕ → Ramp → String → Action Store RampStatus
poll registry now call ramp tx_id = do
  provider ← lift (get ramp.provider registry)
  token ← lift (provider.authenticate call ramp.user_stellar_address)
  result ← lift (provider.get_status call token tx_id)
  apply_status now ramp.id ramp.status result "poller"

abbrev pub poll_unless_done : Registry → ℕ → ℕ → Ramp → Action Store RampStatus
poll_unless_done registry now call ramp =
    if is_terminal ramp.status then pure ramp.status else elim ramp.provider_tx_id [
      | none ↦ pure ramp.status
      | some tx_id ↦ if str_eq tx_id "" then pure ramp.status else poll registry now call ramp tx_id
    ]

unfoldable pub refresh_status : Registry → ℕ → ℕ → ℕ → Action Store RampStatus
refresh_status registry now call id s = elim (find_ramp id s.ramps) [
  | none ↦ (err (not_found "Ramp transaction not found"), s)
  | some ramp ↦ poll_unless_done registry now call ramp s
]
