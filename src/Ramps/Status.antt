-- ===== src/Ramps/Status.antt =====
-- The life cycle of a ramp (`RampStatus`, `NormalizedRampStatus`), and MoneyGram's translation of
-- the SEP-24 status strings: apps/api/src/ramps/providers/moneygram.provider.ts.
pub mod Laws
use pay_era.Prelude.{
  ◌≡◌, ◌↔◌, ◌⊎◌, ◌≢◌, Bool, true, false, ◌||◌, String, str_eq, eq_iff, arith, if◌then◌else◌, not,
}
use mathlib.Core.Bool.{decide}

pub data RampStatus : Type 0 where
  initiated pending_user_transfer pending_anchor pending_stellar pending_external completed refunded
        expired error :
      RampStatus

pub data RampType : Type 0 where
  onramp offramp : RampType

-- `RampsService.isTerminal`
abbrev pub is_terminal : RampStatus → Bool
is_terminal RampStatus.completed = true
is_terminal RampStatus.refunded = true
is_terminal RampStatus.expired = true
is_terminal RampStatus.error = true
is_terminal RampStatus.initiated = false
is_terminal RampStatus.pending_user_transfer = false
is_terminal RampStatus.pending_anchor = false
is_terminal RampStatus.pending_stellar = false
is_terminal RampStatus.pending_external = false

-- The statuses that the reconciliation poller asks for.
abbrev pub is_pending : RampStatus → Bool
is_pending RampStatus.pending_user_transfer = true
is_pending RampStatus.pending_anchor = true
is_pending RampStatus.pending_stellar = true
is_pending RampStatus.pending_external = true
is_pending RampStatus.initiated = false
is_pending RampStatus.completed = false
is_pending RampStatus.refunded = false
is_pending RampStatus.expired = false
is_pending RampStatus.error = false

pub RampStatus-discrete : Discrete RampStatus
RampStatus-discrete = hlevel

-- `a === b`
unfoldable pub same_status : RampStatus → RampStatus → Bool
unfolding decide RampStatus-discrete
same_status a b = decide (RampStatus-discrete a b)

pub same_status_iff : (a b : RampStatus) → (same_status a b ≡ true) ↔ (a ≡ b)
unfolding same_status
same_status_iff a b = mathlib.Core.Bool.decide_iff (RampStatus-discrete a b)

-- The cases of the switch in `MoneyGramProvider.mapStatus` behind those of a ramp that waits.
unfoldable pub map_final : String → RampStatus
map_final raw =
    if str_eq raw "completed"
    then RampStatus.completed
    else if str_eq raw "refunded"
    then RampStatus.refunded
    else if str_eq raw "expired" || str_eq raw "too_late"
    then RampStatus.expired
    else if str_eq raw "error"
        || str_eq raw "no_market"
        || str_eq raw "pending_customer_info_update"
    then (if str_eq raw "error" || str_eq raw "no_market"
        then RampStatus.error
        else RampStatus.pending_user_transfer)
    else RampStatus.error

-- `MoneyGramProvider.mapStatus`
unfoldable pub map_status : String → RampStatus
map_status raw =
    if str_eq raw "incomplete" || str_eq raw "pending_user_transfer_start"
    then RampStatus.pending_user_transfer
    else if str_eq raw "pending_anchor" || str_eq raw "pending_trust" || str_eq raw "pending_user"
    then RampStatus.pending_anchor
    else if str_eq raw "pending_stellar"
    then RampStatus.pending_stellar
    else if str_eq raw "pending_user_transfer_complete" || str_eq raw "pending_external"
    then RampStatus.pending_external
    else map_final raw
