-- ===== src/Payments/Payouts.antt =====
-- `handlePendingSettlements` of
-- apps/api/src/transaction-processor/transaction-processor.service.ts: the poller of payouts. The
-- status that SettlementService reports is an argument, which takes the number of the call.
pub mod Laws
use pay_era.Prelude.{
  ℕ, ◌+◌, Bool, true, false, ◌&&◌, ◌||◌, Option, none, some, List, [], ◌∷◌, String, Result, ok, err,
  is_some, str_eq, ◌==◌, if◌then◌else◌, filter, take,
}
use Prim.Native.String
use pay_era.Prelude.Table.{update_many}
use pay_era.Payments.Store.{SettlementStatus, Settlement, Store}

-- What `checkPayoutStatus` answers.
pub record PayoutStatus : Type 0 where
  pub status : String
  pub utr_number : Option String

abbrev pub Check : Type 0
Check = ℕ → String → Result PayoutStatus

abbrev pub is_sent : SettlementStatus → Bool
is_sent SettlementStatus.sent = true
is_sent SettlementStatus.pending = false
is_sent SettlementStatus.confirmed = false
is_sent SettlementStatus.failed = false

-- The `where` of the query.
abbrev pub is_polled : Settlement → Bool
is_polled x = is_sent x.status && is_some x.settlement_reference

unfoldable pub pending_settlements : List Settlement → List Settlement
pending_settlements xs = take 20 (filter is_polled xs)

abbrev pub is_paid : String → Bool
is_paid status = str_eq status "SUCCESS" || str_eq status "COMPLETED"

abbrev pub is_refused : String → Bool
is_refused status = str_eq status "FAILED" || str_eq status "REJECTED"

-- The row after an answer. `row` is the row that the query read: its reference and metadata are
-- written back.
unfoldable pub set_polled : ℕ → Settlement → PayoutStatus → Settlement → Settlement
set_polled now row answer x =
    if is_paid answer.status
    then record x {
      status = SettlementStatus.confirmed;
      confirmed_at = some now;
      mock_reference = row.settlement_reference;
      settlement_status = some answer.status;
      utr_number = answer.utr_number;
      last_polled_at = row.last_polled_at;
    }
    else if is_refused answer.status
    then record x {
      status = SettlementStatus.failed;
      failure_reason = some (String.◌++◌ "Decentro status: " answer.status);
    }
    else record x {
      settlement_status = some answer.status;
      utr_number = row.utr_number;
      last_polled_at = some now;
    }

-- The answer for one row; the reference is there where the query has selected the row.
abbrev pub ask : Check → ℕ → Settlement → Option PayoutStatus
ask check call x = elim x.settlement_reference [
  | none ↦ none
  | some reference ↦ elim (check call reference) [ ok answer ↦ some answer | err e ↦ none ]
]

-- One round of the loop: what the check throws is logged and dropped.
unfoldable pub poll_one : Check → ℕ → ℕ → Settlement → List Settlement → List Settlement
poll_one check now call x xs = elim (ask check call x) [
  | none ↦ xs
  | some answer ↦ update_many (λ y. y.id == x.id) (set_polled now x answer) xs
]

unfoldable pub poll_each : Check → ℕ → ℕ → List Settlement → List Settlement → List Settlement
poll_each check now call [] xs = xs
poll_each check now call (r ∷ rs) xs =
    poll_each check now (call + 1) rs (poll_one check now call r xs)

unfoldable pub handle_pending_settlements : Check → ℕ → Store → Store
handle_pending_settlements check now s = record s {
  settlements = poll_each check now 0 (pending_settlements s.settlements) s.settlements;
}
