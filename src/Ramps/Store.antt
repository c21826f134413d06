-- ===== src/Ramps/Store.antt =====
-- The tables RampTransaction and RampTransactionEvent (apps/api/prisma/schema.prisma), and the
-- queries that apps/api/src/ramps/ramps.service.ts makes. Times are milliseconds.
pub mod Invariant
use pay_era.Prelude.{
  ℕ, ◌+◌, Bool, Option, none, some, List, [], ◌∷◌, ◌++◌, String, ok, err, Action, no_record, ◌==◌,
}
use pay_era.Prelude.Table.{find_first, update_many}
use pay_era.Prelude.Trail.{max_sequence}
use pay_era.Ramps.Status.{RampStatus, RampType}

pub record Ramp : Type 0 where
  pub id : ℕ
  pub public_id : String
  pub user_id : ℕ
  pub provider : String
  pub type : RampType
  pub status : RampStatus
  pub user_stellar_address : String
  pub asset_code : String
  pub amount_in : Option String
  pub amount_out : Option String
  pub amount_fee : Option String
  pub provider_tx_id : Option String
  pub interactive_url : Option String
  pub reference_number : Option String
  pub stellar_memo : Option String
  pub stellar_memo_type : Option String
  pub anchor_account : Option String
  pub stellar_tx_hash : Option String
  pub failure_code : Option String
  pub failure_message : Option String
  pub created_at : ℕ
  pub completed_at : Option ℕ
  pub last_polled_at : Option ℕ

pub data Payload : Type 0 where
  created : RampType → String → Payload
  initiated : String → Payload
  failed : String → Payload
  changed : (from to : RampStatus) → (raw : String) → Payload

pub record RampEvent : Type 0 where
  pub ramp_transaction_id : ℕ
  pub sequence : ℕ
  pub status : Option RampStatus
  pub event_type : String
  pub source : String
  pub payload : Payload

-- `next_id` is the id that the database gives to the next ramp.
pub record Store : Type 0 where
  pub ramps : List Ramp
  pub events : List RampEvent
  pub next_id : ℕ

abbrev pub owner : RampEvent → ℕ
owner e = e.ramp_transaction_id

abbrev pub number : RampEvent → ℕ
number e = e.sequence

abbrev pub find_ramp : ℕ → List Ramp → Option Ramp
find_ramp id = find_first (λ r. r.id == id)

abbrev pub set_ramp : ℕ → (Ramp → Ramp) → List Ramp → List Ramp
set_ramp id f = update_many (λ r. r.id == id) f

-- `rampTransaction.create({ data })`, for a row built from the id that it gets.
abbrev pub create_ramp : (ℕ → Ramp) → Action Store Ramp
create_ramp make s = (
  ok (make s.next_id),
  record s { ramps = s.ramps ++ make s.next_id ∷ []; next_id = s.next_id + 1 },
)

-- `rampTransaction.update({ where: { id }, data })`
abbrev pub update_ramp : ℕ → (Ramp → Ramp) → Action Store Ramp
update_ramp id f s = elim (find_ramp id s.ramps) [
  | none ↦ (err no_record, s)
  | some r ↦ (ok (f r), record s { ramps = set_ramp id f s.ramps })
]

abbrev pub next_event : ℕ → Option RampStatus → String → String → Payload → Store → RampEvent
next_event id status event_type source payload s = record {
  ramp_transaction_id = id;
  sequence = max_sequence owner number id s.events + 1;
  status = status;
  event_type = event_type;
  source = source;
  payload = payload;
}

-- `RampsService.appendEvent`
abbrev pub append_event :
    ℕ → Option RampStatus → String → String → Payload → Action Store (Unit {0})
append_event id status event_type source payload s =
    (ok tt, record s { events = s.events ++ next_event id status event_type source payload s ∷ [] })
