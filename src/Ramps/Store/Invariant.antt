-- ===== src/Ramps/Store/Invariant.antt =====
-- What holds of the ramp tables between two requests.
use pay_era.Prelude.{
  ℕ, ◌+◌, ◌<◌, ◌≡◌, refl, true, Option, some, List, [], ◌∷◌, ◌++◌, String, arith, is_some, All,
  All-append, All-map, ◌==◌,
}
use pay_era.Prelude.Table.{IsKeyed, IsKeyed-append, IsKeyed-update, IsBelow, All-update_one}
use pay_era.Prelude.Trail.{IsOrdered, append-IsOrdered}
use pay_era.Ramps.Status.{RampStatus, is_pending}
use pay_era.Ramps.Store.{
  Ramp, RampEvent, Payload, Store, owner, number, next_event, find_ramp, set_ramp,
}

abbrev pub key : Ramp → ℕ
key r = r.id

-- A ramp carries a completion time exactly when it is COMPLETED and a failure code exactly when it
-- is in ERROR; one that waits for its provider has the provider's transaction id.
pub record IsConsistent (r : Ramp) : Type 0 where
  pub completed : r.status ≡ RampStatus.completed → is_some r.completed_at ≡ true
  pub not_completed : is_some r.completed_at ≡ true → r.status ≡ RampStatus.completed
  pub failed : r.status ≡ RampStatus.error → is_some r.failure_code ≡ true
  pub not_failed : is_some r.failure_code ≡ true → r.status ≡ RampStatus.error
  pub pollable : is_pending r.status ≡ true → is_some r.provider_tx_id ≡ true

pub record IsValid (s : Store) : Type 0 where
  pub ids : IsKeyed key s.next_id s.ramps
  pub owners : IsBelow owner s.next_id s.events
  pub ordered : IsOrdered owner number s.events
  pub rows : All IsConsistent s.ramps

-- The audit trail is append-only: nothing that was written changes or disappears.
abbrev pub Extends : Store → Store → Type 0
Extends s s' = (later : List RampEvent) × (s'.events ≡ s.events ++ later)

pub append_event-IsValid :
    (id : ℕ) (status : Option RampStatus) (event_type source : String) (payload : Payload)
    (s : Store)
    → IsValid s
    → id < s.next_id
    → IsValid
        (record s { events = s.events ++ next_event id status event_type source payload s ∷ [] })
append_event-IsValid id status event_type source payload s v h = record {
  ids = v.ids;
  owners = All-append (λ e. owner e < s.next_id) s.events _ v.owners (h, tt);
  ordered =
      append-IsOrdered owner number s.events (next_event id status event_type source payload s)
        v.ordered refl;
  rows = v.rows;
}

pub create_ramp-IsValid :
    (r : Ramp) (s : Store)
    → IsValid s
    → r.id ≡ s.next_id
    → IsConsistent r
    → IsValid (record s { ramps = s.ramps ++ r ∷ []; next_id = s.next_id + 1 })
create_ramp-IsValid r s v e c = record {
  ids = IsKeyed-append key s.next_id s.ramps r v.ids e;
  owners =
      All-map (λ x. owner x < s.next_id) (λ x. owner x < s.next_id + 1) (λ x h. omega arith)
        s.events v.owners;
  ordered = v.ordered;
  rows = All-append IsConsistent s.ramps (r ∷ []) v.rows (c, tt);
}

pub update_ramp-IsValid :
    (id : ℕ) (f : Ramp → Ramp) (s : Store) {r : Ramp}
    → IsValid s
    → ((x : Ramp) → (f x).id ≡ x.id)
    → find_ramp id s.ramps ≡ some r
    → IsConsistent (f r)
    → IsValid (record s { ramps = set_ramp id f s.ramps })
update_ramp-IsValid id f s v same found c = record {
  ids = IsKeyed-update key s.next_id (λ x. x.id == id) f s.ramps same v.ids;
  owners = v.owners;
  ordered = v.ordered;
  rows = All-update_one key IsConsistent id f s.ramps v.ids.distinct found c v.rows;
}
