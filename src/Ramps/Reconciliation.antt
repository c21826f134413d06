-- ===== src/Ramps/Reconciliation.antt =====
-- apps/api/src/ramps/ramp-reconciliation.service.ts: the poller of pending ramps. The database's
-- order of equal keys is not documented; here it is the order of insertion.
pub mod Batch
use pay_era.Prelude.{
  ℕ, ◌+◌, ◌*◌, Bool, true, false, ◌&&◌, Option, none, some, List, [], ◌∷◌, leb, is_some,
  if◌then◌else◌, filter, take,
}
use pay_era.Ramps.Status.{is_pending}
use pay_era.Ramps.Provider.{Registry}
use pay_era.Ramps.Store.{Ramp, Store}
use pay_era.Ramps.Refresh.{refresh_status}

-- 24 hours
abbrev pub max_age_ms : ℕ
max_age_ms = 1000 * 60 * 60 * 24

abbrev pub batch_size : ℕ
batch_size = 20

-- The `where` of the query; `createdAt >= now - maxAgeMs` is written without subtraction.
abbrev pub is_due : ℕ → Ramp → Bool
is_due now r =
    is_pending r.status && is_some r.provider_tx_id && leb now (r.created_at + max_age_ms)

-- `orderBy: { lastPolledAt: { sort: 'asc', nulls: 'first' } }`
abbrev pub polled_by : Option ℕ → Option ℕ → Bool
polled_by none b = true
polled_by (some a) none = false
polled_by (some a) (some b) = leb a b

unfoldable pub insert_polled : Ramp → List Ramp → List Ramp
insert_polled r [] = r ∷ []
insert_polled r (x ∷ xs) =
    if polled_by r.last_polled_at x.last_polled_at then r ∷ x ∷ xs else x ∷ insert_polled r xs

unfoldable pub sort_polled : List Ramp → List Ramp
unfolding insert_polled
sort_polled [] = []
sort_polled (r ∷ rs) = insert_polled r (sort_polled rs)

unfoldable pub batch : ℕ → List Ramp → List Ramp
unfolding sort_polled
batch now rs = take batch_size (sort_polled (filter (is_due now) rs))

-- The loop: what a refresh throws is logged and dropped. `call` numbers the refreshes.
unfoldable pub reconcile_each : Registry → ℕ → ℕ → List Ramp → Store → Store
reconcile_each registry now call [] s = s
reconcile_each registry now call (r ∷ rs) s =
    reconcile_each registry now (call + 1) rs (refresh_status registry now call r.id s).1

unfoldable pub reconcile_pending : Registry → ℕ → ℕ → Store → Store
unfolding batch reconcile_each
reconcile_pending registry now call s = reconcile_each registry now call (batch now s.ramps) s
