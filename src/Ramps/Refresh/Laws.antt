-- ===== src/Ramps/Refresh/Laws.antt =====
-- What refreshing a ramp changes, and what it leaves alone.
use pay_era.Prelude.{ℕ, ◌≡◌, inl, inr, refl, true, some, [], ◌∷◌, ok, arith, append-nil, Bool-cases}
use pay_era.Prelude.Table.{find_first-update_many}
use pay_era.Ramps.Status.{RampStatus, is_terminal, same_status}
use pay_era.Ramps.Provider.{Registry}
use pay_era.Ramps.Store.{Ramp, Payload, Store, next_event, find_ramp}
use pay_era.Ramps.Store.Invariant.{IsValid, Extends, key}
use pay_era.Ramps.Refresh.{set_result, refresh_status}
use pay_era.Ramps.Refresh.Apply.{
  set_result-key, idle, threw, polled, refresh_status-Refreshed, apply_status_lem,
  apply_status-IsValid, Logged, apply_status-Logged,
}

module _ (registry : Registry) (now call id : ℕ) (s : Store) where
  -- A refresh keeps the invariant of the tables, whatever the provider answers.
  pub refresh_status-IsValid : IsValid s → IsValid (refresh_status registry now call id s).1
  refresh_status-IsValid v = elim (refresh_status-Refreshed registry now call id s) [
    | idle ramp found out ↦ rw out v
    | threw e same ↦ rw same v
    | polled ramp result found pending known out ↦
        rw out (apply_status-IsValid now id s ramp result v found pending known)
  ]

  -- A refresh that returns reports the status that the ramp now has. It writes one event, which
  -- carries the new status, exactly where that differs from the old one; what was logged before
  -- stays as it was.
  pub refresh_status-Logged :
      (status : RampStatus)
      → (refresh_status registry now call id s).0 ≡ ok status
      → Logged id s (refresh_status registry now call id s).1 status
  refresh_status-Logged status h = elim (refresh_status-Refreshed registry now call id s) [
    | idle ramp found out ↦ record {
      before = ramp;
      after = ramp;
      found = found;
      kept = rw out found;
      current = ground (arith, out, h);
      logged = inl (ground (arith, out, h), rw out refl);
    }
    | threw e same ↦ absurd (ground (arith, e, h))
    | polled ramp result found pending known out ↦
        let e : result.status ≡ status =
          ground (arith, h, out, apply_status_lem now id ramp.status result "poller" s found) in
        rw (out, ← e) (apply_status-Logged now id s ramp result found)
  ]

  -- A ramp in a terminal status keeps its row under every refresh, its own or another ramp's.
  pub refresh_status-terminal :
      (n : ℕ) (r : Ramp)
      → find_ramp n s.ramps ≡ some r
      → is_terminal r.status ≡ true
      → find_ramp n (refresh_status registry now call id s).1.ramps ≡ some r
  refresh_status-terminal n r found done = elim (refresh_status-Refreshed registry now call id s) [
    | idle ramp _ out ↦ rw out found
    | threw e same ↦ rw same found
    | polled ramp result own pending known out ↦
        let after = apply_status_lem now id ramp.status result "poller" s own in
        let read =
          find_first-update_many key id n (set_result now ramp.status result) s.ramps
            (set_result-key now ramp.status result) in
        rw out (ground (arith, after, read, own, pending))
  ]

  pub refresh_status-Extends : Extends s (refresh_status registry now call id s).1
  refresh_status-Extends = elim (refresh_status-Refreshed registry now call id s) [
    | idle ramp found out ↦ ([], rw (out, append-nil))
    | threw e same ↦ ([], rw (same, append-nil))
    | polled ramp result found pending known out ↦
        let after = apply_status_lem now id ramp.status result "poller" s found in
        elim (Bool-cases (same_status result.status ramp.status)) [
          | inl same ↦ ([], rw (out, after, same, append-nil))
          | inr changed ↦ (
            next_event id (some result.status) "ramp.status_changed" "poller"
                  (Payload.changed ramp.status result.status result.raw_status) s
                ∷ [],
            rw (out, after, changed),
          )
        ]
  ]
