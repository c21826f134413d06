-- ===== src/Ramps/Status/Laws.antt =====
-- Which statuses of MoneyGram are translated to which statuses of a ramp.
use pay_era.Prelude.{◌≡◌, ◌≢◌, ◌↔◌, refl, Bool, true, false, String, eq_iff, arith, if◌then◌else◌}
use pay_era.Ramps.Status.{RampStatus, map_status, map_final, is_pending}

-- A branch with another result was not taken.
skip :
    {z : RampStatus} (x : RampStatus) (b : Bool) (y : RampStatus)
    → is_pending x ≡ true
    → is_pending z ≡ false
    → (if b then x else y) ≡ z
    → (b ≡ false) × (y ≡ z)
skip x true y waits final e = absurd (ground (arith, waits, final, e))
skip x false y waits final e = (refl, e)

-- The branches of the statuses that wait, and what follows them.
past_pending :
    (raw : String) {z : RampStatus} → is_pending z ≡ false → map_status raw ≡ z → map_final raw ≡ z
unfolding map_status
past_pending raw p e =
    (skip RampStatus.pending_external _ _ refl p
      (skip RampStatus.pending_stellar _ _ refl p
        (skip RampStatus.pending_anchor _ _ refl p
          (skip RampStatus.pending_user_transfer _ _ refl p e).1).1).1).1

-- A ramp is reported COMPLETED exactly for the status "completed" and REFUNDED exactly for
-- "refunded"; no status of the provider takes a ramp back to INITIATED.
pub map_status_iff :
    (raw : String)
    → ((map_status raw ≡ RampStatus.completed) ↔ (raw ≡ "completed"))
      × ((map_status raw ≡ RampStatus.refunded) ↔ (raw ≡ "refunded"))
      × (map_status raw ≢ RampStatus.initiated)
unfolding map_status map_final
map_status_iff raw = (
  (
    λ h. let final = past_pending raw refl h in ground (arith, final, eq_iff raw "completed"),
    λ e. rw e refl,
  ),
  (
    λ h. let final = past_pending raw refl h in ground (arith, final, eq_iff raw "refunded"),
    λ e. rw e refl,
  ),
  λ h. let final = past_pending raw refl h in ground (arith, final),
)
