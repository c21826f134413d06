-- ===== src/Ramps/Refresh/Apply.antt =====
-- What applying a provider's status changes, and how a refresh ends.
use pay_era.Prelude.{
  ℕ, ◌<◌, ◌≡◌, ◌≢◌, ◌⊎◌, inl, inr, refl, true, false, some, [], ◌∷◌, ◌++◌, String, Result, ok,
  arith, ◌==◌, is_ok, is_some, Bool-cases, Option-cases, Result-cases, str_eq, if◌then◌else◌,
}
use pay_era.Prelude.Table.{find_first-key, find_first-update_many, All-find_first}
use pay_era.Ramps.Status.{RampStatus, is_terminal, same_status, same_status_iff}
use pay_era.Ramps.Provider.{StatusResult, Registry, get}
use pay_era.Ramps.Store.{Ramp, RampEvent, Payload, Store, next_event, find_ramp, set_ramp}
use pay_era.Ramps.Store.Invariant.{
  IsValid, IsConsistent, key, update_ramp-IsValid, append_event-IsValid,
}
use pay_era.Ramps.Refresh.{set_result, apply_status, poll, refresh_status}

pub set_result-key :
    (now : ℕ) (previous : RampStatus) (result : StatusResult) (r : Ramp)
    → (set_result now previous result r).id ≡ r.id
set_result-key now previous result r = ground arith

-- A result keeps a ramp consistent that is not terminal and has a transaction id.
set_result-IsConsistent :
    (now : ℕ) (result : StatusResult) (r : Ramp)
    → IsConsistent r
    → is_terminal r.status ≡ false
    → is_some r.provider_tx_id ≡ true
    → IsConsistent (set_result now r.status result r)
set_result-IsConsistent now result r c open_ramp known =
    let same = same_status_iff result.status r.status in
    let done = same_status_iff result.status RampStatus.completed in
    let broken = same_status_iff result.status RampStatus.error in
    record {
      completed = ground (arith, same, done, c.completed);
      not_completed = ground (arith, same, done, c.not_completed);
      failed = ground (arith, same, broken, c.failed);
      not_failed = ground (arith, same, broken, c.not_failed);
      pollable = ground (arith, known);
    }

-- How a refresh ends: it leaves a terminal or unstarted ramp alone, it throws and writes nothing,
-- or it applies what the provider reports to a ramp that is not terminal.
pub data Refreshed (now id : ℕ) (s : Store) (out : Result RampStatus × Store) : Type 0 where
  idle :
      (ramp : Ramp)
      → find_ramp id s.ramps ≡ some ramp
      → out ≡ (ok ramp.status, s)
      → Refreshed now id s out
  threw : is_ok out.0 ≡ false → out.1 ≡ s → Refreshed now id s out
  polled :
      (ramp : Ramp) (result : StatusResult)
      → find_ramp id s.ramps ≡ some ramp
      → is_terminal ramp.status ≡ false
      → is_some ramp.provider_tx_id ≡ true
      → out ≡ apply_status now id ramp.status result "poller" s
      → Refreshed now id s out

poll-Refreshed :
    (registry : Registry) (now call id : ℕ) (s : Store) (ramp : Ramp) (tx_id : String)
    → find_ramp id s.ramps ≡ some ramp
    → is_terminal ramp.status ≡ false
    → ramp.provider_tx_id ≡ some tx_id
    → Refreshed now id s (poll registry now call ramp tx_id s)
poll-Refreshed registry now call id s ramp tx_id found pending known =
    elim (Result-cases (get ramp.provider registry)) [
      | inr (e, failed) ↦ threw (ground arith) (ground arith)
      | inl (provider, got) ↦
          elim (Result-cases (provider.authenticate call ramp.user_stellar_address)) [
            | inr (e, failed) ↦ threw (ground arith) (ground arith)
            | inl (token, auth) ↦ elim (Result-cases (provider.get_status call token tx_id)) [
              | inr (e, failed) ↦ threw (ground arith) (ground arith)
              | inl (result, said) ↦
                  polled ramp result found pending (ground arith)
                    (ground (arith, find_first-key key id s.ramps ramp found))
            ]
          ]
    ]

pub refresh_status-Refreshed :
    (registry : Registry) (now call id : ℕ) (s : Store)
    → Refreshed now id s (refresh_status registry now call id s)
unfolding refresh_status
refresh_status-Refreshed registry now call id s = elim (Option-cases (find_ramp id s.ramps)) [
  | inl missing ↦ threw (ground arith) (ground arith)
  | inr (ramp, found) ↦ elim (Bool-cases (is_terminal ramp.status)) [
    | inl done ↦ idle ramp found (ground arith)
    | inr pending ↦ elim (Option-cases ramp.provider_tx_id) [
      | inl unknown ↦ idle ramp found (ground arith)
      | inr (tx_id, known) ↦ elim (Bool-cases (str_eq tx_id "")) [
        | inl blank ↦ idle ramp found (ground arith)
        | inr real ↦
            let moved : refresh_status registry now call id s
                ≡ poll registry now call ramp tx_id s =
              ground arith in
            rw moved (poll-Refreshed registry now call id s ramp tx_id found pending known)
      ]
    ]
  ]
]

abbrev pub written : ℕ → ℕ → RampStatus → StatusResult → Store → Store
written now id previous result s = record s {
  ramps = set_ramp id (set_result now previous result) s.ramps;
}

-- What `applyStatus` leaves, for a ramp that is there.
pub apply_status_lem :
    (now id : ℕ) (previous : RampStatus) (result : StatusResult) (source : String) (s : Store)
    {r : Ramp}
    → find_ramp id s.ramps ≡ some r
    → apply_status now id previous result source s ≡ (
      ok result.status,
      (if same_status result.status previous
          then written now id previous result s
          else record (written now id previous result s) {
            events =
                s.events
                ++ next_event id
                    (some result.status)
                    "ramp.status_changed"
                    source
                    (Payload.changed previous result.status result.raw_status)
                    s
                  ∷ [];
          }),
    )
unfolding apply_status
apply_status_lem now id previous result source s found = ground arith

-- The writes of one poll keep the invariant.
pub apply_status-IsValid :
    (now id : ℕ) (s : Store) (ramp : Ramp) (result : StatusResult)
    → IsValid s
    → find_ramp id s.ramps ≡ some ramp
    → is_terminal ramp.status ≡ false
    → is_some ramp.provider_tx_id ≡ true
    → IsValid (apply_status now id ramp.status result "poller" s).1
apply_status-IsValid now id s ramp result v found pending known =
    let after = apply_status_lem now id ramp.status result "poller" s found in
    let consistent =
      set_result-IsConsistent now result ramp
        (All-find_first key IsConsistent (λ x. x.id == id) s.ramps v.rows found) pending known in
    let kept =
      update_ramp-IsValid id (set_result now ramp.status result) s v
        (set_result-key now ramp.status result) found consistent in
    let own = find_first-key key id s.ramps ramp found in
    let below =
      All-find_first key (λ x. x.id < s.next_id) (λ x. x.id == id) s.ramps v.ids.below found in
    elim (Bool-cases (same_status result.status ramp.status)) [
      | inl same ↦ rw (after, same) kept
      | inr changed ↦
          rw (after, changed)
            (append_event-IsValid id (some result.status) "ramp.status_changed" "poller"
              (Payload.changed ramp.status result.status result.raw_status)
              (written now id ramp.status result s) kept (omega (arith, below, own)))
    ]

-- What one call of a refresh reports and logs, from the row before to the row after.
pub record Logged (id : ℕ) (s s' : Store) (status : RampStatus) : Type 0 where
  pub before : Ramp
  pub after : Ramp
  pub found : find_ramp id s.ramps ≡ some before
  pub kept : find_ramp id s'.ramps ≡ some after
  pub current : after.status ≡ status
  pub logged :
      ((before.status ≡ status) × (s'.events ≡ s.events))
      ⊎ ((before.status ≢ status)
          × ((e : RampEvent) × (s'.events ≡ s.events ++ e ∷ [])
              × (e.status ≡ some status)
              × (e.ramp_transaction_id ≡ id)))

pub apply_status-Logged :
    (now id : ℕ) (s : Store) (ramp : Ramp) (result : StatusResult)
    → find_ramp id s.ramps ≡ some ramp
    → Logged id s (apply_status now id ramp.status result "poller" s).1 result.status
apply_status-Logged now id s ramp result found =
    let after = apply_status_lem now id ramp.status result "poller" s found in
    let same = same_status_iff result.status ramp.status in
    let read =
      find_first-update_many key id id (set_result now ramp.status result) s.ramps
        (set_result-key now ramp.status result) in
    record {
      before = ramp;
      after = set_result now ramp.status result ramp;
      found = found;
      kept = ground (arith, after, read, found);
      current = ground (arith, same);
      logged = elim (Bool-cases (same_status result.status ramp.status)) [
        | inl unchanged ↦ inl (ground (arith, same), ground (arith, after, unchanged))
        | inr changed ↦ inr (
          ground (arith, same, changed),
          (
            next_event id (some result.status) "ramp.status_changed" "poller"
                (Payload.changed ramp.status result.status result.raw_status) s,
            ground (arith, after, changed),
            refl,
            refl,
          ),
        )
      ];
    }
