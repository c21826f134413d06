-- ===== src/Ramps/History.antt =====
-- Any sequence of the requests that write ramps: initiations, refreshes of one ramp, rounds of the
-- poller, each with whatever the clock, the providers and the KYC service give it.
use pay_era.Prelude.{
  ℕ, ◌+◌, ◌≡◌, true, some, List, [], ◌∷◌, ◌++◌, Result, append_assoc, append-nil, inl, inr, sym,
  ◌==◌,
}
use pay_era.Prelude.Table.{find_first-append}
use pay_era.Accounts.Store.{KycStatus}
use pay_era.Ramps.Status.{RampType, is_terminal}
use pay_era.Ramps.Provider.{Registry, Provider}
use pay_era.Ramps.Store.{Ramp, Store, find_ramp}
use pay_era.Ramps.Store.Invariant.{IsValid, Extends}
use pay_era.Ramps.Initiation.{InitiateArgs, Ambient, initiate, initiate_on_ramp, initiate_off_ramp}
use pay_era.Ramps.Refresh.{refresh_status}
use pay_era.Ramps.Initiation.Gate.{initiate_on_ramp_cases, initiate_off_ramp_cases}
use pay_era.Ramps.Initiation.Laws.{
  initiate_lem, initiate-IsValid, answer, first_event, second_event,
}
use pay_era.Ramps.Refresh.Laws.{
  refresh_status-IsValid, refresh_status-terminal, refresh_status-Extends,
}
use pay_era.Ramps.Reconciliation.{reconcile_each, reconcile_pending, batch}

pub data Request : Type 0 where
  on_ramp off_ramp : Registry → Result KycStatus → InitiateArgs → Ambient → Request
  refresh : Registry → (now call id : ℕ) → Request
  reconcile : Registry → (now call : ℕ) → Request

-- The tables after one request.
unfoldable pub serve : Request → Store → Store
serve (on_ramp registry kyc args env) s = (initiate_on_ramp registry kyc args env s).1
serve (off_ramp registry kyc args env) s = (initiate_off_ramp registry kyc args env s).1
serve (refresh registry now call id) s = (refresh_status registry now call id s).1
serve (reconcile registry now call) s = reconcile_pending registry now call s

unfoldable pub run : List Request → Store → Store
run [] s = s
run (q ∷ qs) s = run qs (serve q s)

-- What every request keeps: the invariant, all that was logged, and the row of every ramp whose
-- status is terminal.
pub record Keeps (s s' : Store) : Type 0 where
  pub valid : IsValid s'
  pub extends : Extends s s'
  pub terminal :
      (n : ℕ) (r : Ramp)
      → find_ramp n s.ramps ≡ some r
      → is_terminal r.status ≡ true
      → find_ramp n s'.ramps ≡ some r

Keeps-refl : (s : Store) → IsValid s → Keeps s s
Keeps-refl s v = record {
  valid = v;
  extends = ([], sym (append-nil s.events));
  terminal = λ n r found done. found;
}

Keeps-trans : {s t u : Store} → Keeps s t → Keeps t u → Keeps s u
Keeps-trans {s} h k = record {
  valid = k.valid;
  extends = (
    h.extends.0 ++ k.extends.0,
    rw (k.extends.1, h.extends.1) (append_assoc s.events h.extends.0 k.extends.0),
  );
  terminal = λ n r found done. k.terminal n r (h.terminal n r found done) done;
}

initiate-Keeps :
    (type : RampType) (p : Provider) (args : InitiateArgs) (env : Ambient) (s : Store)
    → IsValid s
    → Keeps s (initiate type p args env s).1
initiate-Keeps type p args env s v =
    let (_, rows, events, _) = initiate_lem type p args env s v in
    record {
      valid = initiate-IsValid type p args env s v;
      extends = (
        first_event type p args env s ∷ second_event type p args env s (answer type p args) ∷ [],
        rw events (append_assoc s.events _ _),
      );
      terminal = λ n r found done. rw rows (find_first-append (λ x. x.id == n) s.ramps _ found);
    }

refresh-Keeps :
    (registry : Registry) (now call id : ℕ) (s : Store)
    → IsValid s
    → Keeps s (refresh_status registry now call id s).1
refresh-Keeps registry now call id s v = record {
  valid = refresh_status-IsValid registry now call id s v;
  extends = refresh_status-Extends registry now call id s;
  terminal = refresh_status-terminal registry now call id s;
}

reconcile_each-Keeps :
    (registry : Registry) (now call : ℕ) (rs : List Ramp) (s : Store)
    → IsValid s
    → Keeps s (reconcile_each registry now call rs s)
unfolding reconcile_each
reconcile_each-Keeps registry now call [] s v = Keeps-refl s v
reconcile_each-Keeps registry now call (r ∷ rs) s v =
    let here = refresh-Keeps registry now call r.id s v in
    Keeps-trans here (
      reconcile_each-Keeps registry now (call + 1) rs (refresh_status registry now call r.id s).1
        here.valid)

serve-Keeps : (q : Request) (s : Store) → IsValid s → Keeps s (serve q s)
unfolding serve reconcile_pending initiate_on_ramp initiate_off_ramp
serve-Keeps (on_ramp registry kyc args env) s v =
    elim (initiate_on_ramp_cases registry kyc args env s) [
      | inl same ↦ rw same (Keeps-refl s v)
      | inr (p, out) ↦ rw out (initiate-Keeps RampType.onramp p args env s v)
    ]
serve-Keeps (off_ramp registry kyc args env) s v =
    elim (initiate_off_ramp_cases registry kyc args env s) [
      | inl same ↦ rw same (Keeps-refl s v)
      | inr (p, out) ↦ rw out (initiate-Keeps RampType.offramp p args env s v)
    ]
serve-Keeps (refresh registry now call id) s v = refresh-Keeps registry now call id s v
serve-Keeps (reconcile registry now call) s v =
    reconcile_each-Keeps registry now call (batch now s.ramps) s v

-- Whatever requests are served, in whatever order and with whatever answers from the providers, the
-- tables keep their invariant (so each ramp's events stay numbered 1, 2, 3, …), the audit trail
-- only grows, and a ramp whose status is terminal keeps its row.
pub run-Keeps : (qs : List Request) (s : Store) → IsValid s → Keeps s (run qs s)
unfolding run
run-Keeps [] s v = Keeps-refl s v
run-Keeps (q ∷ qs) s v =
    let here = serve-Keeps q s v in Keeps-trans here (run-Keeps qs (serve q s) here.valid)
