-- ===== src/Payments/Referrals/Laws.antt =====
-- Sequences of requests on referrals: apps/api/src/referrals/referrals.service.ts.
use pay_era.Prelude.{ℕ, Option, List, [], ◌∷◌, String}
use pay_era.Accounts.Store.{Principal}
use pay_era.Payments.Referrals.{Store, create_invite, accept, qualify, reward}
use pay_era.Payments.Referrals.Invariant.{IsValid}
use pay_era.Payments.Referrals.Requests.{
  create_invite-IsValid, accept-IsValid, qualify-IsValid, reward-IsValid,
}

-- The requests that write referrals.
pub data Request : Type 0 where
  invite : Principal → String → Option ℕ → Option String → Request
  acceptance : Principal → String → (now : ℕ) → Request
  qualification : Principal → (id first now : ℕ) → Request
  payment : Principal → (id now : ℕ) → Request

abbrev pub serve : Request → Store → Store
serve (invite caller code expires metadata) s = (create_invite caller code expires metadata s).1
serve (acceptance caller code now) s = (accept caller code now s).1
serve (qualification caller id first now) s = (qualify caller id first now s).1
serve (payment caller id now) s = (reward caller id now s).1

abbrev pub run : List Request → Store → Store
run [] s = s
run (q ∷ qs) s = run qs (serve q s)

-- Whatever requests are made by whomever and in whatever order, also when a code is accepted again
-- after it was rewarded: no referral has two rewards, every reward goes to the user who invited
-- with the amount that was promised, and nobody has accepted an invitation of their own.
pub run-IsValid : (qs : List Request) (s : Store) → IsValid s → IsValid (run qs s)
run-IsValid [] s v = v
run-IsValid (invite caller code expires metadata ∷ qs) s v =
    run-IsValid qs _ (create_invite-IsValid caller code expires metadata s v)
run-IsValid (acceptance caller code now ∷ qs) s v =
    run-IsValid qs _ (accept-IsValid caller code now s v)
run-IsValid (qualification caller id first now ∷ qs) s v =
    run-IsValid qs _ (qualify-IsValid caller id first now s v)
run-IsValid (payment caller id now ∷ qs) s v = run-IsValid qs _ (reward-IsValid caller id now s v)
