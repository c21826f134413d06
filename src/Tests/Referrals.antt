-- ===== src/Tests/Referrals.antt =====
-- Referrals at concrete inputs.
use pay_era.Prelude.{none, List, [], ◌∷◌}
use pay_era.Accounts.Store.{Principal, UserRole}
use pay_era.Payments.Referrals.{Store}
use pay_era.Payments.Referrals.Invariant.{IsValid}
use pay_era.Payments.Referrals.Laws.{Request, invite, acceptance, payment, run, run-IsValid}

abbrev host : Principal
host = record { id = 1; role = UserRole.consumer }

abbrev guest : Principal
guest = record { id = 2; role = UserRole.consumer }

abbrev no_referrals : Store
no_referrals = record { transactions = []; referrals = []; rewards = []; next_id = 1 }

no_referrals-IsValid : IsValid no_referrals
no_referrals-IsValid = record {
  ids = record { below = tt; distinct = tt };
  strangers = tt;
  once = tt;
  owed = tt;
}

abbrev requests : List Request
requests =
    invite host "A" none none
    ∷ acceptance host "A" 5
    ∷ acceptance guest "A" 6
    ∷ payment guest 1 7
    ∷ []

run-IsValid_example : IsValid (run requests no_referrals)
run-IsValid_example = run-IsValid requests no_referrals no_referrals-IsValid
