-- ===== src/Tests/Accounts.antt =====
-- Identity checks at concrete inputs.
use pay_era.Prelude.{
  ◌&&◌, false, ℕ, ◌≡◌, ◌⊎◌, refl, true, false, none, some, [], ◌∷◌, ◌++◌, String, ok, ◌==◌, Bool,
  List, ◌%◌, ◌≤◌, arith, failure, err,
}
use pay_era.Prelude.Table.{update_many}
use pay_era.Accounts.Store.{
  UserRole, UserStatus, KycStatus, User, Store, Principal, Wallet, WalletStatus,
}
use pay_era.Accounts.Wallets.{CreateWallet, UpdateWallet, create, update, disconnect}
use pay_era.Accounts.Wallets.Laws.{IsValid, wallets_keep-IsValid}
use pay_era.Accounts.Aml.{Config, Answers, abs_int32, simple_hash}
use pay_era.Accounts.Aml.Laws.{polynomial, simple_hash-polynomial}
use pay_era.Accounts.Kyc.{
  truthy, Payload, Applicant, webhook_status, set_status, status_log, status_event, process_webhook,
  find_applicant, get_status, record_status,
}
use pay_era.Accounts.Kyc.Laws.{process_webhook_lem, process_webhook-verified}

abbrev user_of : ℕ → String → KycStatus → User
user_of id reference status = record {
  id = id;
  email = none;
  email_normalized = none;
  phone_e164 = none;
  display_name = some "A";
  role = UserRole.consumer;
  status = UserStatus.active;
  referral_code = none;
  kyc_status = status;
  kyc_reference = some reference;
  kyc_verified_at = none;
  hashed_refresh_token = none;
  last_login_at = none;
  deleted_at = none;
}

abbrev two_users : Store
two_users = record {
  users = user_of 1 "a" KycStatus.pending ∷ user_of 2 "b" KycStatus.pending ∷ [];
  wallets = [];
  logs = [];
  outbox = [];
  next_id = 3;
}

abbrev done : Payload
done = record { applicant_id = some "b"; status = some "completed" }

abbrev applicant : Applicant
applicant = record { applicant_id = "c"; form_url = "https://forms.kycaid.com/c" }

abbrev declined : String
declined = "declined"

process_webhook_lem_example :
    let (r, s') = process_webhook 5 done two_users in
    ((((truthy done.applicant_id && truthy done.status) ≡ false)
        ⊎ (find_applicant done.applicant_id two_users.users ≡ none))
      × ((r ≡ ok false) × (s' ≡ two_users)))
    ⊎ ((u : User) × (find_applicant done.applicant_id two_users.users ≡ some u)
        × (truthy done.applicant_id ≡ true)
        × (truthy done.status ≡ true)
        × (r ≡ ok true)
        × (s'.users
            ≡ update_many
                (λ x. x.id == u.id)
                (set_status 5 (webhook_status done.status))
                two_users.users)
        × (s'.logs ≡ two_users.logs ++ status_log u (webhook_status done.status) ∷ [])
        × (s'.outbox ≡ two_users.outbox ++ status_event u (webhook_status done.status) ∷ [])
        × (s'.wallets ≡ two_users.wallets))
process_webhook_lem_example = process_webhook_lem 5 done two_users

process_webhook-verified_example :
    (get_status 2 two_users ≡ ok KycStatus.verified)
    ⊎ ((done.status ≡ some "completed")
        × ((u : User) × (find_applicant done.applicant_id two_users.users ≡ some u) × (u.id ≡ 2)))
unfolding get_status process_webhook record_status webhook_status
process_webhook-verified_example = process_webhook-verified 5 done two_users 2 refl

abbrev caller : Principal
caller = record { id = 1; role = UserRole.consumer }

abbrev wallet_of : ℕ → Bool → Wallet
wallet_of id primary = record {
  id = id;
  user_id = 1;
  address = "GABC";
  address_normalized = "gabc";
  network = "STELLAR";
  provider = "FREIGHTER";
  label = none;
  public_key = none;
  metadata = "{}";
  is_primary = primary;
  status = WalletStatus.active;
  verified_at = none;
  last_used_at = none;
}

abbrev two_wallets : Store
two_wallets = record two_users { wallets = wallet_of 3 true ∷ wallet_of 4 false ∷ []; next_id = 5 }

two_wallets-IsValid : IsValid two_wallets
two_wallets-IsValid = record {
  ids = record {
    below = (omega arith, (omega arith, tt));
    distinct = ((omega arith, tt), (tt, tt));
  };
  one_primary = λ user. ground arith;
}

abbrev new_one : CreateWallet
new_one = record {
  provider = "FREIGHTER";
  network = "STELLAR";
  address = "GDEF";
  label = none;
  public_key = none;
  is_primary = some true;
  metadata = none;
}

abbrev promotion : UpdateWallet
promotion = record { label = none; is_primary = some true; status = none; metadata = none }

wallets_keep-IsValid_example :
    IsValid (create (λ t. t) (λ t. t) caller new_one 9 two_wallets).1
    × IsValid (update caller 4 promotion two_wallets).1
    × IsValid (disconnect caller 4 two_wallets).1
wallets_keep-IsValid_example =
    wallets_keep-IsValid (λ t. t) (λ t. t) caller new_one promotion 4 9 two_wallets
      two_wallets-IsValid

abbrev address : List ℕ
address = 71 ∷ 66 ∷ 65 ∷ []

abbrev config : Config
config = record { default_provider = "trm"; chainalysis_key = ""; trm_key = "key" }

abbrev answers : Answers
answers = record {
  chainalysis = err (failure "none");
  trm = ok (record { sanctions = 2; mixer = false; darknet = false; risk_score = some 85 });
}

simple_hash-polynomial_example :
    (simple_hash address ≡ abs_int32 (polynomial 0 address % 4294967296))
    × (simple_hash address ≤ 2147483648)
simple_hash-polynomial_example = simple_hash-polynomial address
