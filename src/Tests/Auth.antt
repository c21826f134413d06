-- ===== src/Tests/Auth.antt =====
-- Logins and sessions at concrete inputs.
use pay_era.Prelude.{
  ◌↔◌, ℕ, ◌≡◌, ◌≢◌, ◌⊎◌, inl, inr, refl, true, false, none, some, List, [], ◌∷◌, ◌++◌, String, ok,
  err, unauthorized, no_record, arith, is_ok, ltb, str_eq, eq_iff, ◌==◌, if◌then◌else◌, All,
  Bool-cases,
}
use pay_era.Prelude.Table.{find_first}
use pay_era.Accounts.Store.{UserRole, UserStatus, KycStatus, WalletStatus, User, Wallet, Store}
use pay_era.Accounts.Users.{delete_account}
use pay_era.Accounts.Users.Laws.{IsErased, delete_account-IsErased}
use pay_era.Tests.Cache.{cache}
use pay_era.Auth.Signature.{
  Crypto, check_signature, signature_buffer, normalize_signature, is_valid_signature, try_messages,
}
use pay_era.Auth.Signature.Laws.{payloads, IsSigned, check_signature-IsSigned}
use pay_era.Auth.Tokens.{Tokens, Libraries, Ambient, refresh_token, rotate, revoke, generate_tokens}
use pay_era.Auth.Tokens.Sessions.{Hashing, Sessions, Represents, IsExchange, exchange, new_tokens}
use pay_era.Auth.Tokens.Laws.{refresh_token-Exchanges, refresh_token-again}
use pay_era.Auth.Nonces.{AuthStore, WalletChallenge, issue_wallet_challenge}
use pay_era.Auth.Nonces.Laws.{IsSpent}
use pay_era.Auth.Login.{WalletLogin, Texts, wallet_login, sign_in, check_login, account_of}
use pay_era.Auth.Login.Reopening.{sign_in-delete_account}
use pay_era.Auth.Session.{Request, challenge, refresh, serve, run}
use pay_era.Auth.Session.Laws.{wallet_login-once}
use pay_era.Auth.Session.Answers.{IsApart, IsReady, wallet_login-answers}

-- Every key signs everything.
abbrev crypto : Crypto
crypto = record {
  Bytes = List ℕ;
  PublicKey = List ℕ;
  from_public_key = λ a. ok a;
  verify = λ key payload sig. ok true;
  utf8 = λ t. t;
  from_hex = λ t. t;
  from_base64 = λ t. t;
  concat = λ a b. a ++ b;
  sha256 = λ a. 0 ∷ a;
}

abbrev text : Texts
text = record { trim = λ t. t; to_lower_case = λ t. t; first_eight = λ t. t; units = λ t. 71 ∷ [] }

abbrev lib : Libraries
lib = record {
  sign_access = λ id role now. "access";
  sign_refresh = λ id role now. if ltb now 100 then "first" else "second";
  decode = λ t. ok (some 1);
  verify = λ t now. true;
  hash = λ t salt. t;
  compare = λ t h. str_eq t h;
}

abbrev hashing : Hashing lib
hashing = record { kept = λ t. t; compare_hash = λ t u salt. refl }

abbrev ada : User
ada = record {
  id = 1;
  email = none;
  email_normalized = none;
  phone_e164 = none;
  display_name = some "Ada";
  role = UserRole.consumer;
  status = UserStatus.suspended;
  referral_code = some "A";
  kyc_status = KycStatus.unstarted;
  kyc_reference = none;
  kyc_verified_at = none;
  hashed_refresh_token = some "first";
  last_login_at = none;
  deleted_at = none;
}

abbrev ada_wallet : Wallet
ada_wallet = record {
  id = 2;
  user_id = 1;
  address = "GA";
  address_normalized = "GA";
  network = "STELLAR";
  provider = "FREIGHTER";
  label = none;
  public_key = none;
  metadata = "{}";
  is_primary = true;
  status = WalletStatus.revoked;
  verified_at = none;
  last_used_at = none;
}

abbrev tables : Store
tables = record { users = ada ∷ []; wallets = ada_wallet ∷ []; logs = []; outbox = []; next_id = 3 }

abbrev state : AuthStore cache
state = record { accounts = tables; nonces = λ k. none }

abbrev login : String → WalletLogin
login address = record {
  provider = "FREIGHTER";
  network = "STELLAR";
  address = address;
  signature = "abcdefgh";
  nonce = "N1";
  display_name = none;
  role = some UserRole.admin;
}

abbrev asked : WalletChallenge
asked = record { provider = "FREIGHTER"; network = "STELLAR"; address = "GA" }

abbrev at_200 : Ambient
at_200 = record { now = 200; salt = "s" }

abbrev sent : List ℕ
sent = 45 ∷ 95 ∷ []

check_sent : check_signature crypto (71 ∷ []) sent (10 ∷ []) ≡ ok tt
unfolding check_signature is_valid_signature try_messages
check_sent = refl

check_signature-IsSigned_example :
    (key : List ℕ) × (crypto.from_public_key (71 ∷ []) ≡ ok key)
    × IsSigned crypto key
        (signature_buffer crypto (normalize_signature sent))
        (payloads crypto (10 ∷ []))
check_signature-IsSigned_example =
    check_signature-IsSigned crypto (71 ∷ []) sent (10 ∷ []) check_sent

abbrev newcomer : User
newcomer = account_of lib text (login "GB") "B" 3

check_known : check_login lib text crypto (login "GA") ≡ ok tt
unfolding check_login check_signature is_valid_signature try_messages
check_known = refl

abbrev between : List Request
between = challenge 150 "N2" asked ∷ refresh at_200 "first" ∷ []

apart : All (IsApart "N1") between
apart = (λ e. let wrong : false ≡ true = (eq_iff "N1" "N2").1 e in ground arith, (tt, tt))

ready :
    IsReady lib text cache crypto "B"
      (login "GA")
      (run lib text cache crypto between
        (issue_wallet_challenge cache 100 "N1" asked state).1).accounts
unfolding run serve issue_wallet_challenge refresh_token rotate revoke generate_tokens
ready = inl (ada_wallet, (record ada { hashed_refresh_token = some "second" }, (refl, refl)))

wallet_login-answers_example :
    let s' =
      run lib text cache crypto between (issue_wallet_challenge cache 100 "N1" asked state).1 in
    (is_ok (wallet_login lib text cache crypto at_200 "B" (login "GA") s').0 ≡ true)
    × IsSpent cache "N1" (wallet_login lib text cache crypto at_200 "B" (login "GA") s').1
wallet_login-answers_example =
    wallet_login-answers lib text cache crypto 100 "N1" asked state between apart at_200 "B"
      (login "GA") refl (omega arith) check_known ready

used : AuthStore cache
used = (issue_wallet_challenge cache 100 "N1" asked state).1

done : is_ok (wallet_login lib text cache crypto at_200 "B" (login "GA") used).0 ≡ true
unfolding used issue_wallet_challenge run
done =
    (wallet_login-answers lib text cache crypto 100 "N1" asked state [] tt at_200 "B" (login "GA")
      refl (omega arith) check_known (inl (ada_wallet, (ada, (refl, refl))))).0

wallet_login-once_example :
    let s' =
      run lib text cache crypto
        (refresh at_200 "first" ∷ [])
        (wallet_login lib text cache crypto at_200 "B" (login "GA") used).1 in
    wallet_login lib text cache crypto at_200 "C" (login "GB") s'
    ≡ (err (unauthorized "Invalid or expired nonce"), s')
wallet_login-once_example =
    wallet_login-once lib text cache crypto at_200 "B" (login "GA") used done
      (refresh at_200 "first" ∷ []) (tt, tt) at_200 "C" (login "GB") refl

abbrev sessions : Sessions
sessions id = if 1 == id then some "first" else none

tables-Represents : Represents lib hashing tables sessions
tables-Represents id = elim (Bool-cases (1 == id)) [
  | inl own ↦ rw own ("first", ("s", (refl, refl)))
  | inr other ↦ rw other refl
]

refresh_token-Exchanges_example :
    IsExchange lib hashing (refresh_token lib at_200 "first" tables) (
      exchange lib hashing 1 "first" true (new_tokens lib hashing 1 UserRole.consumer 200) sessions)
refresh_token-Exchanges_example =
    refresh_token-Exchanges lib hashing at_200 "first" 1 tables sessions tables-Represents refl

-- A hash that keeps nothing of a text apart from its presence.
abbrev short : Libraries
short = record lib { hash = λ t salt. "k"; compare = λ t h. str_eq "k" h }

abbrev short_hashing : Hashing short
short_hashing = record { kept = λ t. "k"; compare_hash = λ t u salt. refl }

abbrev hashed : Store
hashed = record tables { users = record ada { hashed_refresh_token = some "k" } ∷ [] }

hashed-Represents : Represents short short_hashing hashed (λ id. if 1 == id then some "k" else none)
hashed-Represents id = elim (Bool-cases (1 == id)) [
  | inl own ↦ rw own ("second", ("s", (refl, refl)))
  | inr other ↦ rw other refl
]

abbrev exchanged : Store
exchanged = (refresh_token short at_200 "first" hashed).1

abbrev new_ones : Tokens
new_ones = new_tokens short short_hashing 1 UserRole.consumer 200

first_exchange : refresh_token short at_200 "first" hashed ≡ (ok new_ones, exchanged)
unfolding refresh_token rotate generate_tokens
first_exchange = refl

refresh_token-again_example : (is_ok (refresh_token short at_200 "first" exchanged).0 ≡ true) ↔ (
    (short.verify "first" 200 ≡ true)
    × (short_hashing.kept "first" ≡ short_hashing.kept new_ones.refresh_token))
refresh_token-again_example =
    refresh_token-again short short_hashing at_200 at_200 "first" "first" 1 hashed
      (λ id. if 1 == id then some "k" else none) new_ones exchanged hashed-Represents refl refl
      first_exchange

sign_in-delete_account_example :
    let (r, s') = sign_in lib text at_200 "B" (login "GA") (delete_account 1 150 tables).1 in
    (is_ok r ≡ true)
    × ((x : User) × ((find_first (λ y. y.id == 1) s'.users ≡ some x)
          × ((x.status ≡ UserStatus.active) × (x.deleted_at ≡ some 150))))
sign_in-delete_account_example =
    sign_in-delete_account lib text at_200 "B" (login "GA") ada_wallet ada 150 tables refl refl

delete_account-IsErased_example :
    let (r, s') = delete_account 1 150 tables in
    ((find_first (λ x. x.id == 1) tables.users ≡ none) × (r ≡ err no_record) × (s' ≡ tables))
    ⊎ ((r ≡ ok tt)
        × All (λ (u : User). u.id ≡ 1 → IsErased 150 u) s'.users
        × All (λ (w : Wallet). w.user_id ≡ 1 → w.status ≡ WalletStatus.revoked) s'.wallets
        × ((m : ℕ)
            → m ≢ 1
            → find_first (λ u. u.id == m) s'.users ≡ find_first (λ u. u.id == m) tables.users)
        × ((m : ℕ) (w : Wallet)
            → find_first (λ w. w.id == m) tables.wallets ≡ some w
            → w.user_id ≢ 1
            → find_first (λ w. w.id == m) s'.wallets ≡ some w))
delete_account-IsErased_example = delete_account-IsErased 1 150 tables
