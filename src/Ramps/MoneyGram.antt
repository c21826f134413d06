-- ===== src/Ramps/MoneyGram.antt =====
-- apps/api/src/ramps/providers/moneygram.provider.ts: the provider MONEYGRAM, by SEP-10 and SEP-24.
-- What the anchor answers is an argument, which takes the number of the call; the search of its
-- stellar.toml, the Stellar SDK and the text of numbers are arguments too. The HTTP status and the
-- body that the exceptions carry are left out.
pub mod Laws
use pay_era.Prelude.{
  ℕ, Bool, true, false, not, ◌&&◌, Option, none, some, List, [], ◌∷◌, ◌++◌, String, Result, ok, err,
  Exception, failure, str_eq, or_else, if◌then◌else◌,
}
use Prim.Native.String
use pay_era.Ramps.Status.{map_status}
use pay_era.Ramps.Provider.{InitiateParams, InitiateResult, StatusResult, Provider}

-- What `fetch` ends with: an exception, a response that is not ok, or the body.
pub data Answer (A : Type 0) : Type 0 where
  threw : Exception → Answer A
  refused : Answer A
  answered : A → Answer A

pub record ChallengeData : Type 0 where
  pub transaction : String
  pub network_passphrase : Option String

pub record InteractiveData : Type 0 where
  pub url : String
  pub id : String

pub record TransactionData : Type 0 where
  pub status : String
  pub amount_in : Option String
  pub amount_out : Option String
  pub amount_fee : Option String
  pub withdraw_memo : Option String
  pub withdraw_memo_type : Option String
  pub withdraw_anchor_account : Option String
  pub stellar_transaction_id : Option String
  pub external_transaction_id : Option String

pub record Toml : Type 0 where
  pub transfer_server_url : String
  pub web_auth_endpoint : String

-- The form of an interactive request.
abbrev pub Form : Type 0
Form = List (String × String)

-- The anchor and the libraries. `transfer_server` and `web_auth` are the matches of the two regular
-- expressions in the text of stellar.toml, which each operation fetches anew; `sign` reads the challenge for a network, signs it with
-- the platform's key and gives it back as XDR, or throws.
pub record Anchor : Type 0 where
  pub home_domain : String
  pub app_home_domain : String
  pub passphrase : String
  pub toml : String → ℕ → Answer String
  pub transfer_server : String → Option String
  pub web_auth : String → Option String
  pub challenge : ℕ → String → String → String → Answer ChallengeData
  pub sign : String → String → Result String
  pub token : ℕ → String → String → Answer String
  pub interactive : ℕ → String → String → String → Form → Answer InteractiveData
  pub transaction : ℕ → String → String → String → Answer TransactionData

abbrev pub read_answer : {A : Type 0} → String → Answer A → Result A
read_answer text (threw e) = err e
read_answer text refused = err (failure text)
read_answer text (answered a) = ok a

abbrev pub truthy : Option String → Bool
truthy none = false
truthy (some t) = not (str_eq t "")

-- `a || b`
abbrev pub or_text : Option String → String → String
or_text none b = b
or_text (some a) b = if str_eq a "" then b else a

abbrev pub bind : {A B : Type 0} → Result A → (A → Result B) → Result B
bind (ok a) f = f a
bind (err e) f = err e

-- The result of `match(…)?.[1]`, where it is there and not empty.
abbrev pub endpoint : Option String → Option String
endpoint none = none
endpoint (some t) = if str_eq t "" then none else some t

module _ (anchor : Anchor) where
  -- The parse of `getToml`.
  unfoldable pub parse_toml : String → Result Toml
  parse_toml text =
      let missing : Result Toml =
        err
          (failure "MoneyGram stellar.toml missing TRANSFER_SERVER_SEP0024 or WEB_AUTH_ENDPOINT") in
      elim (endpoint (anchor.transfer_server text)) [
        | none ↦ missing
        | some server ↦ elim (endpoint (anchor.web_auth text)) [
          | none ↦ missing
          | some auth ↦ ok (record { transfer_server_url = server; web_auth_endpoint = auth })
        ]
      ]

  unfoldable pub get_toml : String → ℕ → Result Toml
  get_toml operation call =
      bind
        (read_answer
          (String.◌++◌ "Failed to fetch stellar.toml from https://"
            (String.◌++◌ anchor.home_domain "/.well-known/stellar.toml"))
          (anchor.toml operation call))
        parse_toml

  -- The guard of `authenticate`.
  abbrev pub is_other_network : ChallengeData → Bool
  is_other_network c = elim c.network_passphrase [
    | none ↦ false
    | some p ↦ not (str_eq p "") && not (str_eq p anchor.passphrase)
  ]

  unfoldable pub sign_challenge : ChallengeData → Result String
  sign_challenge c =
      if is_other_network c
      then err (failure "SEP-10 network mismatch")
      else anchor.sign anchor.passphrase c.transaction

  unfoldable pub check_token : String → Result String
  check_token token =
      if str_eq token "" then err (failure "SEP-10 response missing token") else ok token

  unfoldable pub authenticate : ℕ → String → Result String
  authenticate call address = bind (get_toml "authenticate" call) (λ toml.
      bind
        (read_answer "SEP-10 challenge request failed"
          (anchor.challenge call toml.web_auth_endpoint address anchor.app_home_domain))
        (λ challenge. bind (sign_challenge challenge) (λ xdr.
          bind
            (read_answer "SEP-10 authentication failed"
              (anchor.token call toml.web_auth_endpoint xdr))
            check_token)))

  abbrev pub amount_field : Option String → Form
  amount_field none = []
  amount_field (some a) = if str_eq a "" then [] else ("amount", a) ∷ []

  abbrev pub form : InitiateParams → Form
  form params =
      ("asset_code", or_text params.asset_code "USDC")
        ∷ ("account", params.user_stellar_address)
        ∷ ("lang", "en")
        ∷ []
      ++ amount_field params.amount

  unfoldable pub initiate_interactive : String → ℕ → String → InitiateParams → Result InitiateResult
  initiate_interactive kind call session_token params = bind (get_toml kind call) (λ toml.
      bind
        (read_answer (String.◌++◌ "SEP-24 " (String.◌++◌ kind " initiation failed"))
          (anchor.interactive call kind toml.transfer_server_url session_token (form params)))
        (λ started. ok (record { provider_tx_id = started.id; interactive_url = started.url })))

  unfoldable pub initiate_on_ramp : ℕ → String → InitiateParams → Result InitiateResult
  initiate_on_ramp = initiate_interactive "deposit"

  unfoldable pub initiate_off_ramp : ℕ → String → InitiateParams → Result InitiateResult
  initiate_off_ramp call session_token params =
      if not (truthy params.amount)
      then err (failure "Off-ramp (withdraw) requires an amount")
      else initiate_interactive "withdraw" call session_token params

  abbrev pub status_result : TransactionData → StatusResult
  status_result t = record {
    status = map_status t.status;
    raw_status = t.status;
    amount_in = t.amount_in;
    amount_out = t.amount_out;
    amount_fee = t.amount_fee;
    reference_number = t.external_transaction_id;
    stellar_memo = t.withdraw_memo;
    stellar_memo_type = t.withdraw_memo_type;
    anchor_account = t.withdraw_anchor_account;
    stellar_tx_hash = t.stellar_transaction_id;
  }

  unfoldable pub get_status : ℕ → String → String → Result StatusResult
  get_status call session_token provider_tx_id = bind (get_toml "status" call) (λ toml.
      bind
        (read_answer "SEP-24 status check failed"
          (anchor.transaction call toml.transfer_server_url session_token provider_tx_id))
        (λ t. ok (status_result t)))

  -- The class, as a provider of the registry.
  unfoldable pub money_gram : Provider
  money_gram = record {
    id = "MONEYGRAM";
    supports_on_ramp = true;
    supports_off_ramp = true;
    supports_status_callback = false;
    authenticate = authenticate;
    initiate_on_ramp = initiate_on_ramp;
    initiate_off_ramp = initiate_off_ramp;
    get_status = get_status;
  }
