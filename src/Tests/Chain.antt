-- ===== src/Tests/Chain.antt =====
-- The contracts and the ramp provider at concrete inputs.
use Prim.Native.String
use pay_era.Prelude.{
  ℕ, zero, suc, ◌<◌, ◌≡◌, ◌↔◌, inl, inr, refl, true, Option, none, some, List, [], ◌∷◌, ◌++◌, ok,
  err, failure, arith, All, length, ◌==◌, if◌then◌else◌,
}
use pay_era.Chain.Bytes.{replicate, uuid_to_bytes32, without_dashes}
use pay_era.Chain.Bytes.Laws.{IsDigit, uuid_to_bytes32_iff}
use pay_era.Chain.Soroban.{
  Call, Rpc, Labels, labels_of, success, not_found, sim_success, submit, invoke,
}
use pay_era.Chain.Soroban.Laws.{IsFound, invoke_iff}
use pay_era.Ramps.Status.{RampStatus, map_status, map_final}
use pay_era.Ramps.Provider.{StatusResult}
use pay_era.Ramps.MoneyGram.{
  Anchor, answered, money_gram, authenticate, get_toml, parse_toml, sign_challenge, check_token,
  get_status,
}
use pay_era.Ramps.MoneyGram.Laws.{
  IsAuthenticated, authenticate-IsAuthenticated, get_status-IsReport, IsReport,
}

-- The digits of two UUIDs.
abbrev ones : List ℕ
ones = replicate 31 48 ++ 49 ∷ []

abbrev twos : List ℕ
twos = replicate 31 48 ++ 98 ∷ []

zeros_then : (n c : ℕ) → IsDigit c → All IsDigit (replicate n 48 ++ c ∷ [])
zeros_then zero c h = (h, tt)
zeros_then (suc n) c h = (inl (omega arith, omega arith), zeros_then n c h)

uuid_to_bytes32_iff_example :
    (length (uuid_to_bytes32 ones) ≡ 32)
    × ((uuid_to_bytes32 ones ≡ uuid_to_bytes32 twos) ↔ (without_dashes ones ≡ without_dashes twos))
uuid_to_bytes32_iff_example =
    uuid_to_bytes32_iff ones twos refl refl (zeros_then 31 49 (inl (omega arith, omega arith)))
      (zeros_then 31 98 (inr (omega arith, omega arith)))

-- The third poll finds every transaction.
abbrev rpc : Rpc ℕ
rpc = record {
  get_account = λ attempt. ok 1;
  is_address = λ a. true;
  simulate = λ attempt account call. ok (sim_success none);
  send = λ attempt account call. ok (record { hash = "H"; error = none });
  get_transaction = λ attempt i hash. if i == 2 then ok (success (some 5)) else ok not_found;
  as_amount = λ v. ok v;
  is_true = λ v. v == 1;
}

abbrev mark : Call
mark = record { contract = "P"; method = "mark_settled"; arguments = [] }

abbrev labels : Labels
labels = labels_of "PaymentEngine mark_settled"

invoke_iff_example :
    ((v : Option ℕ)
      → (invoke rpc labels 0 mark ≡ ok ("H", v)) ↔ (
          (submit rpc labels 0 mark ≡ ok "H")
          × ((k : ℕ) × ((k < 20) × IsFound rpc 0 "H" 0 k (success v)))))
    × (submit rpc labels 0 mark ≡ ok "H"
        → ((k : ℕ) → k < 20 → rpc.get_transaction 0 k "H" ≡ ok not_found)
        → invoke rpc labels 0 mark ≡ err (failure (String.◌++◌ labels.timed_out "H")))
invoke_iff_example = invoke_iff rpc labels 0 mark "H"

abbrev anchor : Anchor
anchor = record {
  home_domain = "anchor";
  app_home_domain = "app";
  passphrase = "Test";
  toml = λ operation call. answered "toml";
  transfer_server = λ t. some "T";
  web_auth = λ t. some "W";
  challenge = λ call url address home.
      answered (record { transaction = "C"; network_passphrase = some "Test" });
  sign = λ passphrase transaction. ok "X";
  token = λ call url xdr. answered "jwt";
  interactive = λ call kind url token form. answered (record { url = "u"; id = "i" });
  transaction = λ call url token id. answered (record {
    status = "completed";
    amount_in = none;
    amount_out = none;
    amount_fee = none;
    withdraw_memo = none;
    withdraw_memo_type = none;
    withdraw_anchor_account = none;
    stellar_transaction_id = none;
    external_transaction_id = none;
  });
}

signed_in : (money_gram anchor).authenticate 0 "GA" ≡ ok "jwt"
unfolding money_gram authenticate get_toml parse_toml sign_challenge check_token
signed_in = refl

authenticate-IsAuthenticated_example : IsAuthenticated anchor 0 "GA" "jwt"
authenticate-IsAuthenticated_example = authenticate-IsAuthenticated anchor 0 "GA" "jwt" signed_in

abbrev reported : StatusResult
reported = record {
  status = RampStatus.completed;
  raw_status = "completed";
  amount_in = none;
  amount_out = none;
  amount_fee = none;
  reference_number = none;
  stellar_memo = none;
  stellar_memo_type = none;
  anchor_account = none;
  stellar_tx_hash = none;
}

status_read : (money_gram anchor).get_status 0 "jwt" "i" ≡ ok reported
unfolding money_gram get_status get_toml parse_toml map_status map_final
status_read = refl

get_status-IsReport_example : IsReport anchor 0 "jwt" "i" reported
get_status-IsReport_example = get_status-IsReport anchor 0 "jwt" "i" reported status_read
