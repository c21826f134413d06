-- ===== src/Tests/Wiring.antt =====
-- The processor with its services at concrete inputs.
use pay_era.Prelude.{ℕ, ◌≡◌, refl, false, none, [], ◌∷◌, ok}
use pay_era.Payments.Store.{TransactionStatus}
use pay_era.Payments.Processor.Payment.{process_transaction}
use pay_era.Payments.Processor.Payment.Moves.{Moves}
use pay_era.Chain.Soroban.{Rpc, Addresses, sim_success, not_found}
use pay_era.Chain.Stellar.{Policy}
use pay_era.Chain.Wiring.{Outside, on_chain}
use pay_era.Chain.Wiring.Laws.{process_transaction-payer}
use pay_era.Tests.Payments.{whole, payment, paying, paying-IsValid}
use pay_era.Tests.Settlement.{decentro, not_configured, clock_at, start}

-- No text is an address.
abbrev rpc : Rpc ℕ
rpc = record {
  get_account = λ attempt. ok 1;
  is_address = λ a. false;
  simulate = λ attempt account call. ok (sim_success none);
  send = λ attempt account call. ok (record { hash = "H"; error = none });
  get_transaction = λ attempt i hash. ok not_found;
  as_amount = λ v. ok v;
  is_true = λ v. false;
}

abbrev addresses : Addresses
addresses = record {
  reward_engine = "R";
  star_token = "S";
  payment_engine = "P";
  merchant_registry = "M";
  platform = "G";
}

abbrev once : Policy
once = record { execute = λ run. run 0; execute_ok = λ run a h. (0, h) }

abbrev outside : Outside ℕ whole
outside = record {
  rpc = rpc;
  addresses = addresses;
  uuid = λ n. [];
  units = λ t. [];
  amounts = record { is_positive = λ t. false; at_least_stroop = λ t. t };
  policy = λ n. once;
  horizon = λ n. record {
    load_account = λ run a. ok 1;
    submit = λ run account tx. ok (record { hash = "h"; ledger = 12 });
    is_successful = λ run hash. ok false;
  };
  first_28 = λ t. t;
  config = not_configured;
  decentro = decentro;
  clock = clock_at;
  session = λ n. start;
  suffix = λ args. "1";
  usdc_price = λ k id. ok none;
}

process_transaction-payer_example :
    let done =
      process_transaction whole
        (λ n. "5")
        (on_chain whole outside)
        2000
        1
        (payment TransactionStatus.authorized)
        (paying TransactionStatus.authorized) in
    (done.0 ≡ ok tt)
    × Moves 5
        (paying TransactionStatus.authorized)
        (payment TransactionStatus.authorized)
        (TransactionStatus.authorized ∷ TransactionStatus.failed ∷ [])
        done.1
process_transaction-payer_example =
    process_transaction-payer whole outside (λ n. "5") 2000 1 (payment TransactionStatus.authorized)
      (paying TransactionStatus.authorized) (payment TransactionStatus.authorized)
      (record { valid = paying-IsValid TransactionStatus.authorized; found = refl }) refl
