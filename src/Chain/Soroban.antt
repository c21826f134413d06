-- ===== src/Chain/Soroban.antt =====
-- apps/api/src/stellar/soroban.service.ts: the calls of the contracts. The Soroban RPC server and the
-- Stellar SDK are arguments; `attempt`, the first argument of a call, tells repeated calls apart.
pub mod Contracts
pub mod Laws
use pay_era.Prelude.{
  ℕ, zero, suc, ◌+◌, Bool, true, false, not, ◌&&◌, Option, none, some, List, [], ◌∷◌, String,
  Result, ok, err, Exception, failure, if◌then◌else◌, all,
}
use Prim.Native.String
use pay_era.Payments.Store.{AssetCode}
use pay_era.Chain.Bytes.{uuid_to_bytes32}

-- The values that are passed to a contract.
pub data ScVal : Type 0 where
  bytes : List ℕ → ScVal
  address : String → ScVal
  i128 u32 : ℕ → ScVal
  -- What becomes of `undefined`.
  undefined : ScVal

-- The operation of a transaction, which the platform's key signs.
pub record Call : Type 0 where
  pub contract : String
  pub method : String
  pub arguments : List ScVal

pub data Simulation (V : Type 0) : Type 0 where
  sim_error : String → Simulation V
  sim_success : Option V → Simulation V

-- `sendTransaction`: the hash, and the error where the status is ERROR.
pub record Sent : Type 0 where
  pub hash : String
  pub error : Option String

pub data TxStatus (V : Type 0) : Type 0 where
  success : Option V → TxStatus V
  failed : TxStatus V
  not_found : TxStatus V

-- The server and the SDK. `V` are the values that contracts return; `as_amount` is
-- `BigInt(scValToNative(v).toString())`, which may throw, and `is_true` the comparison with `true`.
pub record Rpc (V : Type 0) : Type 0 where
  pub get_account : ℕ → Result ℕ
  pub is_address : String → Bool
  pub simulate : ℕ → ℕ → Call → Result (Simulation V)
  pub send : ℕ → ℕ → Call → Result Sent
  -- The attempt, the number of the poll, and the hash.
  pub get_transaction : ℕ → ℕ → String → Result (TxStatus V)
  pub as_amount : V → Result ℕ
  pub is_true : V → Bool

-- The addresses of the contracts, and the platform's public key.
pub record Addresses : Type 0 where
  pub reward_engine : String
  pub star_token : String
  pub payment_engine : String
  pub merchant_registry : String
  pub platform : String

-- The beginnings of the texts of the exceptions.
pub record Labels : Type 0 where
  pub submit_failed : String
  pub failed_on_chain : String
  pub timed_out : String

abbrev pub labels_of : String → Labels
labels_of name = record {
  submit_failed = String.◌++◌ name " failed: ";
  failed_on_chain = String.◌++◌ name " failed on-chain: ";
  timed_out = String.◌++◌ name " timed out: ";
}

module _ {V : Type 0} (rpc : Rpc V) where
  abbrev pub is_valid_argument : ScVal → Bool
  is_valid_argument (address a) = rpc.is_address a
  is_valid_argument (bytes _) = true
  is_valid_argument (i128 _) = true
  is_valid_argument (u32 _) = true
  is_valid_argument undefined = true

  -- The loop that polls for the confirmation, from poll `i` on. The result is the return value.
  unfoldable pub poll : Labels → ℕ → String → ℕ → ℕ → Result (Option V)
  poll labels attempt hash zero i = err (failure (String.◌++◌ labels.timed_out hash))
  poll labels attempt hash (suc n) i =
      let rest = poll labels attempt hash n (i + 1) in
      elim (rpc.get_transaction attempt i hash) [
        | err e ↦ err e
        | ok (success v) ↦ ok v
        | ok failed ↦ err (failure (String.◌++◌ labels.failed_on_chain hash))
        | ok not_found ↦ rest
      ]

  -- The transaction, from the simulation to the hash.
  unfoldable pub submit : Labels → ℕ → Call → Result String
  submit labels attempt call = elim (rpc.get_account attempt) [
    | err e ↦ err e
    | ok account ↦
        if not (all is_valid_argument call.arguments)
        then err (failure "Unsupported address type")
        else elim (rpc.simulate attempt account call) [
          | err e ↦ err e
          | ok (sim_error text) ↦ err (failure (String.◌++◌ "Soroban simulation failed: " text))
          | ok (sim_success _) ↦ elim (rpc.send attempt account call) [
            | err e ↦ err e
            | ok sent ↦ elim sent.error [
              | some text ↦ err (failure (String.◌++◌ labels.submit_failed text))
              | none ↦ ok sent.hash
            ]
          ]
        ]
  ]

  -- A call of a contract that is confirmed: its hash, and what it returned.
  unfoldable pub invoke : Labels → ℕ → Call → Result (String × Option V)
  invoke labels attempt call = elim (submit labels attempt call) [
    | err e ↦ err e
    | ok hash ↦ elim (poll labels attempt hash 20 0) [ err e ↦ err e | ok v ↦ ok (hash, v) ]
  ]

  abbrev pub hash_only : Result (String × Option V) → Result String
  hash_only (err e) = err e
  hash_only (ok (hash, _)) = ok hash

  -- What a simulation alone returns; all exceptions are caught.
  unfoldable pub read : ℕ → Call → Option V
  read attempt call = elim (rpc.get_account attempt) [
    | err e ↦ none
    | ok account ↦
        if not (all is_valid_argument call.arguments)
        then none
        else elim (rpc.simulate attempt account call) [
          | err e ↦ none
          | ok (sim_error text) ↦ none
          | ok (sim_success v) ↦ v
        ]
  ]
