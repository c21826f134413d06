-- ===== src/Ramps/Provider.antt =====
-- The contract of a ramp provider and the registry of providers:
-- apps/api/src/ramps/providers/fiat-ramp-provider.interface.ts and ramp-provider.registry.ts.
pub mod Laws
use pay_era.Prelude.{
  ℕ, Bool, Option, none, some, List, [], ◌∷◌, ◌++◌, String, Result, ok, err, failure, not_found,
  map, str_eq, if◌then◌else◌, any,
}
use Prim.Native.String
use pay_era.Prelude.Table.{find_first}
use pay_era.Ramps.Status.{RampStatus}

pub record InitiateParams : Type 0 where
  pub user_stellar_address : String
  pub amount : Option String
  pub asset_code : Option String

pub record InitiateResult : Type 0 where
  pub provider_tx_id : String
  pub interactive_url : String

-- `RampStatusResult`
pub record StatusResult : Type 0 where
  pub status : RampStatus
  pub raw_status : String
  pub amount_in : Option String
  pub amount_out : Option String
  pub amount_fee : Option String
  pub reference_number : Option String
  pub stellar_memo : Option String
  pub stellar_memo_type : Option String
  pub anchor_account : Option String
  pub stellar_tx_hash : Option String

-- `FiatRampProvider`. The first argument of a call numbers it: two calls with the same arguments
-- may end differently.
pub record Provider : Type 0 where
  pub id : String
  pub supports_on_ramp : Bool
  pub supports_off_ramp : Bool
  pub supports_status_callback : Bool
  pub authenticate : ℕ → String → Result String
  pub initiate_on_ramp : ℕ → String → InitiateParams → Result InitiateResult
  pub initiate_off_ramp : ℕ → String → InitiateParams → Result InitiateResult
  pub get_status : ℕ → String → String → Result StatusResult

-- `RampProviderRegistry`: the map `byId`, in the order of insertion.
abbrev pub Registry : Type 0
Registry = List Provider

unfoldable pub has : String → Registry → Bool
has id r = any (λ p. str_eq p.id id) r

-- The loop of the constructor.
unfoldable pub register_from : Registry → List Provider → Result Registry
unfolding has
register_from r [] = ok r
register_from r (p ∷ ps) =
    let rest = register_from (r ++ p ∷ []) ps in
    if has p.id r
    then err (failure (String.◌++◌ "Duplicate ramp provider registered: " p.id))
    else rest

unfoldable pub register : List Provider → Result Registry
unfolding register_from
register = register_from []

unfoldable pub list_ids : Registry → List String
list_ids = map (λ p. p.id)

-- `get`; the message also lists the registered ids, which is left out.
unfoldable pub get : String → Registry → Result Provider
get id r = elim (find_first (λ p. str_eq p.id id) r) [
  | none ↦ err (not_found (String.◌++◌ "Unknown ramp provider " id))
  | some p ↦ ok p
]
