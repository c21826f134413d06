-- ===== src/Ramps/Reading.antt =====
-- The requests of apps/api/src/ramps/ramps.service.ts that only read: `listProviders`, `getRamp` and
-- `listRamps`, with `serialize`. Ramps of the same time stay in the order of insertion.
pub mod Laws
use pay_era.Prelude.{
  ℕ, ◌+◌, ◌-◌, ◌*◌, min, max, Bool, ◌&&◌, Option, none, some, List, [], ◌∷◌, map, String, Result,
  ok, err, not_found, ◌==◌, str_eq, leb, or_else, filter, length, take, drop,
}
use pay_era.Prelude.Sort.{sort_by}
use pay_era.Prelude.Table.{find_first}
use pay_era.Common.Pagination.{ceil_div}
use pay_era.Ramps.Status.{RampStatus, RampType}
use pay_era.Ramps.Provider.{Provider, Registry, list_ids, get}
use pay_era.Ramps.Store.{Ramp, Store}

pub record ProviderView : Type 0 where
  pub id : String
  pub supports_on_ramp : Bool
  pub supports_off_ramp : Bool
  pub supports_status_callback : Bool

abbrev pub describe : String → Provider → ProviderView
describe id p = record {
  id = id;
  supports_on_ramp = p.supports_on_ramp;
  supports_off_ramp = p.supports_off_ramp;
  supports_status_callback = p.supports_status_callback;
}

-- The `map` of `listProviders`, which throws what the registry throws.
unfoldable pub describe_each : Registry → List String → Result (List ProviderView)
describe_each registry [] = ok []
describe_each registry (id ∷ ids) =
    let rest = describe_each registry ids in
    elim (get id registry) [
      | err e ↦ err e
      | ok p ↦ elim rest [ err e ↦ err e | ok views ↦ ok (describe id p ∷ views) ]
    ]

unfoldable pub list_providers : Registry → Result (List ProviderView)
unfolding describe_each list_ids
list_providers registry = describe_each registry (list_ids registry)

-- What `serialize` shows of a ramp: the internal id, the provider's transaction id, the memo's type
-- and the failure code stay inside.
pub record RampView : Type 0 where
  pub id : String
  pub provider : String
  pub type : RampType
  pub status : RampStatus
  pub user_stellar_address : String
  pub asset_code : String
  pub amount_in : Option String
  pub amount_out : Option String
  pub amount_fee : Option String
  pub interactive_url : Option String
  pub reference_number : Option String
  pub stellar_memo : Option String
  pub anchor_account : Option String
  pub stellar_tx_hash : Option String
  pub failure_message : Option String
  pub created_at : ℕ
  pub completed_at : Option ℕ

abbrev pub serialize : Ramp → RampView
serialize r = record {
  id = r.public_id;
  provider = r.provider;
  type = r.type;
  status = r.status;
  user_stellar_address = r.user_stellar_address;
  asset_code = r.asset_code;
  amount_in = r.amount_in;
  amount_out = r.amount_out;
  amount_fee = r.amount_fee;
  interactive_url = r.interactive_url;
  reference_number = r.reference_number;
  stellar_memo = r.stellar_memo;
  anchor_account = r.anchor_account;
  stellar_tx_hash = r.stellar_tx_hash;
  failure_message = r.failure_message;
  created_at = r.created_at;
  completed_at = r.completed_at;
}

-- `getRamp`
unfoldable pub get_ramp : ℕ → String → Store → Result RampView
get_ramp user_id public_id s =
    elim (find_first (λ r. str_eq r.public_id public_id && r.user_id == user_id) s.ramps) [
      | none ↦ err (not_found "Ramp transaction not found")
      | some r ↦ ok (serialize r)
    ]

pub record RampPage : Type 0 where
  pub items : List RampView
  pub page : ℕ
  pub limit : ℕ
  pub total : ℕ
  pub page_count : ℕ

-- The user's ramps, newest first.
unfoldable pub own_ramps : ℕ → Store → List Ramp
own_ramps user_id s =
    sort_by (λ a b. leb b.created_at a.created_at) (filter (λ r. r.user_id == user_id) s.ramps)

abbrev pub page_size : Option ℕ → ℕ
page_size limit? = min (max (or_else limit? 20) 1) 100

-- `listRamps`; the page and the limit may be absent.
unfoldable pub list_ramps : ℕ → Option ℕ → Option ℕ → Store → RampPage
list_ramps user_id page? limit? s =
    let size = page_size limit? in
    let page = max (or_else page? 1) 1 in
    let rows = own_ramps user_id s in
    let total = length (filter (λ r. r.user_id == user_id) s.ramps) in
    record {
      items = map serialize (take size (drop ((page - 1) * size) rows));
      page = page;
      limit = size;
      total = total;
      page_count = ceil_div total size;
    }
