-- ===== src/Accounts/Aml.antt =====
-- apps/api/src/aml/aml.service.ts: the screening of a wallet's address. An address is the list of
-- its UTF-16 code units. The answers of Chainalysis and TRM are arguments, an exception where the
-- request failed; risk scores are whole. The metadata of flags is left out.
pub mod Laws
use pay_era.Prelude.{
  ℕ, ◌+◌, ◌-◌, ◌*◌, ◌%◌, ◌^◌, Bool, true, false, not, ◌&&◌, ◌||◌, Option, none, some, List, [], ◌∷◌,
  ◌++◌, map, String, Result, ok, err, ◌==◌, leb, ltb, or_else, str_eq, if◌then◌else◌, any,
}

pub data RiskLevel : Type 0 where
  low medium high critical : RiskLevel

pub data Severity : Type 0 where
  info warning high critical : Severity

pub data FlagType : Type 0 where
  high_risk_jurisdiction sanctions mixer_usage darknet_market : FlagType

pub record Flag : Type 0 where
  pub type : FlagType
  pub severity : Severity
  pub description : String

pub record Screening : Type 0 where
  pub address : List ℕ
  pub network : String
  pub risk_score : ℕ
  pub risk_level : RiskLevel
  pub flags : List Flag
  pub screened_at : ℕ
  pub provider : String
  pub reference_id : String

-- `getRiskLevel`
unfoldable pub get_risk_level : ℕ → RiskLevel
get_risk_level score =
    if leb 80 score
    then RiskLevel.critical
    else if leb 60 score
    then RiskLevel.high
    else if leb 30 score
    then RiskLevel.medium
    else RiskLevel.low

-- One round of the loop of `simpleHash` on a 32-bit integer, which stands here as its residue modulo
-- 2^32: the shift, the subtraction and the sum wrap around.
abbrev pub hash_step : ℕ → ℕ → ℕ
hash_step hash char = ((hash * 32) % 4294967296 + (4294967296 - hash) + char) % 4294967296

unfoldable pub hash_from : ℕ → List ℕ → ℕ
hash_from hash [] = hash
hash_from hash (c ∷ cs) = hash_from (hash_step hash c) cs

-- `Math.abs` of the 32-bit integer
abbrev pub abs_int32 : ℕ → ℕ
abs_int32 n = if ltb n 2147483648 then n else 4294967296 - n

-- `simpleHash`
unfoldable pub simple_hash : List ℕ → ℕ
unfolding hash_from
simple_hash address = abs_int32 (hash_from 0 address)

abbrev pub starts_with : List ℕ → List ℕ → Bool
starts_with [] cs = true
starts_with (p ∷ ps) [] = false
starts_with (p ∷ ps) (c ∷ cs) = if p == c then starts_with ps cs else false

unfoldable pub includes : List ℕ → List ℕ → Bool
includes ps [] = starts_with ps []
includes ps (c ∷ cs) = if starts_with ps (c ∷ cs) then true else includes ps cs

-- `toLowerCase` on the letters A to Z. No other character becomes a letter of "sanction" by itself.
abbrev pub to_lower : ℕ → ℕ
to_lower c = if leb 65 c && leb c 90 then c + 32 else c

-- "sanction", "GB" and "GC"
abbrev pub sanction_text : List ℕ
sanction_text = 115 ∷ 97 ∷ 110 ∷ 99 ∷ 116 ∷ 105 ∷ 111 ∷ 110 ∷ []

abbrev pub gb_text : List ℕ
gb_text = 71 ∷ 66 ∷ []

abbrev pub gc_text : List ℕ
gc_text = 71 ∷ 67 ∷ []

abbrev pub flag_if : Bool → FlagType → Severity → String → List Flag
flag_if true type severity text =
    record { type = type; severity = severity; description = text } ∷ []
flag_if false type severity text = []

abbrev pub is_sanctions_hit : List ℕ → Bool
is_sanctions_hit address =
    includes sanction_text (map to_lower address) || simple_hash address % 50 == 0

unfoldable pub mock_flags : List ℕ → List Flag
mock_flags address =
    let hash = simple_hash address in
    flag_if ((starts_with gb_text address || starts_with gc_text address) && hash % 10 == 0)
      FlagType.high_risk_jurisdiction Severity.warning
      "Address associated with high-risk jurisdiction"
    ++ flag_if (is_sanctions_hit address) FlagType.sanctions Severity.critical
        "Address matches sanctions list"
    ++ flag_if (hash % 20 == 0) FlagType.mixer_usage Severity.warning
        "Address has interacted with known mixing services"
    ++ flag_if (hash % 30 == 0) FlagType.darknet_market Severity.high
        "Address has interacted with darknet marketplace"

-- `mockScreening`
unfoldable pub mock_screening : List ℕ → String → String → ℕ → Screening
mock_screening address network reference now = record {
  address = address;
  network = network;
  risk_score = simple_hash address % 100;
  risk_level = get_risk_level (simple_hash address % 100);
  flags = mock_flags address;
  screened_at = now;
  provider = "mock";
  reference_id = reference;
}

-- What is read of an answer of Chainalysis or of TRM: the number of matches on sanctions lists,
-- whether there are mixers and darknet markets, and the score, which may be absent.
pub record Report : Type 0 where
  pub sanctions : ℕ
  pub mixer : Bool
  pub darknet : Bool
  pub risk_score : Option ℕ

abbrev pub report_flags : Report → List Flag
report_flags r =
    flag_if (ltb 0 r.sanctions) FlagType.sanctions Severity.critical
      "Address matches sanctions list"
    ++ flag_if r.mixer FlagType.mixer_usage Severity.warning
        "Address has interacted with mixing services"
    ++ flag_if r.darknet FlagType.darknet_market Severity.high
        "Address has interacted with darknet markets"

-- `mapChainalysisResponse` and `mapTRMResponse`, which differ in where the answer has its parts.
unfoldable pub map_response : String → List ℕ → String → Report → String → ℕ → Screening
map_response provider address network r reference now = record {
  address = address;
  network = network;
  risk_score = or_else r.risk_score 0;
  risk_level = get_risk_level (or_else r.risk_score 0);
  flags = report_flags r;
  screened_at = now;
  provider = provider;
  reference_id = reference;
}

-- `screenWithChainalysis` and `screenWithTRM`
unfoldable pub screen_with : String → Result Report → List ℕ → String → String → ℕ → Screening
screen_with provider (ok r) address network reference now =
    map_response provider address network r reference now
screen_with provider (err e) address network reference now =
    mock_screening address network reference now

-- The configuration, with '' for a key that is not set.
pub record Config : Type 0 where
  pub default_provider : String
  pub chainalysis_key : String
  pub trm_key : String

-- How the requests to the two providers end.
pub record Answers : Type 0 where
  pub chainalysis : Result Report
  pub trm : Result Report

abbrev pub is_set : String → Bool
is_set key = not (str_eq key "")

-- `screenWallet`
unfoldable pub screen_wallet : Config → Answers → List ℕ → String → String → ℕ → Screening
screen_wallet config answers address network reference now =
    if str_eq config.default_provider "chainalysis" && is_set config.chainalysis_key
    then screen_with "chainalysis" answers.chainalysis address network reference now
    else if str_eq config.default_provider "trm" && is_set config.trm_key
    then screen_with "trm" answers.trm address network reference now
    else mock_screening address network reference now

abbrev pub is_critical_sanction : Flag → Bool
is_critical_sanction f = elim f.type [
  | FlagType.sanctions ↦ elim f.severity [ Severity.critical ↦ true | _ ↦ false ]
  | _ ↦ false
]

-- `isSanctioned`
unfoldable pub is_sanctioned : Config → Answers → List ℕ → String → String → ℕ → Bool
is_sanctioned config answers address network reference now =
    any is_critical_sanction (screen_wallet config answers address network reference now).flags
