-- ===== src/Accounts/Aml/Laws.antt =====
-- The hash, the risk levels and the sanctions of a screening.
use pay_era.Prelude.{
  ℕ, ◌+◌, ◌*◌, ◌%◌, ◌≤◌, ◌<◌, ◌≡◌, ◌↔◌, refl, ◌⊎◌, inl, inr, Bool, true, false, ◌&&◌, Option, none,
  some, List, [], ◌∷◌, ◌++◌, String, Result, ok, err, arith, ltb, str_eq, if◌then◌else◌, any,
  Bool-cases,
}
use pay_era.Accounts.Aml.{
  RiskLevel, Severity, FlagType, Flag, get_risk_level, hash_step, hash_from, abs_int32, simple_hash,
  flag_if, is_sanctions_hit, mock_flags, mock_screening, Report, report_flags, map_response,
  screen_with, Config, Answers, is_set, screen_wallet, is_critical_sanction, is_sanctioned,
}

-- The hash without wrap-around: the code units as digits in base 31.
abbrev pub polynomial : ℕ → List ℕ → ℕ
polynomial hash [] = hash
polynomial hash (c ∷ cs) = polynomial (31 * hash + c) cs

hash_from-polynomial :
    (h : ℕ) (cs : List ℕ) → hash_from (h % 4294967296) cs ≡ polynomial h cs % 4294967296
unfolding hash_from
hash_from-polynomial h [] = refl
hash_from-polynomial h (c ∷ cs) =
    let step : hash_step (h % 4294967296) c ≡ (31 * h + c) % 4294967296 = omega arith in
    rw step (hash_from-polynomial (31 * h + c) cs)

-- The hash that the loop computes with 32-bit wrap-around in every round is the absolute value of
-- the base-31 polynomial of the code units, wrapped once at the end; it is at most 2^31.
pub simple_hash-polynomial :
    (address : List ℕ)
    → (simple_hash address ≡ abs_int32 (polynomial 0 address % 4294967296))
      × (simple_hash address ≤ 2147483648)
unfolding simple_hash
simple_hash-polynomial address =
    let same = hash_from-polynomial 0 address in (ground (arith, same), ground (arith, same))

-- What the threshold of each level means for a score.
level_cases :
    (score : ℕ)
    → ((get_risk_level score ≡ RiskLevel.critical) ↔ (80 ≤ score))
      × ((get_risk_level score ≡ RiskLevel.low) ↔ (score < 30))
unfolding get_risk_level
level_cases score = (ground arith, ground arith)

any-append :
    (xs ys : List Flag)
    → any is_critical_sanction (xs ++ ys)
      ≡ (if any is_critical_sanction xs then true else any is_critical_sanction ys)
any-append [] ys = refl
any-append (x ∷ xs) ys = ground (arith, any-append xs ys)

flagged :
    (b : Bool) (text : String)
    → any is_critical_sanction (flag_if b FlagType.sanctions Severity.critical text) ≡ b
flagged true text = refl
flagged false text = refl

unflagged_jurisdiction :
    (b : Bool) (text : String)
    → any is_critical_sanction (flag_if b FlagType.high_risk_jurisdiction Severity.warning text)
      ≡ false
unflagged_jurisdiction true text = refl
unflagged_jurisdiction false text = refl

unflagged_mixer :
    (b : Bool) (text : String)
    → any is_critical_sanction (flag_if b FlagType.mixer_usage Severity.warning text) ≡ false
unflagged_mixer true text = refl
unflagged_mixer false text = refl

unflagged_darknet :
    (b : Bool) (text : String)
    → any is_critical_sanction (flag_if b FlagType.darknet_market Severity.high text) ≡ false
unflagged_darknet true text = refl
unflagged_darknet false text = refl

if_itself : (b : Bool) → (if b then true else false) ≡ b
if_itself true = refl
if_itself false = refl

mock_flags-sanctions :
    (address : List ℕ) → any is_critical_sanction (mock_flags address) ≡ is_sanctions_hit address
unfolding mock_flags
mock_flags-sanctions address =
    simp
      (any-append, flagged, unflagged_jurisdiction, unflagged_mixer, unflagged_darknet, if_itself)
      refl

report_flags-sanctions :
    (r : Report) → any is_critical_sanction (report_flags r) ≡ ltb 0 r.sanctions
report_flags-sanctions r =
    simp (any-append, flagged, unflagged_mixer, unflagged_darknet, if_itself) refl

-- The report that counts: that of the configured provider, where its request succeeded.
abbrev pub report_of : Result Report → Option Report
report_of (ok r) = some r
report_of (err e) = none

abbrev pub report_used : Config → Answers → Option Report
report_used config answers =
    if str_eq config.default_provider "chainalysis" && is_set config.chainalysis_key
    then report_of answers.chainalysis
    else if str_eq config.default_provider "trm" && is_set config.trm_key
    then report_of answers.trm
    else none

screen_with-ok :
    (provider : String) (answer : Result Report) (address : List ℕ) (network reference : String)
    (now : ℕ)
    → let x = screen_with provider answer address network reference now in
      (x.risk_level ≡ get_risk_level x.risk_score)
      × (any is_critical_sanction x.flags ≡ (elim (report_of answer) [
        | some r ↦ ltb 0 r.sanctions
        | none ↦ is_sanctions_hit address
      ]))
unfolding screen_with map_response mock_screening
screen_with-ok provider (ok r) address network reference now = (refl, report_flags-sanctions r)
screen_with-ok provider (err e) address network reference now = (refl, mock_flags-sanctions address)

-- An address counts as sanctioned exactly where the configured provider reports a match, or, where no
-- provider is configured or its request fails, where the mock screening finds one. In every
-- screening the level is that of the score.
pub is_sanctioned_iff :
    (config : Config) (answers : Answers) (address : List ℕ) (network reference : String) (now : ℕ)
    → let x = screen_wallet config answers address network reference now in
      (x.risk_level ≡ get_risk_level x.risk_score)
      × (is_sanctioned config answers address network reference now
          ≡ (elim (report_used config answers) [
            | some r ↦ ltb 0 r.sanctions
            | none ↦ is_sanctions_hit address
          ]))
unfolding is_sanctioned screen_wallet mock_screening
is_sanctioned_iff config answers address network reference now =
    elim (Bool-cases
      (str_eq config.default_provider "chainalysis" && is_set config.chainalysis_key)) [
        | inl first ↦
            rw first
              (screen_with-ok "chainalysis" answers.chainalysis address network reference now)
        | inr other ↦
            elim (Bool-cases (str_eq config.default_provider "trm" && is_set config.trm_key)) [
              | inl second ↦
                  rw (other, second)
                    (screen_with-ok "trm" answers.trm address network reference now)
              | inr none_set ↦ rw (other, none_set) (refl, mock_flags-sanctions address)
            ]
      ]

-- A screening by the mock alone: the score is below 100; an address whose hash is a multiple of 50
-- is flagged as sanctioned and CRITICAL, and yet its risk level is LOW or MEDIUM.
pub mock_screening_level :
    (address : List ℕ) (network reference : String) (now : ℕ)
    → let x = mock_screening address network reference now in
      (x.risk_score < 100)
      × (simple_hash address % 50 ≡ 0
          → (any is_critical_sanction x.flags ≡ true)
            × ((x.risk_level ≡ RiskLevel.low) ⊎ (x.risk_level ≡ RiskLevel.medium)))
unfolding mock_screening get_risk_level
mock_screening_level address network reference now =
    let bound : simple_hash address % 100 < 100 = omega arith in
    (
      bound,
      λ hit.
          let flagged_hit = mock_flags-sanctions address in
          let score : (simple_hash address % 100 ≡ 0) ⊎ (simple_hash address % 100 ≡ 50) =
            omega arith in
          (
            ground (arith, flagged_hit, hit),
            elim score [ inl e ↦ inl (ground (arith, e)) | inr e ↦ inr (ground (arith, e)) ],
          ),
    )
