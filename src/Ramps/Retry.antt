-- ===== src/Ramps/Retry.antt =====
-- `RampsService.withRetry`: up to `max_attempts` calls, with a wait before the second and third.
pub mod Laws
use pay_era.Prelude.{
  ℕ, zero, suc, ◌+◌, ◌-◌, ◌<◌, ◌≤◌, ◌≡◌, refl, ◌⊎◌, inl, inr, Bool, true, false, Result, ok, err,
  is_ok, Exception, failure, arith, Option, none, some, List, [], ◌∷◌,
}

-- What the loop has done when it ends: its outcome, the number of calls, the time waited.
pub record Tried (A : Type 0) : Type 0 where
  pub outcome : Result A
  pub calls : ℕ
  pub waited : ℕ

-- `[0, 500, 2000][attempt]`; past its end there is no wait.
abbrev pub backoff : ℕ → ℕ
backoff zero = 0
backoff (suc zero) = 500
backoff (suc (suc zero)) = 2000
backoff (suc (suc (suc n))) = 0

module _ {A : Type 0} where
  -- The loop from an attempt on, with the number of attempts left and the last error.
  pub retry_from : (ℕ → Result A) → ℕ → ℕ → ℕ → Exception → Tried A
  retry_from fn attempt zero waited last = record {
    outcome = err last;
    calls = attempt;
    waited = waited;
  }
  retry_from fn attempt (suc left) waited last = elim (fn attempt) [
    | ok a ↦ record { outcome = ok a; calls = attempt + 1; waited = waited + backoff attempt }
    | err e ↦ retry_from fn (attempt + 1) left (waited + backoff attempt) e
  ]

  unfoldable pub with_retry : (ℕ → Result A) → ℕ → Tried A
  unfolding retry_from
  with_retry fn max_attempts = retry_from fn 0 max_attempts 0 (failure "undefined")
