-- ===== src/Ramps/Retry/Laws.antt =====
-- How a retry loop ends, and how long it waits.
use pay_era.Prelude.{
  ℕ, zero, suc, ◌+◌, ◌<◌, ◌≤◌, ◌≡◌, refl, false, Result, ok, err, is_ok, Exception, failure, arith,
}
use pay_era.Ramps.Retry.{Tried, backoff, retry_from, with_retry}

module _ {A : Type 0} (fn : ℕ → Result A) where
  -- A loop of `n` attempts from attempt `k` on ends at the first call that succeeds, or all calls
  -- fail and the last error is thrown.
  pub data Ends (k n : ℕ) (t : Tried A) : Type 0 where
    succeeds :
        (j : ℕ) (a : A)
        → j < n
        → fn (k + j) ≡ ok a
        → ((i : ℕ) → i < j → is_ok (fn (k + i)) ≡ false)
        → t.outcome ≡ ok a
        → t.calls ≡ k + j + 1
        → Ends k n t
    fails :
        ((i : ℕ) → i < n → is_ok (fn (k + i)) ≡ false)
        → t.calls ≡ k + n
        → ((m : ℕ) → n ≡ m + 1 → t.outcome ≡ fn (k + m))
        → Ends k n t

  failed_first :
      (k j : ℕ)
      → is_ok (fn k) ≡ false
      → ((i : ℕ) → i < j → is_ok (fn (k + 1 + i)) ≡ false)
      → (i : ℕ) → i < suc j
      → is_ok (fn (k + i)) ≡ false
  failed_first k j first later zero h = let e : k + 0 ≡ k = omega arith in rw e first
  failed_first k j first later (suc i) h =
      let e : k + suc i ≡ k + 1 + i = omega arith in rw e (later i (omega arith))

  last_error :
      (k n : ℕ) (t : Tried A) {e : Exception}
      → fn k ≡ err e
      → (n ≡ 0 → t.outcome ≡ err e)
      → ((m : ℕ) → n ≡ m + 1 → t.outcome ≡ fn (k + 1 + m))
      → (m : ℕ) → suc n ≡ m + 1
      → t.outcome ≡ fn (k + m)
  last_error k n t first stop more zero e =
      let same : k + 0 ≡ k = omega arith in rw (same, first) (stop (omega arith))
  last_error k n t first stop more (suc m) e =
      let same : k + suc m ≡ k + 1 + m = omega arith in rw same (more m (omega arith))

  Ends-later :
      (k n : ℕ) (t : Tried A) {e : Exception}
      → fn k ≡ err e
      → (n ≡ 0 → t.outcome ≡ err e)
      → Ends (k + 1) n t
      → Ends k (suc n) t
  Ends-later k n t first stop (succeeds j a h this before outcome calls) =
      let same : k + 1 + j ≡ k + suc j = omega arith in
      succeeds (suc j) a (omega arith) (rw (← same) this) (failed_first k j (rw first) before)
        outcome (omega arith)
  Ends-later k n t first stop (fails before calls last) =
      fails (failed_first k n (rw first) before) (omega arith) (last_error k n t first stop last)

  retry_from-zero :
      (k n waited : ℕ) (e : Exception) → n ≡ 0 → (retry_from fn k n waited e).outcome ≡ err e
  unfolding retry_from
  retry_from-zero k zero waited e h = refl
  retry_from-zero k (suc n) waited e h = absurd (omega arith)

  retry_from-Ends : (k n waited : ℕ) (last : Exception) → Ends k n (retry_from fn k n waited last)
  unfolding retry_from
  retry_from-Ends k zero waited last =
      fails (λ i h. absurd (omega arith)) (omega arith) (λ m h. absurd (omega arith))
  retry_from-Ends k (suc n) waited last = go (fn k) refl (λ w e. retry_from-Ends (k + 1) n w e)
    where
      here : k + 0 ≡ k
      here = omega arith

      go :
          (r : Result A)
          → fn k ≡ r
          → ((w : ℕ) (e : Exception) → Ends (k + 1) n (retry_from fn (k + 1) n w e))
          → Ends k (suc n) (retry_from fn k (suc n) waited last)
      go (ok a) this _ =
          rw (this, retry_from)
            (succeeds 0 a (omega arith) (rw here this) (λ i h. absurd (omega arith)) refl
              (omega arith))
      go (err e) this later =
          rw (this, retry_from)
            (Ends-later k n (retry_from fn (k + 1) n (waited + backoff k) e) this
              (retry_from-zero (k + 1) n (waited + backoff k) e) (later (waited + backoff k) e))

  -- `withRetry` ends at the first of its calls that succeeds, with that call's result and no call
  -- after it; if all calls fail, it has made `max_attempts` of them and throws the last error.
  pub with_retry-Ends : (n : ℕ) → Ends 0 n (with_retry fn n)
  unfolding with_retry
  with_retry-Ends n = retry_from-Ends 0 n 0 (failure "undefined")

  -- With the three attempts that the service uses, the waits add up to at most 2.5 seconds.
  pub with_retry_waited : (with_retry fn 3).waited ≤ 2500
  unfolding with_retry retry_from
  with_retry_waited = ground (arith)
