-- ===== src/Chain/Soroban/Laws.antt =====
-- What a confirmed call, and an exception, say of the network.
use Prim.Native.String
use pay_era.Prelude.{
  ℕ, zero, suc, ◌+◌, ◌≤◌, ◌<◌, ◌≡◌, ◌↔◌, inl, inr, refl, sym, ap, ◌∙◌, subst, Option, String, ok,
  err, failure, arith, Result-cases, Bool-cases, ◌==◌, Exception, false, all,
}
use pay_era.Chain.Soroban.{
  Call, Rpc, Labels, TxStatus, success, failed, not_found, poll, submit, invoke, is_valid_argument,
}

module _ {V : Type 0} (rpc : Rpc V) where
  -- Poll `i` is the first that finds the transaction; the ones from `first` on did not.
  abbrev pub IsFound : ℕ → String → ℕ → ℕ → TxStatus V → Type 0
  IsFound attempt hash first i status =
      (first ≤ i)
      × ((rpc.get_transaction attempt i hash ≡ ok status)
          × ((k : ℕ) → first ≤ k → k < i → rpc.get_transaction attempt k hash ≡ ok not_found))

  IsFound-earlier :
      (attempt : ℕ) (hash : String) (first i : ℕ) (status : TxStatus V)
      → rpc.get_transaction attempt first hash ≡ ok not_found
      → IsFound attempt hash (first + 1) i status
      → IsFound attempt hash first i status
  IsFound-earlier attempt hash first i status absent (le, (found, before)) = (
    omega arith,
    (
      found,
      λ k le' lt. elim (Bool-cases (k == first)) [
        | inl own ↦
            let same : k ≡ first = ground arith in
            subst (λ m. rpc.get_transaction attempt m hash ≡ ok not_found) (sym same) absent
        | inr other ↦ before k (ground arith) lt
      ],
    ),
  )

  -- A poll that succeeds has met SUCCESS within its rounds.
  poll-IsFound :
      (labels : Labels) (attempt : ℕ) (hash : String) (n i : ℕ) (v : Option V)
      → poll rpc labels attempt hash n i ≡ ok v
      → (k : ℕ) × ((k < i + n) × IsFound attempt hash i k (success v))
  unfolding poll
  poll-IsFound labels attempt hash zero i v h = ground arith
  poll-IsFound labels attempt hash (suc n) i v h =
      elim (Result-cases (rpc.get_transaction attempt i hash)) [
        | inl (success w, e) ↦
            let own : w ≡ v = ground arith in
            (
              i,
              (
                omega arith,
                (omega arith, (e ∙ ap (λ x. ok (success x)) own, λ k le lt. ground arith)),
              ),
            )
        | inl (failed, e) ↦ ground arith
        | inl (not_found, e) ↦
            let (k, (lt, found)) = poll-IsFound labels attempt hash n (i + 1) v (ground arith) in
            (k, (omega arith, IsFound-earlier attempt hash i k (success v) e found))
        | inr (x, e) ↦ ground arith
      ]

  poll-of :
      (labels : Labels) (attempt : ℕ) (hash : String) (n i k : ℕ) (v : Option V)
      → k < i + n
      → IsFound attempt hash i k (success v)
      → poll rpc labels attempt hash n i ≡ ok v
  unfolding poll
  poll-of labels attempt hash zero i k v lt (le, _) = ground arith
  poll-of labels attempt hash (suc n) i k v lt (le, (found, before)) = elim (Bool-cases (k == i)) [
    | inl own ↦
        let same : k ≡ i = ground arith in
        let here : rpc.get_transaction attempt i hash ≡ ok (success v) =
          subst (λ m. rpc.get_transaction attempt m hash ≡ ok (success v)) same found in
        rw (here, poll) refl
    | inr other ↦
        let absent = before i (omega arith) (ground arith) in
        let rest =
          poll-of labels attempt hash n (i + 1) k v (omega arith)
            (ground arith, (found, λ m le' lt'. before m (omega arith) lt')) in
        rw (absent, poll) rest
  ]

  poll-timed_out :
      (labels : Labels) (attempt : ℕ) (hash : String) (n i : ℕ)
      → ((k : ℕ) → k < i + n → rpc.get_transaction attempt k hash ≡ ok not_found)
      → poll rpc labels attempt hash n i ≡ err (failure (String.◌++◌ labels.timed_out hash))
  unfolding poll
  poll-timed_out labels attempt hash zero i absent = refl
  poll-timed_out labels attempt hash (suc n) i absent =
      let here = absent i (omega arith) in
      rw (here, poll)
        (poll-timed_out labels attempt hash n (i + 1) (λ k lt. absent k (omega arith)))

  invoke_parts :
      (labels : Labels) (attempt : ℕ) (call : Call) (hash : String) (v : Option V)
      → invoke rpc labels attempt call ≡ ok (hash, v)
      → (submit rpc labels attempt call ≡ ok hash) × (poll rpc labels attempt hash 20 0 ≡ ok v)
  unfolding invoke
  invoke_parts labels attempt call hash v h = elim (Result-cases (submit rpc labels attempt call)) [
    | inl (sent, e) ↦ elim (Result-cases (poll rpc labels attempt sent 20 0)) [
      | inl (w, f) ↦
          let own : sent ≡ hash = ground arith in
          (ground arith, subst (λ x. poll rpc labels attempt x 20 0 ≡ ok v) own (ground arith))
      | inr (x, f) ↦ (ground arith, ground arith)
    ]
    | inr (x, e) ↦ (ground arith, ground arith)
  ]

  -- A call of a contract succeeds exactly where its transaction was simulated, signed and sent, and
  -- one of at most twenty polls met it as SUCCESS while all earlier ones did not find it. Where none
  -- of the twenty finds it, the call fails although the transaction is on its way.
  pub invoke_iff :
      (labels : Labels) (attempt : ℕ) (call : Call) (hash : String)
      → ((v : Option V)
          → (invoke rpc labels attempt call ≡ ok (hash, v)) ↔ (
              (submit rpc labels attempt call ≡ ok hash)
              × ((k : ℕ) × ((k < 20) × IsFound attempt hash 0 k (success v)))))
        × (submit rpc labels attempt call ≡ ok hash
            → ((k : ℕ) → k < 20 → rpc.get_transaction attempt k hash ≡ ok not_found)
            → invoke rpc labels attempt call ≡ err (failure (String.◌++◌ labels.timed_out hash)))
  unfolding invoke
  invoke_iff labels attempt call hash = (
    λ v. (
      λ h.
          let (sent, polled) = invoke_parts labels attempt call hash v h in
          (sent, poll-IsFound labels attempt hash 20 0 v polled),
      λ h.
          let (sent, (k, (lt, found))) = h in
          let polled = poll-of labels attempt hash 20 0 k v lt found in
          rw (sent, polled, invoke) refl,
    ),
    λ sent absent.
        let late = poll-timed_out labels attempt hash 20 0 absent in rw (sent, late, invoke) refl,
  )

  -- A call with an argument that the SDK does not build throws, whatever the network answers.
  pub invoke-invalid :
      (labels : Labels) (attempt : ℕ) (call : Call)
      → all (is_valid_argument rpc) call.arguments ≡ false
      → (e : Exception) × (invoke rpc labels attempt call ≡ err e)
  unfolding invoke submit
  invoke-invalid labels attempt call h = elim (Result-cases (rpc.get_account attempt)) [
    | inl (account, e) ↦ (failure "Unsupported address type", ground arith)
    | inr (x, e) ↦ (x, ground arith)
  ]
