-- ===== src/Auth/Nonces/Laws.antt =====
-- When a nonce is issued, and when it is not any more.
use pay_era.Prelude.{
  ℕ, ◌+◌, ◌<◌, ◌≡◌, ◌≢◌, ◌⊎◌, inl, inr, refl, sym, ◌∙◌, subst, true, false, String, arith, eq_iff,
  str_eq, Bool-cases,
}
use text.Mathlib.TextLemmas.{append_cancel_left}
use pay_era.Auth.Cache.{CacheManager}
use pay_era.Auth.Nonces.{
  AuthStore, WalletChallenge, nonce_key, nonce_ttl, is_issued, spend, issue_wallet_challenge,
}

nonce_key-apart : (a b : String) → a ≢ b → nonce_key a ≢ nonce_key b
nonce_key-apart a b h e = h (append_cancel_left "nonce:" a b e)

same_nonce : (a b : String) → (a ≡ b) ⊎ (a ≢ b)
same_nonce a b = elim (Bool-cases (str_eq a b)) [
  | inl e ↦ inl ((eq_iff a b).0 e)
  | inr e ↦ inr (λ same. ground (arith, (eq_iff a b).1 same))
]

module _ (cache : CacheManager) where
  -- No time finds the nonce issued.
  abbrev pub IsSpent : String → AuthStore cache → Type 0
  IsSpent nonce s = (at : ℕ) → is_issued cache at nonce s ≡ false

  pub spend-IsSpent : (nonce : String) (s : AuthStore cache) → IsSpent nonce (spend cache nonce s)
  spend-IsSpent nonce s at = rw (cache.get-del (nonce_key nonce) at s.nonces) refl

  pub is_issued-spend_other :
      (at : ℕ) (nonce other : String) (s : AuthStore cache)
      → nonce ≢ other
      → is_issued cache at nonce (spend cache other s) ≡ is_issued cache at nonce s
  is_issued-spend_other at nonce other s h =
      rw
        (cache.get-del_other (nonce_key other) (nonce_key nonce) at s.nonces
          (nonce_key-apart nonce other h))
        refl

  pub spend-keeps :
      (nonce other : String) (s : AuthStore cache)
      → IsSpent nonce s
      → IsSpent nonce (spend cache other s)
  spend-keeps nonce other s h = elim (same_nonce nonce other) [
    | inl e ↦ subst (λ n. IsSpent n (spend cache other s)) (sym e) (spend-IsSpent other s)
    | inr apart ↦ λ at. is_issued-spend_other at nonce other s apart ∙ h at
  ]

  pub is_issued-issue_other :
      (at now : ℕ) (nonce other : String) (dto : WalletChallenge) (s : AuthStore cache)
      → nonce ≢ other
      → is_issued cache at nonce (issue_wallet_challenge cache now other dto s).1
        ≡ is_issued cache at nonce s
  unfolding issue_wallet_challenge
  is_issued-issue_other at now nonce other dto s h =
      rw
        (cache.get-set_other (nonce_key other) (nonce_key nonce) "issued" nonce_ttl now at s.nonces
          (nonce_key-apart nonce other h))
        refl

  -- A nonce is issued until the time that the challenge names, and not after it.
  pub is_issued-issue :
      (now at : ℕ) (nonce : String) (dto : WalletChallenge) (s : AuthStore cache)
      → let s' = (issue_wallet_challenge cache now nonce dto s).1 in
        (at < now + nonce_ttl → is_issued cache at nonce s' ≡ true)
        × (now + nonce_ttl < at → is_issued cache at nonce s' ≡ false)
  unfolding issue_wallet_challenge
  is_issued-issue now at nonce dto s = (
    λ early. rw (cache.get-set (nonce_key nonce) "issued" nonce_ttl now at s.nonces early) refl,
    λ late.
        rw (cache.get-set_expired (nonce_key nonce) "issued" nonce_ttl now at s.nonces late) refl,
  )
