-- ===== src/Ramps/Initiation/Gate.antt =====
-- Who starts a ramp.
use pay_era.Prelude.{
  ◌≡◌, refl, ap, Bool, true, false, Result, ok, err, arith, is_ok, Result-cases, Bool-cases, ◌&&◌,
  inl, inr, ◌⊎◌,
}
use pay_era.Accounts.Store.{KycStatus}
use pay_era.Accounts.Kyc.{truthy}
use pay_era.Ramps.Status.{RampType}
use pay_era.Ramps.Provider.{Provider, Registry, get}
use pay_era.Ramps.Store.{Store}
use pay_era.Ramps.Initiation.{
  InitiateArgs, Initiated, Ambient, is_verified, initiate, initiate_on_ramp, initiate_off_ramp,
}

-- How a request to start a ramp ends: refused, with no row or event written, where the caller's KYC
-- status is not known to be VERIFIED, the provider is not registered or does not take the request; or
-- it initiates a ramp with that provider.
pub data Gated (type : RampType) (takes : Provider → Bool) (registry : Registry)
    (kyc : Result KycStatus) (args : InitiateArgs) (env : Ambient) (s : Store)
    (out : Result Initiated × Store) : Type 0 where
  refused :
      (kyc ≡ ok KycStatus.verified
        → (p : Provider) → get args.provider_id registry ≡ ok p
        → takes p ≡ false)
      → is_ok out.0 ≡ false
      → out.1 ≡ s
      → Gated type takes registry kyc args env s out
  started :
      (p : Provider)
      → kyc ≡ ok KycStatus.verified
      → get args.provider_id registry ≡ ok p
      → takes p ≡ true
      → out ≡ initiate type p args env s
      → Gated type takes registry kyc args env s out

abbrev pub takes_off_ramp : InitiateArgs → Provider → Bool
takes_off_ramp args p = p.supports_off_ramp && truthy args.amount

is_verified_eq : (status : KycStatus) → is_verified status ≡ true → status ≡ KycStatus.verified
is_verified_eq KycStatus.verified e = refl
is_verified_eq KycStatus.unstarted e = ground arith
is_verified_eq KycStatus.pending e = ground arith
is_verified_eq KycStatus.rejected e = ground arith

initiate_on_ramp-Gated :
    (registry : Registry) (kyc : Result KycStatus) (args : InitiateArgs) (env : Ambient) (s : Store)
    → Gated RampType.onramp
        (λ p. p.supports_on_ramp)
        registry
        kyc
        args
        env
        s
        (initiate_on_ramp registry kyc args env s)
unfolding initiate_on_ramp
initiate_on_ramp-Gated registry (err e) args env s = refused (λ k. ground arith) refl refl
initiate_on_ramp-Gated registry (ok status) args env s = elim (Bool-cases (is_verified status)) [
  | inr closed ↦ refused (λ k. ground arith) (ground arith) (ground arith)
  | inl verified ↦ elim (Result-cases (get args.provider_id registry)) [
    | inr (e, unknown) ↦ refused (λ k p got. ground arith) (ground arith) (ground arith)
    | inl (p, got) ↦ elim (Bool-cases p.supports_on_ramp) [
      | inr unsupported ↦ refused (λ k q got_q. ground arith) (ground arith) (ground arith)
      | inl supported ↦
          started p (ap ok (is_verified_eq status verified)) got supported (ground arith)
    ]
  ]
]

initiate_off_ramp-Gated :
    (registry : Registry) (kyc : Result KycStatus) (args : InitiateArgs) (env : Ambient) (s : Store)
    → Gated RampType.offramp
        (takes_off_ramp args)
        registry
        kyc
        args
        env
        s
        (initiate_off_ramp registry kyc args env s)
unfolding initiate_off_ramp
initiate_off_ramp-Gated registry (err e) args env s = refused (λ k. ground arith) refl refl
initiate_off_ramp-Gated registry (ok status) args env s = elim (Bool-cases (is_verified status)) [
  | inr closed ↦ refused (λ k. ground arith) (ground arith) (ground arith)
  | inl verified ↦ elim (Result-cases (get args.provider_id registry)) [
    | inr (e, unknown) ↦ refused (λ k p got. ground arith) (ground arith) (ground arith)
    | inl (p, got) ↦ elim (Bool-cases (takes_off_ramp args p)) [
      | inr unsupported ↦ refused (λ k q got_q. ground arith) (ground arith) (ground arith)
      | inl supported ↦
          started p (ap ok (is_verified_eq status verified)) got supported (ground arith)
    ]
  ]
]

-- A ramp is started exactly for a caller whose KYC status is VERIFIED, with a registered provider
-- that supports the direction, and out of the platform only for a request that names an amount. Every
-- other request is refused and writes no row and no event.
pub initiate_gate :
    (registry : Registry) (kyc : Result KycStatus) (args : InitiateArgs) (env : Ambient) (s : Store)
    → Gated RampType.onramp
        (λ p. p.supports_on_ramp)
        registry
        kyc
        args
        env
        s
        (initiate_on_ramp registry kyc args env s)
      × Gated RampType.offramp
          (λ p. p.supports_off_ramp && truthy args.amount)
          registry
          kyc
          args
          env
          s
          (initiate_off_ramp registry kyc args env s)
initiate_gate registry kyc args env s = (
  initiate_on_ramp-Gated registry kyc args env s,
  initiate_off_ramp-Gated registry kyc args env s,
)

-- A request to start a ramp is refused and writes nothing, or it initiates one.
pub initiate_on_ramp_cases :
    (registry : Registry) (kyc : Result KycStatus) (args : InitiateArgs) (env : Ambient) (s : Store)
    → let out = initiate_on_ramp registry kyc args env s in
      (out.1 ≡ s) ⊎ ((p : Provider) × (out ≡ initiate RampType.onramp p args env s))
unfolding initiate_on_ramp
initiate_on_ramp_cases registry (err e) args env s = inl (ground arith)
initiate_on_ramp_cases registry (ok status) args env s =
    elim (Result-cases (get args.provider_id registry)) [
      | inr (e, unknown) ↦ inl (ground arith)
      | inl (p, got) ↦ elim (Bool-cases (is_verified status && p.supports_on_ramp)) [
        | inl open_gate ↦ inr (p, ground arith)
        | inr closed ↦ inl (ground arith)
      ]
    ]

pub initiate_off_ramp_cases :
    (registry : Registry) (kyc : Result KycStatus) (args : InitiateArgs) (env : Ambient) (s : Store)
    → let out = initiate_off_ramp registry kyc args env s in
      (out.1 ≡ s) ⊎ ((p : Provider) × (out ≡ initiate RampType.offramp p args env s))
unfolding initiate_off_ramp
initiate_off_ramp_cases registry (err e) args env s = inl (ground arith)
initiate_off_ramp_cases registry (ok status) args env s =
    elim (Result-cases (get args.provider_id registry)) [
      | inr (e, unknown) ↦ inl (ground arith)
      | inl (p, got) ↦
          elim (Bool-cases (is_verified status && p.supports_off_ramp && truthy args.amount)) [
            | inl open_gate ↦ inr (p, ground arith)
            | inr closed ↦ inl (ground arith)
          ]
    ]
