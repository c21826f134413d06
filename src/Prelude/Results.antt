-- ===== src/Prelude/Results.antt =====
-- Calls that may throw, over a store. What was written before an exception stays written, as it
-- does in the program where no database transaction is open.
use Prim.Native.String.{String}
use mathlib.Core.Path.{◌≡◌, refl, ap}
use mathlib.Core.Logic.{◌⊎◌, inl, inr}
use mathlib.Core.Bool.{Bool, true, false}
use mathlib.Core.Option.{Option, none, some}
use pay_era.Prelude.Tests.{if◌then◌else◌}

-- The exceptions of `@nestjs/common` that the services throw, `Error`, and the database client's
-- "record not found" (code P2025), "unique constraint failed" (code P2002) and "foreign key
-- constraint failed" (code P2003).
pub data Exception : Type 0 where
  bad_request unauthorized forbidden not_found failure : String → Exception
  no_record unique_violation key_violation : Exception

pub data Result {ℓ} (A : Type ℓ) : Type ℓ where
  ok : A → Result A
  err : Exception → Result A

abbrev pub is_ok {ℓ} : {A : Type ℓ} → Result A → Bool
is_ok (ok _) = true
is_ok (err _) = false

-- `err.message`
abbrev pub message : Exception → String
message (bad_request m) = m
message (unauthorized m) = m
message (forbidden m) = m
message (not_found m) = m
message (failure m) = m
message no_record = "Record not found"
message unique_violation = "Unique constraint failed"
message key_violation = "Foreign key constraint failed"

abbrev pub Action : Type 0 → Type 0 → Type 0
Action S A = S → Result A × S

module _ {S A : Type 0} where
  abbrev pub pure : A → Action S A
  pure a s = (ok a, s)

  abbrev pub raise : Exception → Action S A
  raise e s = (err e, s)

  abbrev pub gets : (S → A) → Action S A
  gets f s = (ok (f s), s)

  -- A call that does not touch the store.
  abbrev pub lift : Result A → Action S A
  lift r s = (r, s)

  abbrev pub or_raise : Option A → Exception → Action S A
  or_raise none e s = (err e, s)
  or_raise (some a) _ s = (ok a, s)

  -- `try { … } catch (err) { … }`
  abbrev pub try_catch : Action S A → (Exception → Action S A) → Action S A
  try_catch m h s = let (r, s') = m s in elim r [ ok a ↦ (ok a, s') | err e ↦ h e s' ]

  -- `$transaction`: an exception inside undoes what was written inside.
  abbrev pub transaction : Action S A → Action S A
  transaction m s = let (r, s') = m s in elim r [ ok a ↦ (ok a, s') | err e ↦ (err e, s) ]

infixl 5 ◌>>=◌ ◌>>◌
abbrev pub ◌>>=◌ : {S A B : Type 0} → Action S A → (A → Action S B) → Action S B
◌>>=◌ m f s = let (r, s') = m s in elim r [ ok a ↦ f a s' | err e ↦ (err e, s') ]

abbrev pub ◌>>◌ : {S A B : Type 0} → Action S A → Action S B → Action S B
m >> k = m >>= λ _. k

abbrev pub raise_if : {S : Type 0} → Bool → Exception → Action S (Unit {0})
raise_if c e s = (if c then err e else ok tt, s)

abbrev pub modify : {S : Type 0} → (S → S) → Action S (Unit {0})
modify f s = (ok tt, f s)

pub Result-cases {ℓ} :
    {A : Type ℓ} (r : Result A) → ((a : A) × (r ≡ ok a)) ⊎ ((e : Exception) × (r ≡ err e))
Result-cases (ok a) = inl (a, refl)
Result-cases (err e) = inr (e, refl)

-- A sequence of calls, where the outcome of the first is known.
module _ {S A B : Type 0} (m : Action S A) (f : A → Action S B) (s : S) where
  after : Result A × S → Result B × S
  after x = elim x.0 [ ok a ↦ f a x.1 | err e ↦ (err e, x.1) ]

  pub bind_ok : (a : A) (t : S) → m s ≡ (ok a, t) → (m >>= f) s ≡ f a t
  unfolding after
  bind_ok a t h = ap after h

  pub bind_err : (e : Exception) (t : S) → m s ≡ (err e, t) → (m >>= f) s ≡ (err e, t)
  unfolding after
  bind_err e t h = ap after h

module _ {S A : Type 0} (m : Action S A) (s : S) where
  closed : Result A × S → Result A × S
  closed x = elim x.0 [ ok a ↦ (ok a, x.1) | err e ↦ (err e, s) ]

  pub transaction_ok : (a : A) (t : S) → m s ≡ (ok a, t) → transaction m s ≡ (ok a, t)
  unfolding closed
  transaction_ok a t h = ap closed h
