-- ===== src/Prelude/Trail.antt =====
-- Event logs that are numbered per owner: every event of a table names its owner (a payment or a
-- ramp) and a sequence number, and a new event takes the owner's largest number plus one.
use Prim.Native.Nat.{ℕ, suc, ◌+◌, max}
use mathlib.Core.Path.{◌≡◌, refl, ◌∙◌}
use mathlib.Core.Logic.{inl, inr}
use mathlib.Core.List.{List, [], ◌∷◌, ◌++◌, append-nil}
use native.Mathlib.Omega.{arith}
use pay_era.Prelude.Tests.{◌==◌, if◌then◌else◌, Bool-cases}
use pay_era.Prelude.Table.{IsBelow}
use pay_era.Prelude.Lists.{length, filter, filter-append}

module _ {E : Type 0} (owner sequence : E → ℕ) where
  -- The events of one owner.
  abbrev pub trail : ℕ → List E → List E
  trail id = filter (λ e. owner e == id)

  -- The largest number among an owner's events, 0 if there are none.
  abbrev pub max_sequence : ℕ → List E → ℕ
  max_sequence id [] = 0
  max_sequence id (e ∷ es) =
      if owner e == id then max (sequence e) (max_sequence id es) else max_sequence id es

  -- Numbers count up by one from `n`.
  abbrev pub IsNumbered : ℕ → List E → Type 0
  IsNumbered n [] = Unit
  IsNumbered n (e ∷ es) = (sequence e ≡ n) × IsNumbered (suc n) es

  -- Each owner's events are numbered 1, 2, 3, … in the order in which they were written.
  abbrev pub IsOrdered : List E → Type 0
  IsOrdered es = (id : ℕ) → IsNumbered 1 (trail id es)

  IsNumbered-append :
      (n : ℕ) (es : List E) (e : E)
      → IsNumbered n es
      → sequence e ≡ n + length es
      → IsNumbered n (es ++ e ∷ [])
  IsNumbered-append n [] e h k = (omega arith, tt)
  IsNumbered-append n (x ∷ es) e h k = (h.0, IsNumbered-append (suc n) es e h.1 (omega arith))

  max_trail : List E → ℕ
  max_trail [] = 0
  max_trail (e ∷ es) = max (sequence e) (max_trail es)

  max_trail-numbered :
      (n : ℕ) (es : List E)
      → IsNumbered n es
      → max_trail es ≡ (elim es [ [] ↦ 0 | x ∷ xs ↦ n + length xs ])
  unfolding max_trail
  max_trail-numbered n [] h = refl
  max_trail-numbered n (x ∷ []) h = omega arith
  max_trail-numbered n (x ∷ y ∷ es) h = omega (arith, max_trail-numbered (suc n) (y ∷ es) h.1)

  max_trail-length : (es : List E) → IsNumbered 1 es → max_trail es ≡ length es
  unfolding max_trail
  max_trail-length [] h = refl
  max_trail-length (x ∷ es) h = omega (arith, max_trail-numbered 1 (x ∷ es) h)

  max_sequence-trail : (id : ℕ) (es : List E) → max_sequence id es ≡ max_trail (trail id es)
  unfolding max_trail
  max_sequence-trail id [] = refl
  max_sequence-trail id (e ∷ es) = ground (arith, max_sequence-trail id es)

  -- In an ordered log the next number of an owner is the length of its trail plus one.
  pub max_sequence-eq-length :
      (id : ℕ) (es : List E) → IsOrdered es → max_sequence id es ≡ length (trail id es)
  max_sequence-eq-length id es h = max_sequence-trail id es ∙ max_trail-length (trail id es) (h id)

  -- Writing one more event with the next number keeps the log ordered.
  pub append-IsOrdered :
      (es : List E) (e : E)
      → IsOrdered es
      → sequence e ≡ max_sequence (owner e) es + 1
      → IsOrdered (es ++ e ∷ [])
  append-IsOrdered es e h k id = elim (Bool-cases (owner e == id)) [
    | inl own ↦
        rw (filter-append, own)
          (IsNumbered-append 1 (trail id es) e (h id)
            (ground (arith, max_sequence-eq-length (owner e) es h)))
    | inr other ↦ rw (filter-append, other, append-nil) (h id)
  ]

  -- An owner without events starts at 0.
  pub max_sequence-fresh : (n : ℕ) (es : List E) → IsBelow owner n es → max_sequence n es ≡ 0
  max_sequence-fresh n [] h = refl
  max_sequence-fresh n (e ∷ es) h = ground (arith, max_sequence-fresh n es h.1)

  pub max_sequence-append :
      (n : ℕ) (es : List E) (e : E)
      → max_sequence n (es ++ e ∷ [])
        ≡ (if owner e == n then max (max_sequence n es) (sequence e) else max_sequence n es)
  max_sequence-append n [] e = ground arith
  max_sequence-append n (x ∷ es) e = ground (arith, max_sequence-append n es e)

  -- The first event of an owner that has none is its whole trail.
  pub trail-append_fresh :
      (n : ℕ) (es : List E) (e : E)
      → IsBelow owner n es
      → owner e ≡ n
      → trail n (es ++ e ∷ []) ≡ e ∷ []
  trail-append_fresh n [] e h k = ground arith
  trail-append_fresh n (x ∷ es) e h k = ground (arith, trail-append_fresh n es e h.1 k)

  -- An owner's trail grows by an event of its own.
  pub trail-append :
      (n : ℕ) (es : List E) (e : E) → owner e ≡ n → trail n (es ++ e ∷ []) ≡ trail n es ++ e ∷ []
  trail-append n [] e k = ground arith
  trail-append n (x ∷ es) e k = ground (arith, trail-append n es e k)
