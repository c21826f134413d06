-- ===== src/Prelude/Table.antt =====
-- The queries of the database client on one table, a list of rows in the order of insertion. A
-- row's key is a number: ids are only compared.
use Prim.Native.Nat.{zero, suc, ℕ, ◌<◌, ◌+◌}
use mathlib.Core.Path.{◌≡◌, refl}
use mathlib.Core.Logic.{◌≢◌, inl, inr}
use mathlib.Core.Bool.{Bool}
use mathlib.Core.Option.{Option, none, some}
use mathlib.Core.List.{List, [], ◌∷◌, ◌++◌}
use native.Mathlib.Omega.{arith}
use pay_era.Prelude.Tests.{◌==◌, if◌then◌else◌, Bool-cases, ==_refl}
use pay_era.Prelude.Lists.{All, All-append, All-map, All-filter, All-take, All-both, filter, take}

module _ {R : Type 0} where
  -- `findFirst({ where })`
  abbrev pub find_first : (R → Bool) → List R → Option R
  find_first p [] = none
  find_first p (r ∷ rs) = if p r then some r else find_first p rs

  -- `updateMany({ where, data })`
  abbrev pub update_many : (R → Bool) → (R → R) → List R → List R
  update_many p f [] = []
  update_many p f (r ∷ rs) = (if p r then f r else r) ∷ update_many p f rs

  -- A row that is found stays found when rows are added.
  pub find_first-append :
      (p : R → Bool) (rs ys : List R) {r : R}
      → find_first p rs ≡ some r
      → find_first p (rs ++ ys) ≡ some r
  find_first-append p [] ys e = cc
  find_first-append p (x ∷ rs) ys {r} e = ground (arith, find_first-append p rs ys {r = r})

  -- A read by what an update does not touch finds the same row, updated where it is selected.
  pub find_first-update_kept :
      (q p : R → Bool) (f : R → R) (rs : List R)
      → ((r : R) → q (f r) ≡ q r)
      → find_first q (update_many p f rs)
        ≡ (elim (find_first q rs) [ none ↦ none | some r ↦ some (if p r then f r else r) ])
  find_first-update_kept q p f [] same = refl
  find_first-update_kept q p f (r ∷ rs) same =
      ground (arith, same r, find_first-update_kept q p f rs same)

  -- The row that is found passes the test.
  pub find_first_holds :
      (p : R → Bool) (rs : List R) (r : R) → find_first p rs ≡ some r → p r ≡ Bool.true
  find_first_holds p [] r e = ground arith
  find_first_holds p (x ∷ rs) r e = ground (arith, find_first_holds p rs r)

  -- A row that is found is there for any weaker test too.
  pub find_first-weaker :
      (p q : R → Bool) (rs : List R) {r : R}
      → find_first p rs ≡ some r
      → q r ≡ Bool.true
      → (x : R) × (find_first q rs ≡ some x)
  find_first-weaker p q [] e h = ground arith
  find_first-weaker p q (x ∷ rs) {r} e h = elim (Bool-cases (q x)) [
    | inl own ↦ (x, rw own)
    | inr other ↦
        let (y, found) = find_first-weaker p q rs {r = r} (ground arith) h in (y, rw other found)
  ]

  -- The keys of the rows lie below the next key that is given out.
  abbrev pub IsBelow : (R → ℕ) → ℕ → List R → Type 0
  IsBelow key n = All (λ r. key r < n)

  module _ (key : R → ℕ) where
    pub find_first-append_fresh :
        (n : ℕ) (rs : List R) (r : R)
        → IsBelow key n rs
        → key r ≡ n
        → find_first (λ x. key x == n) (rs ++ r ∷ []) ≡ some r
    find_first-append_fresh n [] r h e = ground arith
    find_first-append_fresh n (x ∷ rs) r h e = ground (arith, find_first-append_fresh n rs r h.1 e)

    pub update_many-append_fresh :
        (n : ℕ) (f : R → R) (rs : List R) (r : R)
        → IsBelow key n rs
        → key r ≡ n
        → update_many (λ x. key x == n) f (rs ++ r ∷ []) ≡ rs ++ f r ∷ []
    update_many-append_fresh n f [] r h e = ground arith
    update_many-append_fresh n f (x ∷ rs) r h e =
        ground (arith, update_many-append_fresh n f rs r h.1 e)

    pub find_first-key :
        (n : ℕ) (rs : List R) (r : R) → find_first (λ x. key x == n) rs ≡ some r → key r ≡ n
    find_first-key n [] r e = ground arith
    find_first-key n (x ∷ rs) r e = ground (arith, find_first-key n rs r)

    -- Reading back a row that was updated by its key.
    pub find_first-update_many :
        (n m : ℕ) (f : R → R) (rs : List R)
        → ((r : R) → key (f r) ≡ key r)
        → find_first (λ x. key x == m) (update_many (λ x. key x == n) f rs) ≡ (
            if n == m
            then elim (find_first (λ x. key x == m) rs) [ none ↦ none | some r ↦ some (f r) ]
            else find_first (λ x. key x == m) rs)
    find_first-update_many n m f [] h = ground arith
    find_first-update_many n m f (x ∷ rs) h = ground (arith, h x, find_first-update_many n m f rs h)

    abbrev pub IsDistinct : List R → Type 0
    IsDistinct [] = Unit
    IsDistinct (r ∷ rs) = All (λ x. key x ≢ key r) rs × IsDistinct rs

    -- No two rows share a key, and the next key is free.
    pub record IsKeyed (n : ℕ) (rs : List R) : Type 0 where
      pub below : IsBelow key n rs
      pub distinct : IsDistinct rs

    All-append_one {κ} :
        (P : R → Type κ) (rs : List R) (r : R) → All P rs → P r → All P (rs ++ r ∷ [])
    All-append_one P rs r h p = All-append P rs (r ∷ []) h (p, tt)

    pub All-update_many {κ} :
        (P : R → Type κ) (p : R → Bool) (f : R → R) (rs : List R)
        → ((r : R) → P r → P (f r))
        → All P rs
        → All P (update_many p f rs)
    All-update_many P p f [] keep h = tt
    All-update_many P p f (r ∷ rs) keep h = elim (Bool-cases (p r)) [
      | inl e ↦ rw e (keep r h.0, All-update_many P p f rs keep h.1)
      | inr e ↦ rw e (h.0, All-update_many P p f rs keep h.1)
    ]

    IsDistinct-append :
        (n : ℕ) (rs : List R) (r : R)
        → IsBelow key n rs
        → IsDistinct rs
        → key r ≡ n
        → IsDistinct (rs ++ r ∷ [])
    IsDistinct-append n [] r b d e = (tt, tt)
    IsDistinct-append n (x ∷ rs) r b d e = (
      All-append_one (λ y. key y ≢ key x) rs r d.0 (omega arith),
      IsDistinct-append n rs r b.1 d.1 e,
    )

    pub IsDistinct-update :
        (p : R → Bool) (f : R → R) (rs : List R)
        → ((r : R) → key (f r) ≡ key r)
        → IsDistinct rs
        → IsDistinct (update_many p f rs)
    IsDistinct-update p f [] same d = tt
    IsDistinct-update p f (r ∷ rs) same d =
        let apart = All-update_many (λ y. key y ≢ key r) p f rs (λ y h. rw (same y) h) d.0 in
        elim (Bool-cases (p r)) [
          | inl e ↦ rw (e, same r) (apart, IsDistinct-update p f rs same d.1)
          | inr e ↦ rw e (apart, IsDistinct-update p f rs same d.1)
        ]

    pub IsKeyed-append :
        (n : ℕ) (rs : List R) (r : R) → IsKeyed n rs → key r ≡ n → IsKeyed (n + 1) (rs ++ r ∷ [])
    IsKeyed-append n rs r h e = record {
      below =
          All-append_one (λ x. key x < n + 1) rs r
            (All-map (λ x. key x < n) (λ x. key x < n + 1) (λ x k. omega arith) rs h.below)
            (omega arith);
      distinct = IsDistinct-append n rs r h.below h.distinct e;
    }

    pub IsKeyed-update :
        (n : ℕ) (p : R → Bool) (f : R → R) (rs : List R)
        → ((r : R) → key (f r) ≡ key r)
        → IsKeyed n rs
        → IsKeyed n (update_many p f rs)
    IsKeyed-update n p f rs same h = record {
      below = All-update_many (λ x. key x < n) p f rs (λ x k. rw (same x) k) h.below;
      distinct = IsDistinct-update p f rs same h.distinct;
    }

    -- An update by a key that no row has changes nothing.
    pub update_many-absent :
        (n : ℕ) (f : R → R) (rs : List R)
        → All (λ x. key x ≢ n) rs
        → update_many (λ x. key x == n) f rs ≡ rs
    update_many-absent n f [] h = refl
    update_many-absent n f (x ∷ rs) h = ground (arith, update_many-absent n f rs h.1)

    -- Where keys are distinct, an update by key meets only the row that a read by key finds.
    pub All-update_one {κ} :
        (P : R → Type κ) (n : ℕ) (f : R → R) (rs : List R) {r : R}
        → IsDistinct rs
        → find_first (λ x. key x == n) rs ≡ some r
        → P (f r)
        → All P rs
        → All P (update_many (λ x. key x == n) f rs)
    All-update_one P n f [] d e p h = tt
    All-update_one P n f (x ∷ rs) {r} d e p h = elim (Bool-cases (key x == n)) [
      | inl own ↦
          let key_x : key x ≡ n = ground arith in
          let x-eq : x ≡ r = ground arith in
          rw (own, update_many-absent n f rs (rw key_x at d.0), x-eq) (p, h.1)
      | inr other ↦ rw other (h.0, All-update_one P n f rs d.1 (ground arith) p h.1)
    ]

    -- The row that a read by key finds has what all rows have.
    pub All-find_first {κ} :
        (P : R → Type κ) (p : R → Bool) (rs : List R) {r : R}
        → All P rs
        → find_first p rs ≡ some r
        → P r
    All-find_first P p [] h e = cc
    All-find_first P p (x ∷ rs) {r} h e = elim (Bool-cases (p x)) [
      | inl own ↦ let x-eq : x ≡ r = ground arith in rw (← x-eq) h.0
      | inr other ↦ All-find_first P p rs h.1 (ground arith)
    ]

    -- Where keys are distinct, every row is the one that is found under its key.
    pub find_first_self :
        (rs : List R) → IsDistinct rs → All (λ r. find_first (λ x. key x == key r) rs ≡ some r) rs
    find_first_self [] d = tt
    find_first_self (x ∷ rs) d = (
      ground (arith, ==_refl (key x)),
      All-map (λ r. (key r ≢ key x) × (find_first (λ y. key y == key r) rs ≡ some r))
          (λ r. find_first (λ y. key y == key r) (x ∷ rs) ≡ some r) (λ r h. ground (arith, h)) rs
          (All-both (λ r. key r ≢ key x) (λ r. find_first (λ y. key y == key r) rs ≡ some r) rs d.0
            (find_first_self rs d.1)),
    )

    pub IsDistinct-filter : (p : R → Bool) (rs : List R) → IsDistinct rs → IsDistinct (filter p rs)
    IsDistinct-filter p [] d = tt
    IsDistinct-filter p (x ∷ rs) d = elim (Bool-cases (p x)) [
      | inl e ↦ rw e (All-filter (λ y. key y ≢ key x) p rs d.0, IsDistinct-filter p rs d.1)
      | inr e ↦ rw e (IsDistinct-filter p rs d.1)
    ]

    pub IsDistinct-take : (n : ℕ) (rs : List R) → IsDistinct rs → IsDistinct (take n rs)
    IsDistinct-take zero rs d = tt
    IsDistinct-take (suc n) [] d = tt
    IsDistinct-take (suc n) (x ∷ rs) d =
        (All-take (λ y. key y ≢ key x) n rs d.0, IsDistinct-take n rs d.1)
