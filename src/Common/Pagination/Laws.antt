-- ===== src/Common/Pagination/Laws.antt =====
-- The pages of a query, one after another, and the meta of a response.
use pay_era.Prelude.{
  ℕ, zero, suc, ◌+◌, ◌-◌, ◌*◌, ◌≤◌, ◌<◌, ◌≡◌, ◌↔◌, refl, true, none, some, List, [], ◌∷◌, ◌++◌,
  take, drop, length, dec_lt, arith, append-nil, append_assoc,
}
use native.Mathlib.Nat.{div-add-mod, mod-lt}
use pay_era.Common.Pagination.{to_pagination, list_page, ceil_div, intercept}

module _ {A : Type 0} where
  length-drop : (n : ℕ) (xs : List A) → length (drop n xs) ≡ length xs - n
  length-drop zero xs = omega arith
  length-drop (suc n) [] = omega arith
  length-drop (suc n) (x ∷ xs) = omega (arith, length-drop n xs)

  -- Pages `from` to `from + n - 1`, one after another.
  abbrev pub pages : ℕ → ℕ → ℕ → List A → List A
  pages limit from zero rows = []
  pages limit from (suc n) rows = list_page from limit rows ++ pages limit (from + 1) n rows

  take-append-drop : (n : ℕ) (xs : List A) → take n xs ++ drop n xs ≡ xs
  take-append-drop zero xs = refl
  take-append-drop (suc n) [] = refl
  take-append-drop (suc n) (x ∷ xs) = rw (take-append-drop n xs)

  drop-drop : (m n : ℕ) (xs : List A) → drop n (drop m xs) ≡ drop (m + n) xs
  drop-drop zero n xs = let e : 0 + n ≡ n = omega arith in rw e refl
  drop-drop (suc m) zero [] = let e : suc m + 0 ≡ suc m = omega arith in rw e refl
  drop-drop (suc m) (suc n) [] = let e : suc m + suc n ≡ suc (m + suc n) = omega arith in rw e refl
  drop-drop (suc m) n (x ∷ xs) =
      let e : suc m + n ≡ suc (m + n) = omega arith in rw e (drop-drop m n xs)

  drop-all : (n : ℕ) (xs : List A) → length xs ≤ n → drop n xs ≡ []
  drop-all zero [] h = refl
  drop-all zero (x ∷ xs) h = absurd (omega arith)
  drop-all (suc n) [] h = refl
  drop-all (suc n) (x ∷ xs) h = drop-all n xs (omega arith)

  -- The pages from number `k + 1` on are what is left behind the first `k` pages.
  pages-from :
      (limit k n : ℕ) (rows : List A)
      → pages limit (k + 1) n rows ++ drop ((k + n) * limit) rows ≡ drop (k * limit) rows
  unfolding list_page to_pagination
  pages-from limit k zero rows = let e : k + 0 ≡ k = omega arith in rw e refl
  pages-from limit k (suc n) rows =
      let this = k * limit in
      let e : this + limit ≡ (k + 1) * limit = grind arith in
      let f : k + suc n ≡ k + 1 + n = omega arith in
      let g : k + 1 - 1 ≡ k = omega arith in
      let later = pages-from limit (k + 1) n rows in
      let split = take-append-drop limit (drop this rows) in
      let skipped = drop-drop this limit rows in
      rw (f, append_assoc, later, g, ← e, ← skipped) split

ceil_div-le : (n l : ℕ) → 0 < l → n ≤ ceil_div n l * l
ceil_div-le n l h = grind (arith, div-add-mod (n + l - 1) l, mod-lt (n + l - 1) h)

mul_le : (p q l : ℕ) → p < q → p * l + l ≤ q * l
mul_le p q l h = grind arith

mul_le' : (p q l : ℕ) → p ≤ q → p * l ≤ q * l
mul_le' p q l h = grind arith

lt-ceil_div_iff : (p n l : ℕ) → 0 < l → (p < ceil_div n l) ↔ (p * l < n)
lt-ceil_div_iff p n l h = (
  λ (k : p < ceil_div n l).
      grind (arith, div-add-mod (n + l - 1) l, mod-lt (n + l - 1) h, mul_le p (ceil_div n l) l k),
  λ (k : p * l < n). elim (dec_lt p (ceil_div n l)) [
    | yes below ↦ below
    | no above ↦
        absurd
          (grind (arith, ceil_div-le n l h, mul_le' (ceil_div n l) p l (omega (arith, above)), k))
  ],
)

module _ {A : Type 0} where
  -- With as many pages as the response's `meta` counts, the pages are the rows, each row once and
  -- in order.
  pub list_page-concat :
      (limit : ℕ) (rows : List A)
      → 0 < limit
      → pages limit 1 (intercept none (some limit) (length rows)).total_pages rows ≡ rows
  unfolding intercept
  list_page-concat limit rows pos =
      let all = pages-from limit 0 (ceil_div (length rows) limit) rows in
      let none_left : drop ((0 + ceil_div (length rows) limit) * limit) rows ≡ [] =
        drop-all _ rows (let m = ceil_div-le (length rows) limit pos in grind (arith, m)) in
      let o : 0 + 1 ≡ 1 = omega arith in
      let z : 0 * limit ≡ 0 = omega arith in rw (none_left, append-nil, z) at all

-- A response says that there is a next page exactly where rows are left behind this one, and a
-- previous page exactly where this is not the first.
pub intercept_iff :
    (page limit total : ℕ)
    → 0 < limit
    → let meta = intercept (some page) (some limit) total in
      ((meta.has_next_page ≡ true) ↔ (page * limit < total))
      × ((meta.has_previous_page ≡ true) ↔ (1 < page))
unfolding intercept
intercept_iff page limit total pos =
    let (to, from) = lt-ceil_div_iff page total limit pos in
    ((λ h. to (ground arith), λ h. let k = from h in ground arith), ground arith)
