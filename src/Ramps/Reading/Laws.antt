-- ===== src/Ramps/Reading/Laws.antt =====
-- What a user reads of the ramps.
use pay_era.Prelude.{
  Bool, subst, ℕ, zero, suc, ◌+◌, ◌*◌, ◌≤◌, ◌<◌, ◌≡◌, refl, sym, ap, ◌∙◌, inl, inr, true, ◌&&◌,
  Option, none, some, List, [], ◌∷◌, ◌++◌, map, String, ok, arith, str_eq, eq_iff, ◌==◌, max, leb,
  All, filter, length, take, drop, Option-cases, length-take-le,
}
use mathlib.Core.List.{Perm}
use pay_era.Prelude.Table.{find_first}
use pay_era.Prelude.Sort.{sort_by, sort_by-Perm, length-sort_by}
use pay_era.Common.Pagination.{to_pagination, list_page, intercept, ceil_div}
use pay_era.Common.Pagination.Laws.{pages, list_page-concat}
use pay_era.Ramps.Provider.{Registry, register, list_ids, get}
use pay_era.Ramps.Provider.Laws.{register-Resolves}
use pay_era.Ramps.Store.{Ramp, Store}
use pay_era.Ramps.Reading.{
  describe, describe_each, list_providers, RampView, serialize, get_ramp, own_ramps, page_size,
  list_ramps,
}

find_first_sound :
    (p : Ramp → Bool) (rs : List Ramp) {r : Ramp} → find_first p rs ≡ some r → p r ≡ true
find_first_sound p [] e = ground (arith, e)
find_first_sound p (x ∷ rs) {r} e = ground (arith, find_first_sound p rs {r = r})

-- `getRamp` shows a ramp only to the user whose ramp it is, and only the ramp with the public id
-- that was asked for.
pub get_ramp-own :
    (user : ℕ) (public_id : String) (s : Store) (v : RampView)
    → get_ramp user public_id s ≡ ok v
    → (r : Ramp) × (v ≡ serialize r) × (r.user_id ≡ user) × (r.public_id ≡ public_id)
unfolding get_ramp
get_ramp-own user public_id s v e =
    elim (Option-cases
      (find_first (λ r. str_eq r.public_id public_id && r.user_id == user) s.ramps)) [
        | inl missing ↦ absurd (ground (arith, e))
        | inr (r, found) ↦
            let p =
              find_first_sound (λ r. str_eq r.public_id public_id && r.user_id == user) s.ramps
                found in
            (r, ground arith, ground arith, ground (arith, eq_iff r.public_id public_id))
      ]

-- The pages `from`, `from + 1`, …, as `listRamps` serves them.
abbrev pub served : ℕ → Option ℕ → ℕ → ℕ → Store → List RampView
served user limit? from zero s = []
served user limit? from (suc n) s =
    (list_ramps user (some from) limit? s).items ++ served user limit? (from + 1) n s

map-append : (xs ys : List Ramp) → map serialize (xs ++ ys) ≡ map serialize xs ++ map serialize ys
map-append [] ys = refl
map-append (x ∷ xs) ys = ap (λ r. serialize x ∷ r) (map-append xs ys)

served-pages :
    (user : ℕ) (limit? : Option ℕ) (from n : ℕ) (s : Store)
    → 0 < from
    → served user limit? from n s
      ≡ map serialize (pages (page_size limit?) from n (own_ramps user s))
unfolding list_ramps list_page to_pagination
served-pages user limit? from zero s h = refl
served-pages user limit? from (suc n) s h =
    let same : max from 1 ≡ from = omega arith in
    let rest = served-pages user limit? (from + 1) n s (omega arith) in
    rw (same, rest) (sym (map-append _ _))

length-map : (xs : List Ramp) → length (map serialize xs) ≡ length xs
length-map [] = refl
length-map (x ∷ xs) = ap suc (length-map xs)

-- However many ramps a user has and whatever page size is asked for, the pages that `listRamps`
-- counts are the user's ramps, newest first: read one after another they show every one of them
-- exactly once and no other user's. A page has at most a hundred.
pub list_ramps-pages :
    (user : ℕ) (limit? : Option ℕ) (s : Store)
    → let rows = own_ramps user s in
      (served user limit? 1 (list_ramps user none limit? s).page_count s ≡ map serialize rows)
      × Perm rows (filter (λ r. r.user_id == user) s.ramps)
      × (length (list_ramps user none limit? s).items ≤ 100)
unfolding list_ramps own_ramps intercept
list_ramps-pages user limit? s =
    let own = filter (λ r. r.user_id == user) s.ramps in
    let sorted = sort_by-Perm (λ (a b : Ramp). leb b.created_at a.created_at) own in
    let rows = sort_by (λ (a b : Ramp). leb b.created_at a.created_at) own in
    let size = page_size limit? in
    let same = length-sort_by (λ (a b : Ramp). leb b.created_at a.created_at) own in
    let whole = list_page-concat size rows (omega arith) in
    let served_all = served-pages user limit? 1 (ceil_div (length own) size) s (omega arith) in
    let counted : ceil_div (length rows) size ≡ ceil_div (length own) size =
      ap (λ n. ceil_div n size) same in
    let page = drop (0 * size) rows in
    let short = length-take-le size page in
    (
      served_all ∙ ap (map serialize) (subst (λ n. pages size 1 n rows ≡ rows) counted whole),
      sorted,
      omega (arith, length-map (take size page), short),
    )

describe_each-map :
    (registry ps : Registry)
    → All (λ p. get p.id registry ≡ ok p) ps
    → describe_each registry (map (λ p. p.id) ps) ≡ ok (map (λ p. describe p.id p) ps)
unfolding describe_each
describe_each-map registry [] h = refl
describe_each-map registry (p ∷ ps) h = ground (arith, h.0, describe_each-map registry ps h.1)

-- With the registry that the application builds, listing the providers never throws: it shows every
-- provider that was registered, in that order, with its own capabilities.
pub list_providers-registered :
    (ps out : Registry)
    → register ps ≡ ok out
    → list_providers out ≡ ok (map (λ p. describe p.id p) ps)
unfolding list_providers list_ids
list_providers-registered ps out e =
    let (same, all, _) = register-Resolves ps out e in
    subst (λ qs. list_providers out ≡ ok (map (λ p. describe p.id p) qs)) same
      (describe_each-map out out all)
