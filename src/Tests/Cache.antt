-- ===== src/Tests/Cache.antt =====
-- A cache that meets the laws.
use pay_era.Prelude.{
  ℕ, ◌+◌, ◌<◌, ◌≡◌, ◌≢◌, refl, ◌∙◌, true, Option, none, some, String, arith, ltb, str_eq, eq_iff,
  if◌then◌else◌,
}
use pay_era.Auth.Cache.{CacheManager}

abbrev Entries : Type 0
Entries = String → Option (String × ℕ)

abbrev lookup : ℕ → Option (String × ℕ) → Option String
lookup at none = none
lookup at (some (v, deadline)) = if ltb at deadline then some v else none

abbrev put : String → Option (String × ℕ) → Entries → Entries
put k e c j = if str_eq j k then e else c j

str_eq_refl : (k : String) → str_eq k k ≡ true
str_eq_refl k = (eq_iff k k).1 refl

pub lookup-put_other :
    (k j : String) (e : Option (String × ℕ)) (at : ℕ) (c : Entries)
    → j ≢ k
    → lookup at (put k e c j) ≡ lookup at (c j)
lookup-put_other k j e at c h = ground (arith, eq_iff j k)

pub lookup-put :
    (k : String) (e : Option (String × ℕ)) (at : ℕ) (c : Entries)
    → lookup at (put k e c k) ≡ lookup at e
lookup-put k e at c = ground (arith, str_eq_refl k)

pub lookup_early : (v : String) (at d : ℕ) → at < d → lookup at (some (v, d)) ≡ some v
lookup_early v at d h = ground arith

pub lookup_late : (v : String) (at d : ℕ) → d < at → lookup at (some (v, d)) ≡ none
lookup_late v at d h = ground arith

abbrev pub cache : CacheManager
cache = record {
  State = Entries;
  get = λ k at c. lookup at (c k);
  set = λ k v ttl now c. put k (some (v, now + ttl)) c;
  del = λ k c. put k none c;
  get-set = λ k v ttl now at c early.
      lookup-put k (some (v, now + ttl)) at c ∙ lookup_early v at (now + ttl) early;
  get-set_expired = λ k v ttl now at c late.
      lookup-put k (some (v, now + ttl)) at c ∙ lookup_late v at (now + ttl) late;
  get-set_other = λ k j v ttl now at c h. lookup-put_other k j (some (v, now + ttl)) at c h;
  get-del = λ k at c. lookup-put k none at c;
  get-del_other = λ k j at c h. lookup-put_other k j none at c h;
}
