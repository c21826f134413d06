-- ===== src/Ramps/Provider/Laws.antt =====
-- What the registry resolves for an id: apps/api/src/ramps/providers/ramp-provider.registry.ts.
use pay_era.Prelude.{
  ◌≡◌, ◌∙◌, refl, true, false, [], ◌∷◌, ◌++◌, String, ok, str_eq, eq_iff, arith, All, All-append,
  All-map, append-nil, append_assoc, Bool-cases, inl, inr, if◌then◌else◌,
}
use pay_era.Ramps.Provider.{Provider, Registry, has, register_from, register, get}

-- Every provider is found under its own id.
abbrev pub Resolves : Registry → Registry → Type 0
Resolves r = All (λ p. get p.id r ≡ ok p)

get-append :
    (r : Registry) (p : Provider) (id : String)
    → has p.id r ≡ false
    → get id (r ++ p ∷ [])
      ≡ (if has id r then get id r else if str_eq p.id id then ok p else get id [])
unfolding get has
get-append [] p id h = ground arith
get-append (x ∷ r) p id h = ground (arith, get-append r p id)

get-id : (r : Registry) (id : String) {p : Provider} → get id r ≡ ok p → p.id ≡ id
unfolding get
get-id [] id e = ground arith
get-id (x ∷ r) id {p} e = ground (arith, get-id r id {p = p}, eq_iff x.id id)

has-append :
    (r : Registry) (p : Provider) (id : String)
    → has id (r ++ p ∷ []) ≡ (if has id r then true else str_eq p.id id)
unfolding has
has-append [] p id = ground arith
has-append (x ∷ r) p id = ground (arith, has-append r p id)

has_of_get : (r : Registry) (id : String) {p : Provider} → get id r ≡ ok p → has id r ≡ true
unfolding get has
has_of_get [] id e = ground arith
has_of_get (x ∷ r) id {p} e = ground (arith, has_of_get r id {p = p})

Resolves-append :
    (r : Registry) (p : Provider)
    → has p.id r ≡ false
    → Resolves r r
    → Resolves (r ++ p ∷ []) (r ++ p ∷ [])
Resolves-append r p new h =
    All-append (λ q. get q.id (r ++ p ∷ []) ≡ ok q) r (p ∷ [])
      (All-map (λ q. get q.id r ≡ ok q) (λ q. get q.id (r ++ p ∷ []) ≡ ok q)
        (λ q e. ground (arith, get-append r p q.id new, has_of_get r q.id {p = q})) r h)
      (ground (arith, get-append r p p.id new, eq_iff p.id p.id), tt)

register_from-Resolves :
    (r ps : Registry) {out : Registry}
    → Resolves r r
    → register_from r ps ≡ ok out
    → (out ≡ r ++ ps) × Resolves out out
unfolding register_from
register_from-Resolves r [] {out} h e =
    let same : r ≡ out = ground arith in rw (append-nil, ← same) (refl, h)
register_from-Resolves r (p ∷ ps) {out} h e = elim (Bool-cases (has p.id r)) [
  | inl old ↦ absurd (ground arith)
  | inr new ↦
      let (same, all) =
        register_from-Resolves (r ++ p ∷ []) ps {out = out} (Resolves-append r p new h)
          (ground arith) in
      (same ∙ append_assoc r (p ∷ []) ps, all)
]

-- Where the registry can be built it holds the providers that it was given, and each of them is
-- resolved by its own id; what is resolved for an id has that id.
pub register-Resolves :
    (ps out : Registry)
    → register ps ≡ ok out
    → (out ≡ ps) × Resolves out out × ((id : String) (p : Provider) → get id out ≡ ok p → p.id ≡ id)
unfolding register
register-Resolves ps out e =
    let (same, all) = register_from-Resolves [] ps {out = out} tt e in
    (same, all, λ id p found. get-id out id found)
