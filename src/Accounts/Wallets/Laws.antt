-- ===== src/Accounts/Wallets/Laws.antt =====
-- The primary wallets of a user under the requests of apps/api/src/wallets/wallets.service.ts.
use pay_era.Prelude.{
  ℕ, ◌+◌, ◌≤◌, ◌≡◌, refl, ap, ◌⊎◌, inl, inr, Bool, true, false, ◌&&◌, Option, none, some, List, [],
  ◌∷◌, ◌++◌, String, ok, is_ok, arith, any, ◌==◌, str_eq, Bool-cases, Option-cases, if◌then◌else◌,
  or_else,
}
use pay_era.Prelude.Table.{find_first, update_many, IsKeyed, IsKeyed-append, IsKeyed-update}
use pay_era.Accounts.Store.{Principal, Wallet, Store}
use pay_era.Accounts.Wallets.{
  CreateWallet, UpdateWallet, clear, clear_if, new_wallet, create, may_access, find_one, set_given,
  update, set_disconnected, disconnect,
}
use pay_era.Accounts.Wallets.Primary.{
  wallet_key, primaries, primaries-append, primaries-clear, primaries-lower, primaries-update,
}

-- Wallets have distinct ids, and no user has two that are primary.
pub record IsValid (s : Store) : Type 0 where
  pub ids : IsKeyed wallet_key s.next_id s.wallets
  pub one_primary : (user : ℕ) → primaries user s.wallets ≤ 1

cleared-IsValid : (p : Option Bool) (o : ℕ) (s : Store) → IsValid s → IsValid (clear_if p o s).1
cleared-IsValid none o s v = v
cleared-IsValid (some false) o s v = v
cleared-IsValid (some true) o s v = record {
  ids = IsKeyed-update wallet_key s.next_id (λ w. w.user_id == o) clear s.wallets (λ w. refl) v.ids;
  one_primary = λ user. ground (arith, primaries-clear user o s.wallets, v.one_primary user);
}

-- Where a wallet is to become primary, its owner has none left after the clearing.
cleared_none :
    (p : Option Bool) (o : ℕ) (s : Store)
    → or_else p false ≡ true
    → primaries o (clear_if p o s).1.wallets ≡ 0
cleared_none none o s e = cc
cleared_none (some false) o s e = cc
cleared_none (some true) o s e = ground (arith, primaries-clear o o s.wallets)

cleared_ok : (p : Option Bool) (o : ℕ) (s : Store) → (clear_if p o s).0 ≡ ok tt
cleared_ok none o s = refl
cleared_ok (some false) o s = refl
cleared_ok (some true) o s = refl

inserted-IsValid :
    (w : Wallet) (s : Store)
    → IsValid s
    → w.id ≡ s.next_id
    → (w.is_primary ≡ true → primaries w.user_id s.wallets ≡ 0)
    → IsValid (record s { wallets = s.wallets ++ w ∷ []; next_id = s.next_id + 1 })
inserted-IsValid w s v e none_left = record {
  ids = IsKeyed-append wallet_key s.next_id s.wallets w v.ids e;
  one_primary = λ user.
      let more = primaries-append user s.wallets w in
      let at_most = v.one_primary user in
      elim (Bool-cases (w.user_id == user && w.is_primary)) [
        | inl counted ↦
            let own : w.user_id ≡ user = ground arith in
            let zero_own : primaries user s.wallets ≡ 0 = rw (← own) (none_left (ground arith)) in
            ground arith
        | inr other ↦ ground arith
      ];
}

updated-IsValid :
    (n : ℕ) (f : Wallet → Wallet) (s : Store) {w : Wallet}
    → IsValid s
    → ((x : Wallet) → (f x).user_id ≡ x.user_id)
    → ((x : Wallet) → (f x).id ≡ x.id)
    → find_first (λ x. x.id == n) s.wallets ≡ some w
    → (((x : Wallet) → (f x).is_primary ≡ true → x.is_primary ≡ true)
        ⊎ (primaries w.user_id s.wallets ≡ 0))
    → IsValid (record s { wallets = update_many (λ x. x.id == n) f s.wallets })
updated-IsValid n f s {w} v same same_id found why = record {
  ids = IsKeyed-update wallet_key s.next_id (λ x. x.id == n) f s.wallets same_id v.ids;
  one_primary = λ user.
      let at_most = v.one_primary user in
      elim why [
        | inl lower ↦
            let fewer = primaries-lower user (λ x. x.id == n) f s.wallets same lower in omega arith
        | inr none_left ↦
            let more = primaries-update user n f s.wallets {w = w} same v.ids.distinct found in
            elim (Bool-cases (w.user_id == user)) [
              | inl own ↦
                  let own_eq : w.user_id ≡ user = ground arith in
                  let zero_own : primaries user s.wallets ≡ 0 = rw (← own_eq) none_left in
                  ground arith
              | inr other ↦ ground arith
            ]
      ];
}

module _ (trim to_lower_case : String → String) (caller : Principal) where
  -- Adding a wallet keeps the invariant, also where the address is taken: then the transaction
  -- undoes the clearing of the primary wallet.
  pub create-IsValid :
      (dto : CreateWallet) (now : ℕ) (s : Store)
      → IsValid s
      → IsValid (create trim to_lower_case caller dto now s).1
  unfolding create
  create-IsValid dto now s v =
      let s' = (clear_if dto.is_primary caller.id s).1 in
      let w = new_wallet trim to_lower_case caller dto now s'.next_id in
      let passed = cleared_ok dto.is_primary caller.id s in
      elim (Bool-cases (
        any (λ x. str_eq x.network w.network && str_eq x.address_normalized w.address_normalized)
          s'.wallets)) [
            | inl taken ↦
                let out : (create trim to_lower_case caller dto now s).1 ≡ s = ground arith in
                rw out v
            | inr free ↦
                let out : (create trim to_lower_case caller dto now s).1
                    ≡ record s' { wallets = s'.wallets ++ w ∷ []; next_id = s'.next_id + 1 } =
                  ground arith in
                rw out (
                  inserted-IsValid w s' (cleared-IsValid dto.is_primary caller.id s v) refl
                    (cleared_none dto.is_primary caller.id s))
          ]

  -- Reading a wallet writes nothing, and what is read is the row with that id.
  find_one_cases :
      (id : ℕ) (s : Store)
      → ((is_ok (find_one caller id s).0 ≡ false) × ((find_one caller id s).1 ≡ s))
        ⊎ ((w : Wallet) × (find_one caller id s ≡ (ok w, s))
            × (find_first (λ x. x.id == id) s.wallets ≡ some w))
  unfolding find_one
  find_one_cases id s = elim (Option-cases (find_first (λ x. x.id == id) s.wallets)) [
    | inl missing ↦ inl (ground arith, ground arith)
    | inr (w, found) ↦ elim (Bool-cases (may_access caller w.user_id)) [
      | inl own ↦ inr (w, ground arith, found)
      | inr barred ↦ inl (ground arith, ground arith)
    ]
  ]

  -- The wallet is still there after the clearing, with its owner.
  cleared_found :
      (p : Option Bool) (o id : ℕ) (s : Store) {w : Wallet}
      → find_first (λ x. x.id == id) s.wallets ≡ some w
      → (x : Wallet) × (find_first (λ x. x.id == id) (clear_if p o s).1.wallets ≡ some x)
        × (x.user_id ≡ w.user_id)
  cleared_found none o id s {w} e = (w, e, refl)
  cleared_found (some false) o id s {w} e = (w, e, refl)
  cleared_found (some true) o id s {w} e = go s.wallets e
    where
      go :
          (ws : List Wallet)
          → find_first (λ x. x.id == id) ws ≡ some w
          → (x : Wallet) × (find_first
                (λ x. x.id == id)
                (update_many (λ x. x.user_id == o) clear ws)
              ≡ some x)
            × (x.user_id ≡ w.user_id)
      go [] e = absurd (ground (arith, e))
      go (x ∷ ws) e = elim (Bool-cases (x.id == id)) [
        | inl own ↦
            let x-eq : x ≡ w = ground arith in
            let owner : x.user_id ≡ w.user_id = ap (λ (y : Wallet). y.user_id) x-eq in
            ((if x.user_id == o then clear x else x), ground arith, ground arith)
        | inr other ↦ let (y, found, owner) = go ws (ground arith) in (y, ground arith, owner)
      ]

  lowers :
      (dto : UpdateWallet)
      → or_else dto.is_primary false ≡ false
      → (x : Wallet) → (set_given dto x).is_primary ≡ true
      → x.is_primary ≡ true
  lowers dto e x h = elim (Option-cases dto.is_primary) [
    | inl absent ↦ ground arith
    | inr (b, given) ↦ ground arith
  ]

  pub update-IsValid :
      (id : ℕ) (dto : UpdateWallet) (s : Store) → IsValid s → IsValid (update caller id dto s).1
  unfolding update
  update-IsValid id dto s v = elim (find_one_cases id s) [
    | inl refused ↦ let out : (update caller id dto s).1 ≡ s = ground arith in rw out v
    | inr (w, read, found) ↦
        let s' = (clear_if dto.is_primary w.user_id s).1 in
        let passed = cleared_ok dto.is_primary w.user_id s in
        let (x, still, owner) = cleared_found dto.is_primary w.user_id id s found in
        let out : (update caller id dto s).1
            ≡ record s' { wallets = update_many (λ x. x.id == id) (set_given dto) s'.wallets } =
          ground arith in
        rw out (
          updated-IsValid id (set_given dto) s' {w = x}
            (cleared-IsValid dto.is_primary w.user_id s v) (λ x. refl) (λ x. refl) still
            (elim (Bool-cases (or_else dto.is_primary false)) [
              | inl primary ↦ inr (rw owner (cleared_none dto.is_primary w.user_id s primary))
              | inr not_primary ↦ inl (lowers dto not_primary)
            ]))
  ]

  pub disconnect-IsValid : (id : ℕ) (s : Store) → IsValid s → IsValid (disconnect caller id s).1
  unfolding disconnect
  disconnect-IsValid id s v = elim (find_one_cases id s) [
    | inl refused ↦ let out : (disconnect caller id s).1 ≡ s = ground arith in rw out v
    | inr (w, read, found) ↦
        let out : (disconnect caller id s).1
            ≡ record s { wallets = update_many (λ x. x.id == id) set_disconnected s.wallets } =
          ground arith in
        rw out (
          updated-IsValid id set_disconnected s {w = w} v (λ x. refl) (λ x. refl) found
            (inl (λ x h. absurd (ground (arith, h)))))
  ]

  -- Adding, updating and disconnecting a wallet keep the invariant: no user ever has two primary
  -- wallets, whoever calls, and also where the call is refused or the address is taken.
  pub wallets_keep-IsValid :
      (dto : CreateWallet) (change : UpdateWallet) (id now : ℕ) (s : Store)
      → IsValid s
      → IsValid (create trim to_lower_case caller dto now s).1
        × IsValid (update caller id change s).1
        × IsValid (disconnect caller id s).1
  wallets_keep-IsValid dto change id now s v =
      (create-IsValid dto now s v, update-IsValid id change s v, disconnect-IsValid id s v)
