-- ===== src/Accounts/Wallets/Primary.antt =====
-- How updates change the number of a user's primary wallets.
use pay_era.Prelude.{
  ℕ, suc, ◌+◌, ◌≤◌, ◌≡◌, ◌≢◌, refl, ap, inl, inr, Bool, true, ◌&&◌, some, List, [], ◌∷◌, ◌++◌,
  arith, All, ◌==◌, Bool-cases, if◌then◌else◌,
}
use pay_era.Prelude.Table.{find_first, update_many, IsDistinct}
use pay_era.Accounts.Store.{Wallet}
use pay_era.Accounts.Wallets.{clear}

abbrev pub wallet_key : Wallet → ℕ
wallet_key w = w.id

-- The number of primary wallets of a user.
abbrev pub primaries : ℕ → List Wallet → ℕ
primaries user [] = 0
primaries user (w ∷ ws) =
    if w.user_id == user && w.is_primary then suc (primaries user ws) else primaries user ws

pub primaries-append :
    (user : ℕ) (ws : List Wallet) (w : Wallet)
    → primaries user (ws ++ w ∷ [])
      ≡ primaries user ws + (if w.user_id == user && w.is_primary then 1 else 0)
primaries-append user [] w = ground arith
primaries-append user (x ∷ ws) w = ground (arith, primaries-append user ws w)

pub primaries-clear :
    (user o : ℕ) (ws : List Wallet)
    → primaries user (update_many (λ w. w.user_id == o) clear ws)
      ≡ (if o == user then 0 else primaries user ws)
primaries-clear user o [] = ground arith
primaries-clear user o (x ∷ ws) = ground (arith, primaries-clear user o ws)

-- An update that makes no wallet primary adds no primary wallet.
pub primaries-lower :
    (user : ℕ) (p : Wallet → Bool) (f : Wallet → Wallet) (ws : List Wallet)
    → ((w : Wallet) → (f w).user_id ≡ w.user_id)
    → ((w : Wallet) → (f w).is_primary ≡ true → w.is_primary ≡ true)
    → primaries user (update_many p f ws) ≤ primaries user ws
primaries-lower user p f [] same lower = omega arith
primaries-lower user p f (x ∷ ws) same lower =
    ground (arith, same x, lower x, primaries-lower user p f ws same lower)

-- An update by a key that no row has counts as none.
pub primaries-absent :
    (user n : ℕ) (f : Wallet → Wallet) (ws : List Wallet)
    → All (λ w. w.id ≢ n) ws
    → primaries user (update_many (λ w. w.id == n) f ws) ≡ primaries user ws
primaries-absent user n f [] h = refl
primaries-absent user n f (x ∷ ws) h = ground (arith, primaries-absent user n f ws h.1)

-- Where keys are distinct, an update by key adds at most one primary wallet, and only to the user
-- that owns the row.
pub primaries-update :
    (user n : ℕ) (f : Wallet → Wallet) (ws : List Wallet) {w : Wallet}
    → ((x : Wallet) → (f x).user_id ≡ x.user_id)
    → IsDistinct wallet_key ws
    → find_first (λ x. x.id == n) ws ≡ some w
    → primaries user (update_many (λ x. x.id == n) f ws)
      ≤ primaries user ws + (if w.user_id == user then 1 else 0)
primaries-update user n f [] same d e = omega arith
primaries-update user n f (x ∷ ws) {w} same d e = elim (Bool-cases (x.id == n)) [
  | inl own ↦
      let key_x : x.id ≡ n = ground arith in
      let rest = primaries-absent user n f ws (rw key_x at d.0) in
      let x-eq : x ≡ w = ground arith in
      let owner : x.user_id ≡ w.user_id = ap (λ (y : Wallet). y.user_id) x-eq in
      ground (arith, rest, same x)
  | inr other ↦ ground (arith, primaries-update user n f ws {w = w} same d.1)
]
