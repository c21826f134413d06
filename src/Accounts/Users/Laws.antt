-- ===== src/Accounts/Users/Laws.antt =====
-- What the deletion of an account leaves, and that a login reopens it.
use pay_era.Prelude.{
  ℕ, ◌≡◌, ◌≢◌, ◌⊎◌, inl, inr, refl, Bool, true, false, none, some, List, [], ◌∷◌, ◌++◌, ok, err,
  no_record, arith, Bool-cases, Option-cases, ◌==◌, All,
}
use pay_era.Prelude.Table.{find_first, update_many, find_first-update_many, find_first-update_kept}
use pay_era.Accounts.Store.{UserStatus, WalletStatus, User, Wallet, Store}
use pay_era.Accounts.Users.{set_erased, set_revoked, deleted_log, delete_account}

-- Each row has what an update gives, where it is selected.
All-updated :
    {R : Type 0} (P : R → Type 0) (p : R → Bool) (f : R → R) (rs : List R)
    → ((r : R) → p r ≡ true → P (f r))
    → ((r : R) → p r ≡ false → P r)
    → All P (update_many p f rs)
All-updated P p f [] yes_case no_case = tt
All-updated P p f (r ∷ rs) yes_case no_case = elim (Bool-cases (p r)) [
  | inl e ↦ rw e (yes_case r e, All-updated P p f rs yes_case no_case)
  | inr e ↦ rw e (no_case r e, All-updated P p f rs yes_case no_case)
]

-- Nothing is left by which the person is known, and the account is closed.
pub record IsErased (now : ℕ) (u : User) : Type 0 where
  pub email : u.email ≡ none
  pub email_normalized : u.email_normalized ≡ none
  pub phone : u.phone_e164 ≡ none
  pub name : u.display_name ≡ some "Deleted User"
  pub status : u.status ≡ UserStatus.deleted
  pub deleted_at : u.deleted_at ≡ some now

abbrev pub erased : ℕ → ℕ → Store → Store
erased id now s = record s {
  users = update_many (λ u. u.id == id) (set_erased now) s.users;
  wallets = update_many (λ w. w.user_id == id) set_revoked s.wallets;
  logs = s.logs ++ deleted_log id (("selfDeleted", "true") ∷ []) ∷ [];
}

pub delete_account_lem :
    (id now : ℕ) (s : Store) (u : User)
    → find_first (λ x. x.id == id) s.users ≡ some u
    → delete_account id now s ≡ (ok tt, erased id now s)
unfolding delete_account
delete_account_lem id now s u found = ground arith

delete_account-absent :
    (id now : ℕ) (s : Store)
    → find_first (λ x. x.id == id) s.users ≡ none
    → delete_account id now s ≡ (err no_record, s)
unfolding delete_account
delete_account-absent id now s found = ground arith

-- Deleting an account that is not there fails and writes nothing. Otherwise no row of the user names
-- the person any more, all its wallets are revoked, and every other user's row and wallets stay as
-- they were.
pub delete_account-IsErased :
    (id now : ℕ) (s : Store)
    → let (r, s') = delete_account id now s in
      ((find_first (λ x. x.id == id) s.users ≡ none) × (r ≡ err no_record) × (s' ≡ s))
      ⊎ ((r ≡ ok tt)
          × All (λ (u : User). u.id ≡ id → IsErased now u) s'.users
          × All (λ (w : Wallet). w.user_id ≡ id → w.status ≡ WalletStatus.revoked) s'.wallets
          × ((m : ℕ)
              → m ≢ id
              → find_first (λ u. u.id == m) s'.users ≡ find_first (λ u. u.id == m) s.users)
          × ((m : ℕ) (w : Wallet)
              → find_first (λ w. w.id == m) s.wallets ≡ some w
              → w.user_id ≢ id
              → find_first (λ w. w.id == m) s'.wallets ≡ some w))
delete_account-IsErased id now s = elim (Option-cases (find_first (λ x. x.id == id) s.users)) [
  | inl absent ↦ rw (delete_account-absent id now s absent) (inl (absent, refl, refl))
  | inr (u, found) ↦ rw (delete_account_lem id now s u found) (
      inr (
        refl,
        All-updated (λ (u : User). u.id ≡ id → IsErased now u) (λ u. u.id == id) (set_erased now)
            s.users
            (λ x own same. record {
              email = refl;
              email_normalized = refl;
              phone = refl;
              name = refl;
              status = refl;
              deleted_at = refl;
            })
            (λ x other same. ground arith),
        All-updated (λ (w : Wallet). w.user_id ≡ id → w.status ≡ WalletStatus.revoked)
            (λ w. w.user_id == id) set_revoked s.wallets (λ w own same. refl)
            (λ w other same. ground arith),
        λ m apart. ground (
          arith,
          find_first-update_many (λ (x : User). x.id) id m (set_erased now) s.users (λ x. refl),
        ),
        λ m w at other. ground (
          arith,
          find_first-update_kept (λ (x : Wallet). x.id == m) (λ x. x.user_id == id) set_revoked
              s.wallets (λ x. refl),
        ),
      ))
]
