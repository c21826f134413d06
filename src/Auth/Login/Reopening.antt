-- ===== src/Auth/Login/Reopening.antt =====
-- A login after the deletion of the account.
use pay_era.Prelude.{ℕ, ◌≡◌, refl, true, some, String, is_ok, arith, ==_refl, ◌==◌}
use pay_era.Prelude.Table.{
  find_first, find_first-key, find_first-update_many, find_first-update_kept, update_many,
}
use pay_era.Accounts.Store.{UserStatus, User, Wallet, Store}
use pay_era.Accounts.Users.{delete_account, set_erased, set_revoked}
use pay_era.Accounts.Users.Laws.{delete_account_lem, erased}
use pay_era.Auth.Tokens.{Libraries, Ambient, set_hash}
use pay_era.Auth.Login.{WalletLogin, Texts, sign_in, is_at, set_logged_in}
use pay_era.Auth.Login.SignIn.{sign_in-known, hash_of}

-- The deletion of an account does not end it: its wallet logs in as before, and the user is ACTIVE
-- again, with the time of its deletion still set.
pub sign_in-delete_account :
    (lib : Libraries) (text : Texts) (env : Ambient) (code : String) (dto : WalletLogin)
    → (w : Wallet) (u : User) (now : ℕ) (s : Store)
    → find_first (is_at lib text dto) s.wallets ≡ some w
    → find_first (λ x. x.id == w.user_id) s.users ≡ some u
    → let (r, s') = sign_in lib text env code dto (delete_account w.user_id now s).1 in
      (is_ok r ≡ true)
      × ((x : User) × ((find_first (λ y. y.id == w.user_id) s'.users ≡ some x)
            × ((x.status ≡ UserStatus.active) × (x.deleted_at ≡ some now))))
sign_in-delete_account lib text env code dto w u now s at owner =
    let e = erased w.user_id now s in
    let own = ==_refl w.user_id in
    let at' : find_first (is_at lib text dto) e.wallets ≡ some (set_revoked w) = ground (
      arith,
      own,
      find_first-update_kept (is_at lib text dto) (λ x. x.user_id == w.user_id) set_revoked
          s.wallets (λ x. refl),
    ) in
    let owner' : find_first (λ x. x.id == w.user_id) e.users ≡ some (set_erased now u) = ground (
      arith,
      own,
      find_first-update_many (λ (x : User). x.id) w.user_id w.user_id (set_erased now) s.users
          (λ x. refl),
    ) in
    let key : u.id ≡ w.user_id = find_first-key (λ (x : User). x.id) w.user_id s.users u owner in
    let seen =
      update_many (λ (x : User). x.id == w.user_id) (set_logged_in lib text env.now) e.users in
    let hash = hash_of lib text env code dto u.id u.role in
    let second =
      find_first-update_many (λ (x : User). x.id) w.user_id w.user_id
        (set_logged_in lib text env.now) e.users (λ x. refl) in
    let third =
      find_first-update_many (λ (x : User). x.id) u.id w.user_id (set_hash hash) seen (λ x. refl) in
    let last : find_first (λ x. x.id == w.user_id)
          (update_many (λ x. x.id == u.id) (set_hash hash) seen)
        ≡ some (set_hash hash (set_logged_in lib text env.now (set_erased now u))) =
      ground (arith, own, owner', second, third) in
    rw
      (
        delete_account_lem w.user_id now s u owner,
        sign_in-known lib text env code dto (set_revoked w) (set_erased now u) e at' owner',
      )
      (
        refl,
        (set_hash hash (set_logged_in lib text env.now (set_erased now u)), (last, (refl, refl))),
      )
