-- ===== src/Auth/Login/SignIn.antt =====
-- What a wallet's login writes once its signature is accepted.
use pay_era.Prelude.{
  ℕ, ◌+◌, ◌≡◌, refl, ◌∙◌, Bool, false, Option, none, some, List, [], ◌∷◌, ◌++◌, String, ok, arith,
  ◌==◌, ==_refl, any, bind_ok, transaction_ok, pure, ◌>>=◌,
}
use pay_era.Prelude.Table.{
  find_first, update_many, find_first-key, find_first-update_many, find_first-weaker, IsBelow,
  find_first-append_fresh, update_many-append_fresh,
}
use pay_era.Accounts.Store.{UserRole, User, Wallet, Store, clashes, insert_user}
use pay_era.Accounts.Wallets.{insert_wallet}
use pay_era.Auth.Tokens.{Libraries, Tokens, Ambient, set_hash, generate_tokens}
use pay_era.Auth.Login.{
  WalletLogin, Texts, sign_in, find_account, issue_login, return_user, add_wallet, open_account,
  is_at, set_logged_in, set_used, account_of, wallet_of, wallet_log,
}

any_of_absent :
    {R : Type 0} (p : R → Bool) (rs : List R) → find_first p rs ≡ none → any p rs ≡ false
any_of_absent p [] e = refl
any_of_absent p (x ∷ rs) e = ground (arith, any_of_absent p rs)

module _ (lib : Libraries) (text : Texts) (env : Ambient) (code : String) (dto : WalletLogin) where
  abbrev pub issued_to : ℕ → UserRole → Tokens
  issued_to id role = record {
    access_token = lib.sign_access id role env.now;
    refresh_token = lib.sign_refresh id role env.now;
  }

  abbrev pub hash_of : ℕ → UserRole → Option String
  hash_of id role = some (lib.hash (lib.sign_refresh id role env.now) env.salt)

  -- The user is there: its hash is replaced, and it gets new tokens.
  generate_tokens_lem :
      (id : ℕ) (role : UserRole) (s : Store) (u : User)
      → find_first (λ x. x.id == id) s.users ≡ some u
      → generate_tokens lib env id role s ≡ (
        ok (issued_to id role),
        record s { users = update_many (λ x. x.id == id) (set_hash (hash_of id role)) s.users },
      )
  unfolding generate_tokens
  generate_tokens_lem id role s u found = ground arith

  return_user_lem :
      (w : Wallet) (u : User) (s : Store)
      → find_first (is_at lib text dto) s.wallets ≡ some w
      → find_first (λ x. x.id == w.user_id) s.users ≡ some u
      → return_user lib text env w s ≡ (
        ok (set_logged_in lib text env.now u),
        record s {
          users = update_many (λ x. x.id == w.user_id) (set_logged_in lib text env.now) s.users;
          wallets = update_many (λ x. x.id == w.id) (set_used lib text env.now) s.wallets;
        },
      )
  unfolding return_user
  return_user_lem w u s at owner =
      let (x, again) =
        find_first-weaker (is_at lib text dto) (λ x. x.id == w.id) s.wallets at (==_refl w.id) in
      ground arith

  add_wallet_lem :
      (u : User) (s : Store)
      → find_first (is_at lib text dto) s.wallets ≡ none
      → add_wallet lib text env dto u s ≡ (
        ok u,
        record s {
          wallets = s.wallets ++ wallet_of lib text dto env.now u.id s.next_id ∷ [];
          next_id = s.next_id + 1;
        },
      )
  unfolding add_wallet
  add_wallet_lem u s at =
      let w = wallet_of lib text dto env.now u.id s.next_id in
      let fresh = any_of_absent (is_at lib text dto) s.wallets at in
      let made : insert_wallet (wallet_of lib text dto env.now u.id) s
          ≡ (ok w, record s { wallets = s.wallets ++ w ∷ []; next_id = s.next_id + 1 }) =
        rw fresh refl in
      bind_ok (insert_wallet (wallet_of lib text dto env.now u.id)) (λ _. pure u) s _ _ made

  open_account_lem :
      (s : Store)
      → find_first (is_at lib text dto) s.wallets ≡ none
      → any (clashes (account_of lib text dto code s.next_id)) s.users ≡ false
      → open_account lib text env code dto s ≡ (
        ok (account_of lib text dto code s.next_id),
        record s {
          users = s.users ++ account_of lib text dto code s.next_id ∷ [];
          wallets = s.wallets ++ wallet_of lib text dto env.now s.next_id (s.next_id + 1) ∷ [];
          next_id = s.next_id + 1 + 1;
        },
      )
  unfolding open_account
  open_account_lem s at free =
      let user = account_of lib text dto code s.next_id in
      let made : insert_user (account_of lib text dto code) s
          ≡ (ok user, record s { users = s.users ++ user ∷ []; next_id = s.next_id + 1 }) =
        rw free refl in
      transaction_ok (insert_user (account_of lib text dto code) >>= add_wallet lib text env dto) s
        _ _
        (bind_ok (insert_user (account_of lib text dto code)) (add_wallet lib text env dto) s _ _
            made
          ∙ add_wallet_lem user (record s { users = s.users ++ user ∷ []; next_id = s.next_id + 1 })
              at)

  -- The tables after a login: `users` with the new hash, the log with one more entry.
  abbrev pub logged_in : ℕ → UserRole → Store → Store
  logged_in id role s = record s {
    users = update_many (λ x. x.id == id) (set_hash (hash_of id role)) s.users;
    logs = s.logs ++ wallet_log lib text id dto ∷ [];
  }

  abbrev pub returned : Wallet → Store → Store
  returned w s = record s {
    users = update_many (λ x. x.id == w.user_id) (set_logged_in lib text env.now) s.users;
    wallets = update_many (λ x. x.id == w.id) (set_used lib text env.now) s.wallets;
  }

  abbrev pub opened : Store → Store
  opened s = record s {
    users = s.users ++ account_of lib text dto code s.next_id ∷ [];
    wallets = s.wallets ++ wallet_of lib text dto env.now s.next_id (s.next_id + 1) ∷ [];
    next_id = s.next_id + 1 + 1;
  }

  account_known :
      (w : Wallet) (u : User) (s : Store)
      → find_first (is_at lib text dto) s.wallets ≡ some w
      → find_first (λ x. x.id == w.user_id) s.users ≡ some u
      → find_account lib text env code dto s ≡ (ok (set_logged_in lib text env.now u), returned w s)
  unfolding find_account
  account_known w u s at owner = rw (find_account, at) (return_user_lem w u s at owner)

  account_new :
      (s : Store)
      → find_first (is_at lib text dto) s.wallets ≡ none
      → any (clashes (account_of lib text dto code s.next_id)) s.users ≡ false
      → find_account lib text env code dto s
        ≡ (ok (account_of lib text dto code s.next_id), opened s)
  unfolding find_account
  account_new s at free = rw (find_account, at) (open_account_lem s at free)

  issue_login_lem :
      (user u : User) (s : Store)
      → find_first (λ x. x.id == user.id) s.users ≡ some u
      → issue_login lib text env dto user s ≡ (
        ok (record { auth = issued_to user.id user.role; user = user }),
        logged_in user.id user.role s,
      )
  unfolding issue_login
  issue_login_lem user u s found =
      let tokens = generate_tokens_lem user.id user.role s u found in ground arith

  -- A wallet that is known logs its owner in: whatever the owner's status and the wallet's were, both
  -- are ACTIVE afterwards, and the owner's earlier refresh token is replaced.
  pub sign_in-known :
      (w : Wallet) (u : User) (s : Store)
      → find_first (is_at lib text dto) s.wallets ≡ some w
      → find_first (λ x. x.id == w.user_id) s.users ≡ some u
      → sign_in lib text env code dto s ≡ (
        ok (record { auth = issued_to u.id u.role; user = set_logged_in lib text env.now u }),
        logged_in u.id u.role (returned w s),
      )
  unfolding sign_in
  sign_in-known w u s at owner =
      let key : u.id ≡ w.user_id = find_first-key (λ (x : User). x.id) w.user_id s.users u owner in
      let read =
        find_first-update_many (λ (x : User). x.id) w.user_id w.user_id
          (set_logged_in lib text env.now) s.users (λ x. refl) in
      let again : find_first (λ x. x.id == u.id) (returned w s).users
          ≡ some (set_logged_in lib text env.now u) =
        ground (arith, ==_refl w.user_id) in
      let found : find_account lib text env code dto s
          ≡ (ok (set_logged_in lib text env.now u), returned w s) =
        account_known w u s at owner in
      bind_ok (find_account lib text env code dto) (issue_login lib text env dto) s _ _ found
      ∙ issue_login_lem (set_logged_in lib text env.now u) (set_logged_in lib text env.now u)
          (returned w s) again

  -- A wallet that is not known opens an account, with the role that the request names, and with this
  -- wallet as its primary one.
  pub sign_in-new :
      (s : Store)
      → IsBelow (λ (x : User). x.id) s.next_id s.users
      → find_first (is_at lib text dto) s.wallets ≡ none
      → any (clashes (account_of lib text dto code s.next_id)) s.users ≡ false
      → let user = account_of lib text dto code s.next_id in
        sign_in lib text env code dto s ≡ (
          ok (record { auth = issued_to s.next_id user.role; user = user }),
          record (opened s) {
            users = s.users ++ set_hash (hash_of s.next_id user.role) user ∷ [];
            logs = s.logs ++ wallet_log lib text s.next_id dto ∷ [];
          },
        )
  unfolding sign_in
  sign_in-new s below at free =
      let user = account_of lib text dto code s.next_id in
      let read = find_first-append_fresh (λ (x : User). x.id) s.next_id s.users user below refl in
      let rows =
        update_many-append_fresh (λ (x : User). x.id) s.next_id
          (set_hash (hash_of s.next_id user.role)) s.users user below refl in
      bind_ok (find_account lib text env code dto) (issue_login lib text env dto) s _ _
        (account_new s at free)
      ∙ issue_login_lem user user (opened s) read
      ∙ rw rows refl
