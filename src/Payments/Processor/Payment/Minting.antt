-- ===== src/Payments/Processor/Payment/Minting.antt =====
-- The rewards' step of a payment: what it writes and whether it throws.
use pay_era.Prelude.{
  ℕ, ◌≡◌, refl, sym, subst, ◌∙◌, ◌&&◌, All-map, All-filter, no_record, inl, inr, true, Option, none,
  some, is_some, List, [], ◌∷◌, String, Result, ok, err, arith, try_catch, ◌==◌, ==_refl, str_eq,
  Bool-cases, Option-cases, Result-cases, All, map,
}
use pay_era.Prelude.Table.{find_first, update_many, find_first-update_many}
use pay_era.Accounts.Store.{Wallet}
use pay_era.Payments.Store.{Transaction, Reward}
use pay_era.Payments.Rates.{Numbers}
use pay_era.Payments.Processor.Services.{Services, MintArgs}
use pay_era.Payments.Processor.Work.{Work, update_reward, on_store, is_reward_of, is_unminted}
use pay_era.Payments.Processor.Steps.{
  mint_one, mint_each, mint_rewards, pending_rewards, record_only, mint_at, set_minted,
  set_unminted, db_only, primary_wallet,
}
use pay_era.Payments.Processor.Payment.Runs.{IsStill}
use pay_era.Payments.Processor.Payment.Quiet.{Same}

abbrev reward_key : Reward → ℕ
reward_key r = r.id

-- The table has a reward of that id.
abbrev pub IsThere : ℕ → List Reward → Type 0
IsThere n rs = is_some (find_first (λ r. reward_key r == n) rs) ≡ true

IsThere-update :
    (n m : ℕ) (f : Reward → Reward) (rs : List Reward)
    → ((r : Reward) → (f r).id ≡ r.id)
    → IsThere m rs
    → IsThere m (update_many (λ r. r.id == n) f rs)
IsThere-update n m f rs same h =
    let read = find_first-update_many reward_key n m f rs same in
    elim (Option-cases (find_first (λ r. reward_key r == m) rs)) [
      | inl missing ↦ ground arith
      | inr (r, found) ↦ elim (Bool-cases (n == m)) [
        | inl own ↦ ground arith
        | inr other ↦ ground arith
      ]
    ]

-- What a reward's turn leaves: the payments, the ids of the rewards, and no exception.
pub record Minting (id : ℕ) (w : Work) (out : Result (Unit {0}) × Work) : Type 0 where
  pub same : Same w out.1
  pub kept : (m : ℕ) → IsThere m w.store.rewards → IsThere m out.1.store.rewards
  pub passed : IsThere id w.store.rewards → out.0 ≡ ok tt

module _ (num : Numbers) (id_text : ℕ → String) (services : Services num) (now : ℕ) (attempt : ℕ)
    (tx : Transaction) where
  updated :
      (id : ℕ) (f : Reward → Reward) (w : Work)
      → ((r : Reward) → (f r).id ≡ r.id)
      → Minting id w (on_store (update_reward id f) w)
  updated id f w same = elim (Option-cases (find_first (λ r. r.id == id) w.store.rewards)) [
    | inl missing ↦
        let out : on_store (update_reward id f) w ≡ (err no_record, w) = ground arith in
        subst (Minting id w) (sym out) (record {
          same = (refl, refl, refl);
          kept = λ m h. h;
          passed = λ h. absurd (ground (arith, missing, h));
        })
    | inr (r, found) ↦
        let s = w.store in
        let out : on_store (update_reward id f) w ≡ (
          ok tt,
          record w { store = record s { rewards = update_many (λ r. r.id == id) f s.rewards } },
        ) =
          ground arith in
        subst (Minting id w) (sym out) (record {
          same = (refl, refl, refl);
          kept = λ m h. IsThere-update id m f w.store.rewards same h;
          passed = λ h. refl;
        })
  ]

  -- A reward whose user has no wallet.
  record_only-Minting :
      (r : Reward) (w : Work) → Minting r.id w (record_only num id_text services now attempt tx r w)
  record_only-Minting r w =
      let hash = db_only num id_text services now attempt tx r in
      let set = set_minted num id_text services now attempt tx hash in
      let m = updated r.id set w (λ x. refl) in
      elim (Result-cases (on_store (update_reward r.id set) w).0) [
        | inr (e, thrown) ↦
            let out : record_only num id_text services now attempt tx r w
                ≡ on_store (update_reward r.id set) w =
              ground arith in
            subst (Minting r.id w) (sym out) m
        | inl (u, done) ↦ record {
          same = (ground (arith, m.same), ground (arith, m.same), ground (arith, m.same));
          kept = λ n h. ground (arith, m.kept n h);
          passed = λ h. ground arith;
        }
      ]

  abbrev mint_args : Reward → String → MintArgs
  mint_args r address = record {
    reward_id = r.id;
    user_id = r.user_id;
    user_wallet_address = address;
    star_amount = r.star_amount;
  }

  -- A reward whose user has a wallet: a mint that throws ends in the `catch`.
  minted_or_not-Minting :
      (r : Reward) (address : String) (w : Work)
      → Minting r.id w (
          try_catch
            (mint_at num id_text services now attempt tx r address)
            (λ e. on_store (update_reward r.id (set_unminted num id_text services now attempt tx)))
            w)
  minted_or_not-Minting r address w =
      let unset = set_unminted num id_text services now attempt tx in
      let caught = updated r.id unset w (λ x. refl) in
      elim (Result-cases (services.issue_star_reward attempt (mint_args r address))) [
        | inr (e, thrown) ↦
            let out : try_catch (mint_at num id_text services now attempt tx r address)
                  (λ e. on_store (update_reward r.id unset)) w
                ≡ on_store (update_reward r.id unset) w =
              ground arith in
            subst (Minting r.id w) (sym out) caught
        | inl (hash, minted) ↦
            let set = set_minted num id_text services now attempt tx hash in
            let m = updated r.id set w (λ x. refl) in
            elim (Option-cases (find_first (λ x. x.id == r.id) w.store.rewards)) [
              | inl missing ↦
                  let out : try_catch (mint_at num id_text services now attempt tx r address)
                        (λ e. on_store (update_reward r.id unset)) w
                      ≡ (err no_record, w) =
                    ground arith in
                  subst (Minting r.id w) (sym out) (record {
                    same = (refl, refl, refl);
                    kept = λ n h. h;
                    passed = λ h. absurd (ground (arith, missing, h));
                  })
              | inr (x, found) ↦ record {
                same = (ground (arith, m.same), ground (arith, m.same), ground (arith, m.same));
                kept = λ n h. ground (arith, m.kept n h);
                passed = λ h. ground arith;
              }
            ]
      ]

  mint_one-Minting :
      (r : Reward) (wallet? : Option Wallet) (w : Work)
      → Minting r.id w (mint_one num id_text services now attempt tx r wallet? w)
  unfolding mint_one
  mint_one-Minting r none w = record_only-Minting r w
  mint_one-Minting r (some wallet) w = elim (Bool-cases (str_eq wallet.address "")) [
    | inl empty ↦ rw empty (record_only-Minting r w)
    | inr there ↦ rw there (minted_or_not-Minting r wallet.address w)
  ]

  abbrev AllThere : List (Reward × Option Wallet) → Work → Type 0
  AllThere rs w = All (λ r. IsThere (reward_key r.0) w.store.rewards) rs

  mint_each-passes :
      (rs : List (Reward × Option Wallet)) (w : Work)
      → AllThere rs w
      → let out = mint_each num id_text services now attempt tx rs w in
        (out.0 ≡ ok tt) × Same w out.1
  unfolding mint_each
  mint_each-passes [] w h = (refl, (refl, refl, refl))
  mint_each-passes (r ∷ rs) w h =
      let m = mint_one-Minting r.0 r.1 w in
      let w' = (mint_one num id_text services now attempt tx r.0 r.1 w).1 in
      let more =
        All-map (λ x. IsThere (reward_key x.0) w.store.rewards)
          (λ x. IsThere (reward_key x.0) w'.store.rewards) (λ x. m.kept (reward_key x.0)) rs h.1 in
      let rest = mint_each-passes rs w' more in
      let out : mint_each num id_text services now attempt tx (r ∷ rs) w
          ≡ mint_each num id_text services now attempt tx rs w' =
        ground (arith, m.passed h.0) in
      rw out (rest.0, (rest.1.0 ∙ m.same.0, rest.1.1 ∙ m.same.1, rest.1.2 ∙ m.same.2))

  all-IsThere : (rs : List Reward) → All (λ r. IsThere (reward_key r) rs) rs
  all-IsThere [] = tt
  all-IsThere (x ∷ rs) =
      (ground (arith, ==_refl x.id), All-map _ _ (λ r h. ground (arith, h)) rs (all-IsThere rs))

  All-map_pairs :
      (P : ℕ → Type 0) (f : Reward → Option Wallet) (rs : List Reward)
      → All (λ r. P (reward_key r)) rs
      → All {A = Reward × Option Wallet} (λ x. P (reward_key x.0)) (map (λ r. (r, f r)) rs)
  All-map_pairs P f [] h = tt
  All-map_pairs P f (r ∷ rs) h = (h.0, All-map_pairs P f rs h.1)

  -- Whatever the contract answers, and whether or not the users have wallets, the rewards' step
  -- returns: it never stops a payment. It leaves the payments and their events as they are.
  pub mint_rewards-passes :
      (w : Work)
      → let out = mint_rewards num id_text services now attempt tx w in
        (out.0 ≡ ok tt)
        × (out.1.store.transactions ≡ w.store.transactions)
        × (out.1.store.events ≡ w.store.events)
        × (out.1.store.next_id ≡ w.store.next_id)
  unfolding mint_rewards pending_rewards
  mint_rewards-passes w =
      let there =
        All-filter (λ r. IsThere (reward_key r) w.store.rewards)
          (λ r. is_reward_of tx.id r && is_unminted r.status) w.store.rewards
          (all-IsThere w.store.rewards) in
      let paired =
        All-map_pairs (λ n. IsThere n w.store.rewards)
          (λ r. primary_wallet num id_text services now attempt tx w.store r.user_id) _ there in
      let passed = mint_each-passes _ w paired in (passed.0, passed.1.0, passed.1.1, passed.1.2)

  pub mint_rewards-IsStill : IsStill (mint_rewards num id_text services now attempt tx)
  mint_rewards-IsStill = record {
    rows = λ w. (mint_rewards-passes w).1;
    events = λ w. (mint_rewards-passes w).2;
    next = λ w. (mint_rewards-passes w).3;
  }
