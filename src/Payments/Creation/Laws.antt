-- ===== src/Payments/Creation/Laws.antt =====
-- A payment that is created, and the rows that come with it.
use pay_era.Prelude.{
  ◌+◌, ◌<◌, ◌≡◌, refl, ◌⊎◌, inl, inr, false, some, [], ◌∷◌, ◌++◌, String, Result, ok, is_ok, arith,
  All-append, All-map,
}
use pay_era.Prelude.Table.{IsKeyed-append, find_first-append_fresh}
use pay_era.Prelude.Trail.{append-IsOrdered, max_sequence-fresh, trail, trail-append_fresh}
use pay_era.Common.Rewards.{calculate_spend_reward_star}
use pay_era.Accounts.Store.{Principal}
use pay_era.Payments.Store.{
  TransactionStatus, SettlementStatus, RewardStatus, LogData, Transaction, Settlement, Reward,
  Store, key, owner, number, find_transaction,
}
use pay_era.Payments.Store.Invariant.{IsValid}
use pay_era.Payments.Rates.{Numbers, Quote, create_quote}
use pay_era.Payments.Creation.{CreateTransaction, Ambient, Checked, write_created, create}
use pay_era.Payments.Creation.Checks.{Passed, check_cases}

module _ (num : Numbers) (sha256_hex : String → String) (user : Principal) (dto : CreateTransaction)
    (env : Ambient num sha256_hex) (s : Store) where
  -- The payment `t` is added with one event, one instruction for the merchant's money, one reward and
  -- one log entry, and all other rows of all tables are those of before.
  pub record Opened (t : Transaction) (s' : Store) : Type 0 where
    pub added : s'.transactions ≡ s.transactions ++ t ∷ []
    pub merchant : t.merchant_id ≡ dto.merchant_id
    pub status : t.status ≡ TransactionStatus.created
    pub payer : t.user_id ≡ user.id
    pub amount : t.amount_in_paise ≡ dto.amount_in_paise
    pub deadline : t.expires_at ≡ env.now + 30_000
    pub kept : find_transaction t.id s'.transactions ≡ some t
    pub history :
        trail owner number t.id s'.events
        ≡ record {
          transaction_id = t.id;
          sequence = 1;
          status = TransactionStatus.created;
          event_type = "transaction.created";
        }
          ∷ []
    pub begun :
        s'.events
        ≡ s.events
          ++ record {
            transaction_id = t.id;
            sequence = 1;
            status = TransactionStatus.created;
            event_type = "transaction.created";
          }
            ∷ []
    pub logged :
        s'.logs
        ≡ s.logs
          ++ record {
            actor_user_id = some user.id;
            action = "TRANSACTION_CREATED";
            target_type = "TRANSACTION";
            target_id = t.id;
            metadata =
                LogData.transaction_created t.merchant_id t.asset_in t.amount_in_paise t.public_id;
          }
            ∷ []
    pub kept_merchants : s'.merchants ≡ s.merchants
    pub kept_qr_codes : s'.qr_codes ≡ s.qr_codes
    pub kept_wallets : s'.wallets ≡ s.wallets
    pub instruction : Settlement
    pub instructed : s'.settlements ≡ s.settlements ++ instruction ∷ []
    pub owed :
        (instruction.transaction_id ≡ t.id)
        × (instruction.merchant_id ≡ t.merchant_id)
        × (instruction.amount_paise ≡ t.amount_in_paise)
        × (instruction.status ≡ SettlementStatus.pending)
    pub reward : Reward
    pub promised : s'.rewards ≡ s.rewards ++ reward ∷ []
    pub earned :
        (reward.transaction_id ≡ some t.id)
        × (reward.user_id ≡ user.id)
        × (reward.star_amount ≡ calculate_spend_reward_star t.amount_in_paise)
        × (reward.status ≡ RewardStatus.pending)

  quote_deadline :
      {quote : Quote num}
      → create_quote num env.now env.rates dto.asset_in dto.amount_in_paise ≡ ok quote
      → quote.expires_at ≡ env.now + 30_000
  unfolding create_quote
  quote_deadline {quote} e = ground arith

  abbrev Written : Checked num sha256_hex → Result Transaction × Store
  Written c = write_created num sha256_hex user dto c.hash c.vpa c.quote env.nonce s

  write_created-Opened :
      (c : Checked num sha256_hex)
      → IsValid s
      → c.quote.expires_at ≡ env.now + 30_000
      → (t : Transaction) × ((Written c).0 ≡ ok t) × Opened t (Written c).1
  write_created-Opened c v e = (
    _,
    refl,
    record {
      added = refl;
      merchant = refl;
      begun = refl;
      logged = refl;
      kept_merchants = refl;
      kept_qr_codes = refl;
      kept_wallets = refl;
      status = refl;
      payer = refl;
      amount = refl;
      deadline = e;
      kept = find_first-append_fresh key s.next_id s.transactions _ v.ids.below refl;
      history = trail-append_fresh owner number s.next_id s.events _ v.owners refl;
      instruction = _;
      instructed = refl;
      owed = (refl, refl, refl, refl);
      reward = _;
      promised = refl;
      earned = (refl, refl, refl, refl);
    },
  )

  write_created-IsValid : (c : Checked num sha256_hex) → IsValid s → IsValid (Written c).1
  write_created-IsValid c v = record {
    ids =
        let more = IsKeyed-append key s.next_id s.transactions _ v.ids refl in
        record {
          below =
              All-map (λ t. key t < s.next_id + 1) (λ t. key t < s.next_id + 2 + 1)
                (λ t h. omega arith) _ more.below;
          distinct = more.distinct;
        };
    owners =
        All-append (λ e. owner e < s.next_id + 2 + 1) s.events _
          (All-map (λ e. owner e < s.next_id) (λ e. owner e < s.next_id + 2 + 1)
            (λ e h. omega arith) s.events v.owners)
          (omega arith, tt);
    ordered =
        append-IsOrdered owner number s.events _ v.ordered
          (omega (arith, max_sequence-fresh owner number s.next_id s.events v.owners));
  }

  -- `create` either throws and leaves every table as it was, or all its checks passed and the
  -- payment is added with its event, its settlement instruction, its reward and its log entry, and
  -- no other row of any table changes.
  pub create_lem :
      IsValid s
      → let out = create num sha256_hex user dto env s in
        ((is_ok out.0 ≡ false) × (out.1 ≡ s))
        ⊎ ((c : Checked num sha256_hex) × Passed num sha256_hex user dto env s c
            × (t : Transaction) × (out.0 ≡ ok t)
            × Opened t out.1)
  unfolding create
  create_lem v = elim (check_cases num sha256_hex user dto env s) [
    | inl refused ↦ inl (ground arith, ground arith)
    | inr (c, passed, p) ↦
        let out : create num sha256_hex user dto env s ≡ Written c = ground arith in
        let opened = write_created-Opened c v (quote_deadline p.quoted) in
        rw out (inr (c, p, opened.0, opened.1, opened.2))
  ]

  -- `create` keeps the invariant of the tables, also where it throws.
  pub create-IsValid : IsValid s → IsValid (create num sha256_hex user dto env s).1
  unfolding create
  create-IsValid v = elim (check_cases num sha256_hex user dto env s) [
    | inl refused ↦
        let same : (create num sha256_hex user dto env s).1 ≡ s = ground arith in rw same v
    | inr (c, passed, p) ↦
        let out : create num sha256_hex user dto env s ≡ Written c = ground arith in
        rw out (write_created-IsValid c v)
  ]
