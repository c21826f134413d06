-- ===== src/Payments/Transactions/Access.antt =====
-- Who can read a payment.
use pay_era.Prelude.{
  ℕ, ◌≡◌, ◌≢◌, ◌↔◌, refl, inl, inr, Bool, true, ◌&&◌, some, List, [], ◌∷◌, ok, err, not_found,
  arith, ◌==◌, Bool-cases, Option-cases,
}
use pay_era.Prelude.Table.{find_first, IsDistinct, All-find_first}
use pay_era.Accounts.Store.{Principal, UserRole, is_admin}
use pay_era.Payments.Store.{key, Transaction, Merchant, Store, find_transaction, find_merchant}
use pay_era.Payments.Store.Invariant.{IsValid}
use pay_era.Payments.Transactions.{is_visible, find_one}

-- The reader may see a payment: an administrator, its payer, or the owner of its merchant.
pub data MaySee (reader : Principal) (s : Store) (t : Transaction) : Type 0 where
  as_admin : reader.role ≡ UserRole.admin → MaySee reader s t
  as_payer : t.user_id ≡ reader.id → MaySee reader s t
  as_merchant :
      (m : Merchant)
      → find_merchant t.merchant_id s.merchants ≡ some m
      → m.owner_user_id ≡ some reader.id
      → MaySee reader s t

is_admin-eq : (role : UserRole) → is_admin role ≡ true → role ≡ UserRole.admin
is_admin-eq UserRole.admin e = refl
is_admin-eq _ e = cc

visible-MaySee :
    (reader : Principal) (s : Store) (t : Transaction)
    → is_visible reader s t ≡ true
    → MaySee reader s t
unfolding is_visible
visible-MaySee reader s t h = elim (Bool-cases (is_admin reader.role)) [
  | inl boss ↦ as_admin (is_admin-eq reader.role boss)
  | inr other ↦ elim (Bool-cases (t.user_id == reader.id)) [
    | inl payer ↦ as_payer (ground arith)
    | inr stranger ↦ elim (Option-cases (find_merchant t.merchant_id s.merchants)) [
      | inl missing ↦ absurd (ground arith)
      | inr (m, found) ↦ as_merchant m found (ground arith)
    ]
  ]
]

MaySee-visible :
    (reader : Principal) (s : Store) (t : Transaction)
    → MaySee reader s t
    → is_visible reader s t ≡ true
unfolding is_visible
MaySee-visible reader s t (as_admin e) = ground arith
MaySee-visible reader s t (as_payer e) = ground arith
MaySee-visible reader s t (as_merchant m found own) = ground arith

find_visible :
    (p : Transaction → Bool) (id : ℕ) (ts : List Transaction) {t : Transaction}
    → find_first (λ x. x.id == id && p x) ts ≡ some t
    → (t.id ≡ id) × (p t ≡ true)
find_visible p id [] e = ground arith
find_visible p id (x ∷ ts) {t} e = ground (arith, find_visible p id ts {t = t})

found_visible :
    (p : Transaction → Bool) (id : ℕ) (ts : List Transaction) {t : Transaction}
    → find_first (λ x. x.id == id) ts ≡ some t
    → p t ≡ true
    → find_first (λ x. x.id == id && p x) ts ≡ some t
found_visible p id [] e h = cc
found_visible p id (x ∷ ts) {t} e h = ground (arith, found_visible p id ts {t = t})

found_unique :
    (p : Transaction → Bool) (id : ℕ) (ts : List Transaction) {t : Transaction}
    → IsDistinct key ts
    → find_first (λ x. x.id == id && p x) ts ≡ some t
    → find_first (λ x. x.id == id) ts ≡ some t
found_unique p id [] d e = cc
found_unique p id (x ∷ ts) {t} d e = elim (Bool-cases (x.id == id)) [
  | inr other ↦ rw other (found_unique p id ts d.1 (ground arith))
  | inl own ↦ elim (Bool-cases (p x)) [
    | inl yes_see ↦ ground arith
    | inr unseen ↦
        let later : find_first (λ y. y.id == id && p y) ts ≡ some t = ground arith in
        let apart = All-find_first key (λ y. y.id ≢ x.id) (λ y. y.id == id && p y) ts d.0 later in
        absurd (ground (arith, apart, find_visible p id ts {t = t} later))
  ]
]

-- A payment is returned exactly to those who may see it. To anybody else the answer is the one for
-- a payment that does not exist, and reading never writes.
pub find_one-MaySee :
    (reader : Principal) (id : ℕ) (s : Store)
    → IsValid s
    → ((t : Transaction)
        → (find_one reader id s ≡ (ok t, s))
          ↔ ((find_transaction id s.transactions ≡ some t) × MaySee reader s t))
      × (((t : Transaction) → find_transaction id s.transactions ≡ some t → ¬ (MaySee reader s t))
          → find_one reader id s ≡ (err (not_found "Transaction not found"), s))
unfolding find_one
find_one-MaySee reader id s v =
    let seen = λ (t : Transaction). is_visible reader s t in
    (
      λ t. (
        λ e.
            let found : find_first (λ x. x.id == id && seen x) s.transactions ≡ some t =
              ground arith in
            (
              found_unique seen id s.transactions v.ids.distinct found,
              visible-MaySee reader s t (find_visible seen id s.transactions found).1,
            ),
        λ h.
            let found = found_visible seen id s.transactions h.0 (MaySee-visible reader s t h.1) in
            ground (arith, found),
      ),
      λ unseen. elim (Option-cases (find_first (λ x. x.id == id && seen x) s.transactions)) [
        | inl nothing ↦ ground arith
        | inr (t, found) ↦ absurd (
            unseen t (found_unique seen id s.transactions v.ids.distinct found)
              (visible-MaySee reader s t (find_visible seen id s.transactions found).1))
      ],
    )
