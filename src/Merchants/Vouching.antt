-- ===== src/Merchants/Vouching.antt =====
-- Who approves merchants, over any sequence of requests of Merchants/Requests.
use pay_era.Prelude.{
  is_ok, ap, Result-cases, true, Bool, Result, String, List, [], ◌∷◌, ℕ, ◌≡◌, ◌⊎◌, inl, inr, refl,
  sym, subst, Option, none, some, List, [], ◌∷◌, ok, err, Exception, not_found, forbidden, or_else,
  bind_ok, bind_err, arith, Bool-cases, Option-cases, All, if◌then◌else◌,
}
use pay_era.Accounts.Store.{Principal, is_admin}
use pay_era.Payments.Store.{MerchantStatus}
use pay_era.Merchants.Store.{
  Merchant, MerchantQrCode, Store, find_merchant, update_merchant, insert_qr_code,
}
use pay_era.Merchants.Bodies.{UpdateMerchant, CreateMerchantQr}
use pay_era.Merchants.Service.{
  Texts, is_approval, new_merchant, create, find_one, may_access, set_given, set_approved,
  set_status, set_by_admin, update, approve, reject, suspend, create_qr, new_qr_code,
}
use pay_era.Accounts.Roles.{can_activate}
use pay_era.Chain.Soroban.{Rpc, Addresses}
use pay_era.Chain.Soroban.Contracts.{reject_merchant, suspend_merchant}
use pay_era.Merchants.Review
use pay_era.Merchants.Review.{ReviewMerchant}
use pay_era.Merchants.Review.{Reviewed, set_reviewed, set_review_approved}
use pay_era.Merchants.Requests.{
  Request, creation, change, approval, rejection, suspension, code, review_approval,
  review_rejection, review_suspension, caller, roles_of, handle, serve, run,
}
use pay_era.Merchants.Approvers.{
  IsVouched, IsHonest, insert_merchant-Vouched, update_merchant-Vouched, review-Vouched,
  approved_by,
}

module _ (IsAdmin : ℕ → Type 0) where
  module _ (text : Texts) where
    admin_status-Vouched :
        (id now : ℕ) (status : Option MerchantStatus) (m : Merchant)
        → IsAdmin id
        → IsVouched IsAdmin m
        → IsVouched IsAdmin (
            if is_approval status
            then set_approved text now id m
            else set_status text (or_else status m.status) m)
    admin_status-Vouched id now none m own h = h
    admin_status-Vouched id now (some MerchantStatus.approved) m own h =
        λ _. (id, (now, (refl, (refl, own))))
    admin_status-Vouched id now (some MerchantStatus.pending) m own h = λ e. ground arith
    admin_status-Vouched id now (some MerchantStatus.rejected) m own h = λ e. ground arith
    admin_status-Vouched id now (some MerchantStatus.suspended) m own h = λ e. ground arith

    set_by_admin-Vouched :
        (owner : Principal) (now : ℕ) (status : Option MerchantStatus) (m : Merchant)
        → IsHonest IsAdmin owner
        → IsVouched IsAdmin m
        → IsVouched IsAdmin (set_by_admin text owner now status m)
    unfolding set_by_admin
    set_by_admin-Vouched owner now status m honest h = elim (Bool-cases (is_admin owner.role)) [
      | inr other ↦ rw (other, set_by_admin) h
      | inl own ↦ rw (own, set_by_admin) (admin_status-Vouched owner.id now status m (honest own) h)
    ]

    find_one_cases :
        (owner : Principal) (id : ℕ) (s : Store)
        → ((m : Merchant) × (find_one text owner id s ≡ (ok m, s)))
          ⊎ ((e : Exception) × (find_one text owner id s ≡ (err e, s)))
    unfolding find_one
    find_one_cases owner id s = elim (Option-cases (find_merchant id s.merchants)) [
      | inl absent ↦ inr (not_found "Merchant not found", ground arith)
      | inr (m, found) ↦ elim (Bool-cases (may_access text owner m)) [
        | inl own ↦ inl (m, ground arith)
        | inr other ↦ inr (forbidden "Merchant belongs to another user", ground arith)
      ]
    ]

    insert_qr_code-merchants :
        (make : ℕ → MerchantQrCode) (s : Store) → (insert_qr_code make s).1.merchants ≡ s.merchants
    unfolding insert_qr_code
    insert_qr_code-merchants make s = ground arith

    update-Vouched :
        (owner : Principal) (id : ℕ) (dto : UpdateMerchant) (now : ℕ) (s : Store)
        → IsHonest IsAdmin owner
        → All (IsVouched IsAdmin) s.merchants
        → All (IsVouched IsAdmin) (update text owner id dto now s).1.merchants
    unfolding update
    update-Vouched owner id dto now s honest h =
        let f = λ (m : Merchant). set_by_admin text owner now dto.status (set_given text dto m) in
        let next = λ (_ : Merchant). update_merchant id f in
        elim (find_one_cases owner id s) [
          | inl (m, e) ↦
              subst (λ x. All (IsVouched IsAdmin) x.1.merchants)
                (sym (bind_ok (find_one text owner id) next s m s e))
                (update_merchant-Vouched IsAdmin id f s
                  (λ x v. set_by_admin-Vouched owner now dto.status (set_given text dto x) honest v)
                  h)
          | inr (x, e) ↦
              subst (λ y. All (IsVouched IsAdmin) y.1.merchants)
                (sym (bind_err (find_one text owner id) next s x s e)) h
        ]

    create_qr-Vouched :
        (owner : Principal) (id : ℕ) (dto : CreateMerchantQr) (s : Store)
        → All (IsVouched IsAdmin) s.merchants
        → All (IsVouched IsAdmin) (create_qr text owner id dto s).1.merchants
    unfolding create_qr
    create_qr-Vouched owner id dto s h =
        let next = λ (m : Merchant). insert_qr_code (new_qr_code text id m.display_name dto) in
        elim (find_one_cases owner id s) [
          | inl (m, e) ↦
              subst (λ x. All (IsVouched IsAdmin) x.1.merchants)
                (sym (bind_ok (find_one text owner id) next s m s e))
                (subst (All (IsVouched IsAdmin))
                  (sym (insert_qr_code-merchants (new_qr_code text id m.display_name dto) s)) h)
          | inr (x, e) ↦
              subst (λ y. All (IsVouched IsAdmin) y.1.merchants)
                (sym (bind_err (find_one text owner id) next s x s e)) h
        ]

  module _ {V : Type 0} (rpc : Rpc V) (at : Addresses) (uuid : ℕ → List ℕ) (units : String → List ℕ)
      (hash_upi_vpa : String → String) (owner_text : ℕ → String) (text : Texts) where
    handle-Vouched :
        (q : Request) (s : Store)
        → IsHonest IsAdmin (caller q)
        → is_ok (can_activate (roles_of q) (some (caller q))) ≡ true
        → All (IsVouched IsAdmin) s.merchants
        → All
            (IsVouched IsAdmin)
            (handle rpc at uuid units hash_upi_vpa owner_text text q s).merchants
    unfolding handle create approve reject suspend Review.approve Review.reject Review.suspend
    handle-Vouched (creation p dto codes) s honest e h =
        insert_merchant-Vouched IsAdmin (new_merchant text p dto codes) s (λ n x. ground arith) h
    handle-Vouched (change p id dto now) s honest e h = update-Vouched text p id dto now s honest h
    handle-Vouched (approval p id now) s honest e h =
        let f = set_approved text now p.id in
        update_merchant-Vouched IsAdmin id f s
          (approved_by IsAdmin p now f honest (λ m. (refl, refl)) e) h
    handle-Vouched (rejection p id) s honest e h =
        update_merchant-Vouched IsAdmin id (set_status text MerchantStatus.rejected) s
          (λ m v x. ground arith) h
    handle-Vouched (suspension p id) s honest e h =
        update_merchant-Vouched IsAdmin id (set_status text MerchantStatus.suspended) s
          (λ m v x. ground arith) h
    handle-Vouched (code p id dto) s honest e h = create_qr-Vouched text p id dto s h
    handle-Vouched (review_approval n p id dto now) s honest e h =
        let f = set_review_approved now p.id dto in
        review-Vouched IsAdmin p "merchant.approve" id f
          (Review.sync_approval rpc at uuid units hash_upi_vpa owner_text n) s
          (approved_by IsAdmin p now f honest (λ m. (refl, refl)) e) h
    handle-Vouched (review_rejection n p id dto) s honest e h =
        review-Vouched IsAdmin p "merchant.reject" id (set_reviewed dto MerchantStatus.rejected)
          (λ _. reject_merchant rpc at uuid units n id) s (λ m v x. ground arith) h
    handle-Vouched (review_suspension n p id dto) s honest e h =
        review-Vouched IsAdmin p "merchant.suspend" id (set_reviewed dto MerchantStatus.suspended)
          (λ _. suspend_merchant rpc at uuid units n id) s (λ m v x. ground arith) h

    serve-Vouched :
        (q : Request) (s : Store)
        → IsHonest IsAdmin (caller q)
        → All (IsVouched IsAdmin) s.merchants
        → All
            (IsVouched IsAdmin)
            (serve rpc at uuid units hash_upi_vpa owner_text text q s).merchants
    unfolding serve
    serve-Vouched q s honest h =
        let done : Result Bool → Store = λ r. elim r [
          | ok _ ↦ handle rpc at uuid units hash_upi_vpa owner_text text q s
          | err e ↦ s
        ] in
        let passed = can_activate (roles_of q) (some (caller q)) in
        elim (Result-cases passed) [
          | inl (b, e) ↦
              subst (λ r. All (IsVouched IsAdmin) (done r).merchants) (sym e)
                (handle-Vouched q s honest (ap is_ok e) h)
          | inr (x, e) ↦ subst (λ r. All (IsVouched IsAdmin) (done r).merchants) (sym e) h
        ]

    -- Whatever is created, changed, approved, rejected, suspended and reviewed through the two
    -- controllers, in any order and by anyone, each merchant that is APPROVED names the one who
    -- approved it and the time, and that one is an administrator: `IsAdmin` is anything that holds for
    -- the callers with the role ADMIN and for those who approved a merchant before.
    pub run-IsVouched :
        (qs : List Request) (s : Store)
        → All (λ q. IsHonest IsAdmin (caller q)) qs
        → All (IsVouched IsAdmin) s.merchants
        → All
            (IsVouched IsAdmin)
            (run rpc at uuid units hash_upi_vpa owner_text text qs s).merchants
    unfolding run
    run-IsVouched [] s honest h = h
    run-IsVouched (q ∷ qs) s honest h =
        run-IsVouched qs (serve rpc at uuid units hash_upi_vpa owner_text text q s) honest.1
          (serve-Vouched q s honest.0 h)
