-- ===== src/Merchants/Approvers.antt =====
-- Merchants that name who approved them, and the writes that keep them so.
use pay_era.Prelude.{
  is_ok, true, Result, String, [], ◌∷◌, any, ℕ, ◌≡◌, inl, inr, refl, sym, subst, not, ◌&&◌, some,
  [], ◌∷◌, arith, Bool-cases, Option-cases, All, All-append, any, ◌==◌,
}
use pay_era.Prelude.Table.{All-update_many}
use pay_era.Accounts.Store.{Principal, is_admin}
use pay_era.Payments.Store.{MerchantStatus}
use pay_era.Merchants.Store.{
  Merchant, Store, find_merchant, insert_merchant, update_merchant, clashes,
}
use pay_era.Accounts.Store.{UserRole}
use pay_era.Accounts.Roles.{can_activate, same_role}
use pay_era.Merchants.Review
use pay_era.Merchants.Review.{ReviewMerchant}
use pay_era.Merchants.Review.{Reviewed, set_reviewed, set_review_approved}
use pay_era.Merchants.Review.Laws.{IsWritten, review_from-IsWritten}
use pay_era.Merchants.Requests.{admins}

module _ (IsAdmin : ℕ → Type 0) where
  -- A merchant that is APPROVED names the administrator who approved it, and the time.
  abbrev pub IsVouched : Merchant → Type 0
  IsVouched m =
      m.status ≡ MerchantStatus.approved
      → (admin : ℕ) × ((now : ℕ) × ((m.approved_by_admin_id ≡ some admin)
            × ((m.approved_at ≡ some now) × IsAdmin admin)))

  -- The administrators among the callers are those of `IsAdmin`.
  abbrev pub IsHonest : Principal → Type 0
  IsHonest p = is_admin p.role ≡ true → IsAdmin p.id

  pub insert_merchant-Vouched :
      (make : ℕ → Merchant) (s : Store)
      → ((n : ℕ) → IsVouched (make n))
      → All IsVouched s.merchants
      → All IsVouched (insert_merchant make s).1.merchants
  unfolding insert_merchant
  insert_merchant-Vouched make s new h =
      elim (Bool-cases (any (clashes (make s.next_id)) s.merchants)) [
        | inl taken ↦ rw (taken, insert_merchant) h
        | inr free ↦
            rw (free, insert_merchant)
              (All-append IsVouched s.merchants (make s.next_id ∷ []) h (new s.next_id, tt))
      ]

  pub update_merchant-Vouched :
      (id : ℕ) (f : Merchant → Merchant) (s : Store)
      → ((m : Merchant) → IsVouched m → IsVouched (f m))
      → All IsVouched s.merchants
      → All IsVouched (update_merchant id f s).1.merchants
  unfolding update_merchant
  update_merchant-Vouched id f s keep h = elim (Option-cases (find_merchant id s.merchants)) [
    | inl absent ↦ rw (absent, update_merchant) h
    | inr (m, found) ↦
        elim (Bool-cases (any (λ x. not (x.id == id) && clashes (f m) x) s.merchants)) [
          | inl taken ↦ rw (found, taken, update_merchant) h
          | inr free ↦
              rw (found, free, update_merchant)
                (All-update_many (λ (x : Merchant). x.id) IsVouched (λ x. x.id == id) f s.merchants
                  keep h)
        ]
  ]

  pub review-Vouched :
      (actor : Principal) (action : String) (id : ℕ) (f : Merchant → Merchant)
      (sync : Merchant → Result String) (s : Store)
      → ((m : Merchant) → IsVouched m → IsVouched (f m))
      → All IsVouched s.merchants
      → All IsVouched (Review.review actor action id f sync s).1.merchants
  review-Vouched actor action id f sync s keep h =
      elim (review_from-IsWritten actor action id f sync s) [
        | IsWritten.absent none_there out ↦ subst (λ x. All IsVouched x.1.merchants) (sym out) h
        | IsWritten.taken m found clash out ↦ subst (λ x. All IsVouched x.1.merchants) (sym out) h
        | IsWritten.written m found free result out ↦
            subst (λ x. All IsVouched x.merchants) (sym out)
              (All-update_many (λ (x : Merchant). x.id) IsVouched (λ x. x.id == id) f s.merchants
                keep h)
      ]

  role-admin : (r : UserRole) → any (λ x. same_role x r) admins ≡ true → is_admin r ≡ true
  role-admin UserRole.admin e = refl
  role-admin UserRole.consumer e = ground arith
  role-admin UserRole.merchant_operator e = ground arith
  role-admin UserRole.brand_operator e = ground arith

  -- Who passes the guard of the administrators is one.
  passed-admin :
      (p : Principal) → IsHonest p → is_ok (can_activate admins (some p)) ≡ true → IsAdmin p.id
  unfolding can_activate
  passed-admin p honest e = elim (Bool-cases (any (λ x. same_role x p.role) admins)) [
    | inl own ↦ honest (role-admin p.role own)
    | inr other ↦ ground arith
  ]

  pub approved_by :
      (p : Principal) (now : ℕ) (f : Merchant → Merchant)
      → IsHonest p
      → ((m : Merchant) → ((f m).approved_by_admin_id ≡ some p.id) × ((f m).approved_at ≡ some now))
      → is_ok (can_activate admins (some p)) ≡ true
      → (m : Merchant) → IsVouched m
      → IsVouched (f m)
  approved_by p now f honest names e m v =
      λ _. (p.id, (now, ((names m).0, ((names m).1, passed-admin p honest e))))
