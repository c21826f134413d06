-- ===== src/Merchants/Review/Laws.antt =====
-- What a review writes, and when the contract cannot follow it.
use pay_era.Prelude.{
  or_else, ℕ, ◌≡◌, inl, inr, refl, true, false, not, none, some, List, [], ◌∷◌, ◌++◌, String,
  Result, ok, err, Exception, no_record, unique_violation, arith, Bool-cases, Option-cases, ◌==◌,
  any, all, ◌&&◌,
}
use pay_era.Prelude.Table.{update_many}
use pay_era.Accounts.Store.{Principal}
use pay_era.Chain.Soroban.{Rpc, Addresses, labels_of, is_valid_argument}
use pay_era.Chain.Soroban.Laws.{invoke-invalid}
use pay_era.Chain.Soroban.Contracts.{
  register_merchant, get_merchant, register_call, reject_merchant, suspend_merchant,
}
use pay_era.Payments.Store.{MerchantStatus}
use pay_era.Merchants.Store.{Merchant, ReviewLog, Store, find_merchant, update_merchant, clashes}
use pay_era.Merchants.Review.{
  ReviewMerchant, Reviewed, set_reviewed, set_review_approved, approve, reject, suspend,
  review_from, review_with, review, register_args, sync_approval,
}

-- The entry that a review adds to the log.
abbrev pub entry : Principal → String → ℕ → Merchant → Merchant → ReviewLog
entry actor action id before after = record {
  action = action;
  actor_user_id = actor.id;
  target_type = "merchant";
  target_id = id;
  before = before;
  after = after;
}

module _ (id : ℕ) (f : Merchant → Merchant) (s : Store) where
  update_merchant-absent :
      find_merchant id s.merchants ≡ none → update_merchant id f s ≡ (err no_record, s)
  unfolding update_merchant
  update_merchant-absent absent = ground arith

  update_merchant-taken :
      (m : Merchant)
      → find_merchant id s.merchants ≡ some m
      → any (λ x. not (x.id == id) && clashes (f m) x) s.merchants ≡ true
      → update_merchant id f s ≡ (err unique_violation, s)
  unfolding update_merchant
  update_merchant-taken m found taken = rw (update_merchant, found, taken) refl

  pub update_merchant_lem :
      (m : Merchant)
      → find_merchant id s.merchants ≡ some m
      → any (λ x. not (x.id == id) && clashes (f m) x) s.merchants ≡ false
      → update_merchant id f s
        ≡ (ok (f m), record s { merchants = update_many (λ x. x.id == id) f s.merchants })
  unfolding update_merchant
  update_merchant_lem m found free = rw (update_merchant, found, free) refl

-- How a review that changes a merchant's row by `f` ends: it throws and writes nothing, where there is
-- no such merchant or another one has a unique column of it; or it writes that row and one log entry.
-- `sync` is what the contract answers afterwards.
pub data IsWritten (actor : Principal) (action : String) (id : ℕ) (f : Merchant → Merchant)
    (sync : Merchant → Result String) (s : Store) (out : Result Reviewed × Store) : Type 0 where
  absent :
      find_merchant id s.merchants ≡ none
      → out ≡ (err no_record, s)
      → IsWritten actor action id f sync s out
  taken :
      (m : Merchant)
      → find_merchant id s.merchants ≡ some m
      → any (λ x. not (x.id == id) && clashes (f m) x) s.merchants ≡ true
      → out ≡ (err unique_violation, s)
      → IsWritten actor action id f sync s out
  written :
      (m : Merchant)
      → find_merchant id s.merchants ≡ some m
      → any (λ x. not (x.id == id) && clashes (f m) x) s.merchants ≡ false
      → out.0 ≡ ok (record { merchant = f m; synced = sync m })
      → out.1 ≡ record s {
        merchants = update_many (λ x. x.id == id) f s.merchants;
        logs = s.logs ++ entry actor action id m (f m) ∷ [];
      }
      → IsWritten actor action id f sync s out

pub review_from-IsWritten :
    (actor : Principal) (action : String) (id : ℕ) (f : Merchant → Merchant)
    (sync : Merchant → Result String) (s : Store)
    → IsWritten actor action id f sync s (review actor action id f sync s)
unfolding review review_with review_from
review_from-IsWritten actor action id f sync s =
    elim (Option-cases (find_merchant id s.merchants)) [
      | inl none_there ↦ absent none_there (ground arith)
      | inr (m, found) ↦
          elim (Bool-cases (any (λ x. not (x.id == id) && clashes (f m) x) s.merchants)) [
            | inl clash ↦
                let failed = update_merchant-taken id f s m found clash in
                taken m found clash (ground arith)
            | inr free ↦
                let done = update_merchant_lem id f s m found free in
                written m found free (ground arith) (ground arith)
          ]
    ]

module _ {V : Type 0} (rpc : Rpc V) (at : Addresses) (uuid : ℕ → List ℕ) (units : String → List ℕ)
    (hash_upi_vpa : String → String) (owner_text : ℕ → String) where
  -- The three reviews of a merchant, whatever the contract answers: an approval writes the status
  -- APPROVED with the approver and the time, a rejection REJECTED and a suspension SUSPENDED, each
  -- with the metadata and the risk level that the request gives, and one log entry with the row before
  -- and the row after; no other column or row changes. A review throws, and writes nothing, only
  -- where there is no such merchant or another one has a unique column of it.
  pub review-IsWritten :
      (attempt : ℕ) (actor : Principal) (id : ℕ) (dto : ReviewMerchant) (now : ℕ) (s : Store)
      → IsWritten actor "merchant.approve" id
          (λ m. record m {
            status = MerchantStatus.approved;
            approved_at = some now;
            approved_by_admin_id = some actor.id;
            metadata = or_else dto.metadata m.metadata;
            risk_level = or_else dto.risk_level m.risk_level;
          })
          (sync_approval rpc at uuid units hash_upi_vpa owner_text attempt)
          s
          (approve rpc at uuid units hash_upi_vpa owner_text attempt actor id dto now s)
        × (IsWritten actor "merchant.reject" id
              (λ m. record m {
                status = MerchantStatus.rejected;
                metadata = or_else dto.metadata m.metadata;
                risk_level = or_else dto.risk_level m.risk_level;
              })
              (λ _. reject_merchant rpc at uuid units attempt id)
              s
              (reject rpc at uuid units hash_upi_vpa owner_text attempt actor id dto s)
            × IsWritten actor "merchant.suspend" id
                (λ m. record m {
                  status = MerchantStatus.suspended;
                  metadata = or_else dto.metadata m.metadata;
                  risk_level = or_else dto.risk_level m.risk_level;
                })
                (λ _. suspend_merchant rpc at uuid units attempt id)
                s
                (suspend rpc at uuid units hash_upi_vpa owner_text attempt actor id dto s))
  unfolding approve reject suspend
  review-IsWritten attempt actor id dto now s = (
    review_from-IsWritten actor "merchant.approve" id (set_review_approved now actor.id dto)
        (sync_approval rpc at uuid units hash_upi_vpa owner_text attempt) s,
    (
      review_from-IsWritten actor "merchant.reject" id (set_reviewed dto MerchantStatus.rejected)
          (λ _. reject_merchant rpc at uuid units attempt id) s,
      review_from-IsWritten actor "merchant.suspend" id (set_reviewed dto MerchantStatus.suspended)
          (λ _. suspend_merchant rpc at uuid units attempt id) s,
    ),
  )

  -- The contract never follows the approval of a merchant that is not registered with it and has an
  -- owner, where the text of a user's id is no Stellar address: the registration, which passes that
  -- text as the owner's address, fails, and the approval is not asked for.
  pub sync_approval-owner :
      (attempt : ℕ) (m : Merchant) (owner : ℕ)
      → m.owner_user_id ≡ some owner
      → rpc.is_address (owner_text owner) ≡ false
      → get_merchant rpc at uuid units attempt m.id ≡ none
      → let args = register_args rpc at uuid units hash_upi_vpa owner_text m in
        (e : Exception) × ((register_merchant rpc at uuid units attempt args ≡ err e)
          × (sync_approval rpc at uuid units hash_upi_vpa owner_text attempt m ≡ err e))
  unfolding sync_approval register_merchant
  sync_approval-owner attempt m owner owned no_address unregistered =
      let args = register_args rpc at uuid units hash_upi_vpa owner_text m in
      let invalid : all (is_valid_argument rpc) (register_call rpc at uuid units args).arguments
          ≡ false =
        ground arith in
      let (e, refused) =
        invoke-invalid rpc (labels_of "MerchantRegistry register_merchant") attempt
          (register_call rpc at uuid units args) invalid in
      (e, (ground arith, ground arith))
