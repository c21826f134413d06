-- ===== src/Accounts/Kyc/Laws.antt =====
-- What the webhook and the verification service change, and for whom.
use pay_era.Prelude.{
  ℕ, ◌≡◌, ◌≢◌, ◌↔◌, ◌⊎◌, inl, inr, refl, Bool, true, false, Option, none, some, List, [], ◌∷◌, ◌++◌,
  String, Result, ok, err, eq_iff, arith, Bool-cases, Option-cases, is_ok, ◌==◌, ◌&&◌,
}
use pay_era.Prelude.Table.{find_first, update_many, find_first-update_many}
use pay_era.Accounts.Store.{KycStatus, User, Store}
use pay_era.Accounts.Kyc.{
  Payload, Applicant, truthy, webhook_status, find_applicant, record_status, process_webhook,
  start_pending, set_status, status_log, status_event, get_status, create_verification,
}

completed_apart : (t : String) → t ≡ "completed" → (t ≢ "declined") × (t ≢ "rejected")
completed_apart t e = (λ d. cc, λ r. cc)

-- The status becomes VERIFIED exactly when the webhook says "completed", and REJECTED exactly when
-- it says "declined" or "rejected".
pub webhook_status_iff :
    (t : String)
    → ((webhook_status (some t) ≡ KycStatus.verified) ↔ (t ≡ "completed"))
      × ((webhook_status (some t) ≡ KycStatus.rejected) ↔ ((t ≡ "declined") ⊎ (t ≡ "rejected")))
unfolding webhook_status
webhook_status_iff t =
    ground
      (arith, completed_apart t, eq_iff t "completed", eq_iff t "declined", eq_iff t "rejected")

-- A user that was found is there when its row is updated.
find_first-weaken :
    (p : User → Bool) (us : List User) {u : User}
    → find_first p us ≡ some u
    → (v : User) × (find_first (λ x. x.id == u.id) us ≡ some v)
find_first-weaken p [] e = ground arith
find_first-weaken p (x ∷ us) {u} e = elim (Bool-cases (x.id == u.id)) [
  | inl same ↦ (x, rw same)
  | inr other ↦
      let (v, found) = find_first-weaken p us {u = u} (ground arith) in (v, rw other found)
]

-- A webhook that lacks its applicant or its status, or names no live user, answers `success: false`
-- and writes nothing. Any other one answers `success: true`, sets the status of the user that it names, and writes one
-- log entry and one outgoing event, which carries the new status.
pub process_webhook_lem :
    (now : ℕ) (payload : Payload) (s : Store)
    → let (r, s') = process_webhook now payload s in
      ((((truthy payload.applicant_id && truthy payload.status) ≡ false)
          ⊎ (find_applicant payload.applicant_id s.users ≡ none))
        × ((r ≡ ok false) × (s' ≡ s)))
      ⊎ ((u : User) × (find_applicant payload.applicant_id s.users ≡ some u)
          × (truthy payload.applicant_id ≡ true)
          × (truthy payload.status ≡ true)
          × (r ≡ ok true)
          × (s'.users
              ≡ update_many
                  (λ x. x.id == u.id)
                  (set_status now (webhook_status payload.status))
                  s.users)
          × (s'.logs ≡ s.logs ++ status_log u (webhook_status payload.status) ∷ [])
          × (s'.outbox ≡ s.outbox ++ status_event u (webhook_status payload.status) ∷ [])
          × (s'.wallets ≡ s.wallets))
unfolding process_webhook record_status
process_webhook_lem now payload s =
    elim (Option-cases (find_applicant payload.applicant_id s.users)) [
      | inl nobody ↦ inl (inr nobody, (ground arith, ground arith))
      | inr (u, found) ↦
          let (v, again) = find_first-weaken _ s.users found in
          elim (Bool-cases (truthy payload.applicant_id && truthy payload.status)) [
            | inl whole ↦ inr (
              u,
              found,
              ground arith,
              ground arith,
              ground arith,
              ground arith,
              ground arith,
              ground arith,
              ground arith,
            )
            | inr part ↦ inl (inl part, (ground arith, ground arith))
          ]
    ]

completed_of_verified :
    (status : Option String)
    → webhook_status status ≡ KycStatus.verified
    → status ≡ some "completed"
unfolding webhook_status
completed_of_verified none e = ground arith
completed_of_verified (some t) e = ground (arith, eq_iff t "completed")

-- A webhook makes a user's status VERIFIED only by saying "completed" about that very user.
pub process_webhook-verified :
    (now : ℕ) (payload : Payload) (s : Store) (n : ℕ)
    → get_status n (process_webhook now payload s).1 ≡ ok KycStatus.verified
    → (get_status n s ≡ ok KycStatus.verified)
      ⊎ ((payload.status ≡ some "completed")
          × ((u : User) × (find_applicant payload.applicant_id s.users ≡ some u) × (u.id ≡ n)))
unfolding get_status
process_webhook-verified now payload s n h = elim (process_webhook_lem now payload s) [
  | inl (_, (_, same)) ↦ inl (ground arith)
  | inr (u, found, _, _, _, users, _, _, _) ↦
      let read =
        find_first-update_many (λ (x : User). x.id) u.id n
          (set_status now (webhook_status payload.status)) s.users (λ _. refl) in
      elim (Bool-cases (u.id == n)) [
        | inl own ↦
            inr (
              completed_of_verified payload.status (ground (arith, read)),
              (u, found, ground arith),
            )
        | inr other ↦ inl (ground (arith, read))
      ]
]

-- Starting a verification with KYCAID never makes anybody VERIFIED, and sets the user's own status
-- to PENDING where it succeeds.
pub create_verification-pending :
    (token form : Option String) (answer : Result Applicant) (user n : ℕ) (s : Store)
    → let (r, s') = create_verification token form answer user s in
      (get_status n s' ≡ ok KycStatus.verified → get_status n s ≡ ok KycStatus.verified)
      × (is_ok r ≡ true → get_status user s' ≡ ok KycStatus.pending)
unfolding get_status create_verification
create_verification-pending token form (err e) user n s = (λ h. ground arith, λ h. ground arith)
create_verification-pending token form (ok a) user n s =
    let read_at = λ (m : ℕ).
      find_first-update_many (λ (x : User). x.id) user m (start_pending a.applicant_id) s.users
        (λ _. refl) in
    (λ h. ground (arith, read_at n), λ h. ground (arith, read_at user))
