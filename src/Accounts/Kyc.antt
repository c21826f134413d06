-- ===== src/Accounts/Kyc.antt =====
-- apps/api/src/kyc/kyc.service.ts. The verification service KYCAID is outside: its webhook is an
-- argument, and so is its answer when a verification is created.
pub mod Laws
use pay_era.Prelude.{
  ℕ, ◌≡◌, Bool, true, false, ◌&&◌, ◌||◌, not, Option, none, some, List, [], ◌∷◌, ◌++◌, String,
  Result, ok, err, Action, failure, pure, lift, transaction, modify, ◌>>=◌, ◌>>◌, str_eq, ◌==◌,
  if◌then◌else◌, is_some,
}
use pay_era.Prelude.Table.{find_first}
use pay_era.Accounts.Store.{
  KycStatus, kyc_name, User, AdminLog, OutboxEvent, Store, update_user, create_log,
}

-- The fields of the webhook's payload that are read.
pub record Payload : Type 0 where
  pub applicant_id : Option String
  pub status : Option String

abbrev pub truthy : Option String → Bool
truthy none = false
truthy (some t) = not (str_eq t "")

abbrev pub is_reference : Option String → Option String → Bool
is_reference (some a) (some b) = str_eq a b
is_reference (some a) none = false
is_reference none b = false

-- The status that a webhook asks for.
unfoldable pub webhook_status : Option String → KycStatus
webhook_status none = KycStatus.pending
webhook_status (some t) =
    if str_eq t "completed"
    then KycStatus.verified
    else if str_eq t "declined" || str_eq t "rejected"
    then KycStatus.rejected
    else KycStatus.pending

abbrev pub verified_now : ℕ → KycStatus → Option ℕ → Option ℕ
verified_now now KycStatus.verified old = some now
verified_now now KycStatus.unstarted old = old
verified_now now KycStatus.pending old = old
verified_now now KycStatus.rejected old = old

abbrev create_outbox : OutboxEvent → Action Store (Unit {0})
create_outbox e = modify (λ s. record s { outbox = s.outbox ++ e ∷ [] })

abbrev pub status_log : User → KycStatus → AdminLog
status_log user next = record {
  actor_user_id = none;
  action = "KYC_STATUS_UPDATED";
  target_type = "USER";
  target_id = user.id;
  metadata =
      ("previousStatus", kyc_name user.kyc_status)
      ∷ ("newStatus", kyc_name next)
      ∷ ("provider", "KYCAID")
      ∷ [];
}

abbrev pub status_event : User → KycStatus → OutboxEvent
status_event user next = record {
  aggregate_type = "USER";
  aggregate_id = user.id;
  event_type = "USER_KYC_UPDATED";
  payload = next;
}

abbrev pub set_status : ℕ → KycStatus → User → User
set_status now next u = record u {
  kyc_status = next;
  kyc_verified_at = verified_now now next u.kyc_verified_at;
}

-- The three writes of one webhook, in one database transaction.
unfoldable pub record_status : ℕ → User → KycStatus → Action Store (Unit {0})
record_status now user next = transaction (do
  update_user user.id (set_status now next)
  create_log (status_log user next)
  create_outbox (status_event user next))

abbrev pub find_applicant : Option String → List User → Option User
find_applicant applicant =
    find_first (λ u. is_reference applicant u.kyc_reference && not (is_some u.deleted_at))

-- `processWebhook`: the answer is the field `success`.
unfoldable pub process_webhook : ℕ → Payload → Action Store Bool
process_webhook now payload s =
    if not (truthy payload.applicant_id) || not (truthy payload.status)
    then (ok false, s)
    else elim (find_applicant payload.applicant_id s.users) [
      | none ↦ (ok false, s)
      | some user ↦ (record_status now user (webhook_status payload.status) >> pure true) s
    ]

-- `getStatus`: of the answer, the status.
unfoldable pub get_status : ℕ → Store → Result KycStatus
get_status user_id s = elim (find_first (λ u. u.id == user_id) s.users) [
  | none ↦ err (failure "User not found")
  | some u ↦ ok u.kyc_status
]

-- What KYCAID answers: the applicant's id and the address of the form.
pub record Applicant : Type 0 where
  pub applicant_id : String
  pub form_url : String

abbrev pub start_pending : String → User → User
start_pending reference u = record u {
  kyc_reference = some reference;
  kyc_status = KycStatus.pending;
}

-- `createVerification`, from the configuration and the answer of KYCAID (an exception where the
-- call or the response failed). The result is the address of the form.
unfoldable pub create_verification :
    (api_token form_id : Option String) → Result Applicant → ℕ → Action Store String
create_verification api_token form_id answer user_id s =
    if not (truthy api_token) || not (truthy form_id)
    then (err (failure "KYCAID not configured"), s)
    else (do
      applicant ← lift answer
      update_user user_id (start_pending applicant.applicant_id)
      create_log (record {
        actor_user_id = some user_id;
        action = "KYC_VERIFICATION_STARTED";
        target_type = "USER";
        target_id = user_id;
        metadata = ("applicantId", applicant.applicant_id) ∷ [];
      })
      pure applicant.form_url)
        s
