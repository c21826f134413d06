-- ===== src/Ramps/Initiation/Laws.antt =====
-- What initiating a ramp leaves behind, on every branch.
use pay_era.Prelude.{
  ◌+◌, ◌≡◌, refl, some, [], ◌∷◌, ◌++◌, Result, ok, err, message, arith, Result-cases, inl, inr, ◌<◌,
  All-append,
}
use pay_era.Prelude.Table.{find_first-append_fresh, update_many-append_fresh}
use pay_era.Prelude.Trail.{max_sequence-fresh, max_sequence-append, append-IsOrdered}
use pay_era.Ramps.Status.{RampStatus, RampType}
use pay_era.Ramps.Provider.{InitiateResult, Provider}
use pay_era.Ramps.Retry.{with_retry}
use pay_era.Ramps.Store.{Ramp, RampEvent, Payload, Store, owner, number}
use pay_era.Ramps.Store.Invariant.{IsValid, IsConsistent, key, create_ramp-IsValid}
use pay_era.Ramps.Initiation.{
  InitiateArgs, Initiated, Ambient, new_ramp, params_of, initiate_call, view, set_initiated,
  set_failed, initiate,
}

module _ (type : RampType) (provider : Provider) (args : InitiateArgs) where
  -- The provider's answer: it authenticates within three calls and then starts the ramp within
  -- three calls, or the last error of the step that failed.
  abbrev pub answer : Result InitiateResult
  answer = elim (with_retry (λ k. provider.authenticate k args.user_stellar_address) 3).outcome [
    | ok token ↦ (with_retry (λ k. initiate_call type provider k token (params_of args)) 3).outcome
    | err e ↦ err e
  ]

  module _ (env : Ambient) (s : Store) where
    -- The row and the two events that an initiation leaves.
    abbrev pub final_row : Result InitiateResult → Ramp
    final_row (ok result) = set_initiated result (new_ramp type provider args env s.next_id)
    final_row (err e) = set_failed e (new_ramp type provider args env s.next_id)

    abbrev pub final_result : Result InitiateResult → Result Initiated
    final_result (ok result) = ok (view (final_row (ok result)))
    final_result (err e) = err e

    abbrev pub first_event : RampEvent
    first_event = record {
      ramp_transaction_id = s.next_id;
      sequence = 1;
      status = some RampStatus.initiated;
      event_type = "ramp.created";
      source = "system";
      payload = Payload.created type provider.id;
    }

    abbrev pub second_event : Result InitiateResult → RampEvent
    second_event (ok result) = record {
      ramp_transaction_id = s.next_id;
      sequence = 2;
      status = some RampStatus.pending_user_transfer;
      event_type = "ramp.initiated";
      source = "system";
      payload = Payload.initiated result.provider_tx_id;
    }
    second_event (err e) = record {
      ramp_transaction_id = s.next_id;
      sequence = 2;
      status = some RampStatus.error;
      event_type = "ramp.initiation_failed";
      source = "system";
      payload = Payload.failed (message e);
    }

    -- Initiating a ramp adds exactly one row and exactly two events, numbered 1 and 2, and changes
    -- no other row. Where the provider answers, the row waits for the user with the provider's
    -- transaction id and address, and its view is returned; where it does not, the row is in ERROR
    -- with the code INITIATION_FAILED and the provider's last exception is thrown.
    pub initiate_lem :
        IsValid s
        → let (r, s') = initiate type provider args env s in
          (r ≡ final_result answer)
          × (s'.ramps ≡ s.ramps ++ final_row answer ∷ [])
          × (s'.events ≡ (s.events ++ first_event ∷ []) ++ second_event answer ∷ [])
          × (s'.next_id ≡ s.next_id + 1)
    unfolding initiate
    initiate_lem v =
        let empty = max_sequence-fresh owner number s.next_id s.events v.owners in
        let next = max_sequence-append owner number s.next_id s.events first_event in
        let row = new_ramp type provider args env s.next_id in
        let found = find_first-append_fresh key s.next_id s.ramps row v.ids.below refl in
        let written = λ (f : Ramp → Ramp).
          update_many-append_fresh key s.next_id f s.ramps row v.ids.below refl in
        elim (Result-cases
          (with_retry (λ k. provider.authenticate k args.user_stellar_address) 3).outcome) [
            | inl (token, auth) ↦
                elim (Result-cases
                  (with_retry (λ k. initiate_call type provider k token (params_of args))
                    3).outcome) [
                      | inl (result, begun) ↦
                          ground (arith, empty, next, found, written (set_initiated result))
                      | inr (e, refused) ↦
                          ground (arith, empty, next, found, written (set_failed e))
                    ]
            | inr (e, refused) ↦ ground (arith, empty, next, found, written (set_failed e))
          ]

    final_row-IsConsistent : (o : Result InitiateResult) → IsConsistent (final_row o)
    final_row-IsConsistent (ok result) = ground arith
    final_row-IsConsistent (err e) = ground arith

    second_event-number : (o : Result InitiateResult) → (second_event o).sequence ≡ 2
    second_event-number (ok result) = refl
    second_event-number (err e) = refl

    second_event-owner : (o : Result InitiateResult) → owner (second_event o) ≡ s.next_id
    second_event-owner (ok result) = refl
    second_event-owner (err e) = refl

    final_row-key : (o : Result InitiateResult) → key (final_row o) ≡ s.next_id
    final_row-key (ok result) = refl
    final_row-key (err e) = refl

    after : Result InitiateResult → Store
    after o = record {
      ramps = s.ramps ++ final_row o ∷ [];
      events = (s.events ++ first_event ∷ []) ++ second_event o ∷ [];
      next_id = s.next_id + 1;
    }

    after-IsValid : (o : Result InitiateResult) → IsValid s → IsValid (after o)
    unfolding after
    after-IsValid o v =
        let own = second_event-owner o in
        let empty = max_sequence-fresh owner number s.next_id s.events v.owners in
        let next = max_sequence-append owner number s.next_id s.events first_event in
        let grown =
          create_ramp-IsValid (final_row o) s v (final_row-key o) (final_row-IsConsistent o) in
        let begun =
          append-IsOrdered owner number s.events first_event v.ordered (omega (arith, empty)) in
        record {
          ids = grown.ids;
          owners =
              All-append (λ e. owner e < s.next_id + 1) (s.events ++ first_event ∷ [])
                (second_event o ∷ [])
                (All-append (λ e. owner e < s.next_id + 1) s.events (first_event ∷ []) grown.owners
                  (omega arith, tt))
                (omega (arith, own), tt);
          ordered =
              append-IsOrdered owner number (s.events ++ first_event ∷ []) (second_event o) begun
                (rw own (ground (arith, empty, next, second_event-number o)));
          rows = grown.rows;
        }

    -- It keeps the invariant of the tables.
    pub initiate-IsValid : IsValid s → IsValid (initiate type provider args env s).1
    unfolding after
    initiate-IsValid v =
        let s' = (initiate type provider args env s).1 in
        let (_, rows, events, next) = initiate_lem v in
        let same : s' ≡ after answer = ground (arith, rows, events, next) in
        rw same (after-IsValid answer v)
