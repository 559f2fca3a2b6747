-- ===== src/Settlements/Requested.antt =====
-- What the projector makes of new intents and of proofs of payment
-- (apps/api/src/modules/settlements/settlement-command.service.ts, lines 53-362, and
-- apps/api/src/modules/settlements/settlement.projector.ts).
use splitsaathi.Common.{
  >>=-eq-ok, List, Result, [], ap, arith, err, if◌then◌else◌, none, ok, ok-injective, or_default,
  refl, some, subst, sym, throw_if, ℕ, ◌>>=◌, ◌∙◌, ◌∷◌, ◌≡◌,
}
use splitsaathi.Common.Int.{leb_ℤ, pos, ℤ, ◌≤ℤ◌}
use splitsaathi.Common.Keys.{Text, codes, text_beq_iff, text_eq}
use splitsaathi.StateMachine.{
  SettlementEvent, SettlementState, awaiting_receiver_confirmation, generate_intent, intent_created,
  intent_generated, record_cash, transition,
}
use splitsaathi.Events.{DomainEvent, NewDomainEvent, settlement_intent_created}
use splitsaathi.EventStore.{stored_event, stored_events}
use splitsaathi.Settlements.{SettlementIntentRow, SettlementPaymentMethod, cash, upi}
use splitsaathi.Settlements.Projection.{
  SettlementPayload, Settlements, add_timeline, apply, apply_all, create_row, get_intent,
  intent_payload, intent_row, set_fields,
}
use splitsaathi.Settlements.Upi.{CreatedUpiIntent, UpiError, UpiIntentProvider}
use splitsaathi.Settlements.Requests.{CreateSettlementIntentCommand, intent_event}
use splitsaathi.Settlements.Starting.{
  created_events, created_payload, from_provider, generated_event, lacks_vpa, payment_event,
  upi_request,
}
use splitsaathi.Settlements.Following.{
  IsMoving, apply-eq, deal, get_intent-moved, moved, moved_row, moved_row_keeps,
}
use splitsaathi.Common.Dict.{get, get-set, set}
use splitsaathi.Settlements.Commands.{SettlementError, amount_not_positive, vpa_required}

-- The state that a new intent is in.
abbrev pub started_state : SettlementPaymentMethod → SettlementState
started_state cash = awaiting_receiver_confirmation
started_state upi = intent_generated

abbrev pub asked_deal : CreateSettlementIntentCommand → Text → Text × Text × Text × Text × ℤ × Text
asked_deal command id = (
  id,
  command.group_id,
  command.payer_participant_id,
  command.payee_participant_id,
  command.amount_minor,
  or_default (codes "INR") command.currency_code,
)

passed_positive :
    (amount : ℤ) {done : Unit {0}}
    → throw_if (leb_ℤ amount (pos 0)) amount_not_positive ≡ ok done
    → pos 1 ≤ℤ amount
passed_positive amount passed = ground arith

module _ (create_upi : UpiIntentProvider) (ledger_reference now : Text) (random_uuid : ℕ → Text)
    (actual_version count : ℕ) where
  abbrev stored : ℕ → NewDomainEvent SettlementPayload → DomainEvent SettlementPayload
  stored index event = stored_event now random_uuid actual_version count index event

  generated_moves :
      (command : CreateSettlementIntentCommand) (id : Text)
      (made : Result SettlementError CreatedUpiIntent) (second : NewDomainEvent SettlementPayload)
      (index : ℕ)
      → (made >>= λ upi_intent. ok (generated_event command id upi_intent)) ≡ ok second
      → IsMoving id (stored index second ∷ []) (generate_intent ∷ [])
  generated_moves command id (ok upi_intent) second index h =
      subst (λ e. IsMoving id (stored index e ∷ []) (generate_intent ∷ [])) (ok-injective h)
        (refl, refl, tt)
  generated_moves command id (err why) second index h = cc

  -- The second event of a new intent, from the state of the first.
  abbrev second_transition : SettlementPaymentMethod → SettlementEvent
  second_transition cash = record_cash
  second_transition upi = generate_intent

  payment_event_moves :
      (command : CreateSettlementIntentCommand) (id : Text) (method : SettlementPaymentMethod)
      (second : NewDomainEvent SettlementPayload) (index : ℕ)
      → payment_event create_upi ledger_reference command id method ≡ ok second
      → IsMoving id (stored index second ∷ []) (second_transition method ∷ [])
  unfolding payment_event
  payment_event_moves command id cash second index made =
      subst (λ e. IsMoving id (stored index e ∷ []) (record_cash ∷ [])) (ok-injective made)
        (refl, refl, tt)
  payment_event_moves command id upi second index made =
      generated_moves command id _ second index made

  second_moves :
      (method : SettlementPaymentMethod)
      → transition intent_created (second_transition method) ≡ ok (started_state method)
  unfolding transition
  second_moves cash = refl
  second_moves upi = refl

  -- The row of the first event.
  abbrev first_row :
      CreateSettlementIntentCommand → Text → SettlementPaymentMethod → SettlementIntentRow
  first_row command id method =
      let event = stored_event now random_uuid actual_version count 0 (
        intent_event settlement_intent_created id command.group_id command.actor_id
          (intent_payload (created_payload command id method))) in
      add_timeline event intent_created none
        (intent_row event (created_payload command id method) intent_created)

  abbrev with_first :
      Settlements → CreateSettlementIntentCommand → Text → SettlementPaymentMethod → Settlements
  with_first settlements command id method = record settlements {
    intents = set id (first_row command id method) settlements.intents;
  }

  apply_first :
      (settlements : Settlements) (command : CreateSettlementIntentCommand) (id : Text)
      (method : SettlementPaymentMethod)
      → apply settlements (
          stored_event now random_uuid actual_version count 0 (
            intent_event settlement_intent_created id command.group_id command.actor_id
              (intent_payload (created_payload command id method))))
        ≡ ok (with_first settlements command id method)
  unfolding apply create_row transition
  apply_first settlements command id method = refl

  found_first :
      (settlements : Settlements) (command : CreateSettlementIntentCommand) (id : Text)
      (method : SettlementPaymentMethod)
      → get_intent (with_first settlements command id method) id
        ≡ some (first_row command id method)
  found_first settlements command id method =
      get-set id id (first_row command id method) settlements.intents
      ∙ ap (λ t. if t then some (first_row command id method) else get id settlements.intents)
          ((text_beq_iff id id).1 refl)

  -- How the payer pays: in cash without a link, and otherwise with the link, its QR code, its reference
  -- and its end, as the provider has made them for this intent.
  abbrev pub IsPayable :
      CreateSettlementIntentCommand → Text → SettlementPaymentMethod → SettlementIntentRow → Type 0
  IsPayable command id cash row = (row.upi_uri ≡ none) × (row.qr_payload ≡ none)
  IsPayable command id upi row =
      (made : CreatedUpiIntent) × (create_upi (upi_request ledger_reference command id) ≡ ok made)
      × (row.upi_uri ≡ some made.upi_uri)
      × (row.qr_payload ≡ some made.qr_payload)
      × (row.provider_reference ≡ some made.provider_reference)
      × (row.expires_at ≡ some made.expires_at)

  -- The row after the second event.
  abbrev second_row :
      CreateSettlementIntentCommand
      → Text
      → SettlementPaymentMethod
      → NewDomainEvent SettlementPayload
      → SettlementIntentRow
  second_row command id method second =
      moved_row (stored 1 second) id (started_state method) (first_row command id method)

  generated-IsPayable :
      (command : CreateSettlementIntentCommand) (id : Text)
      (answer : Result UpiError CreatedUpiIntent) (second : NewDomainEvent SettlementPayload)
      → create_upi (upi_request ledger_reference command id) ≡ answer
      → (from_provider answer >>= λ made. ok (generated_event command id made)) ≡ ok second
      → IsPayable command id upi (second_row command id upi second)
  unfolding set_fields
  generated-IsPayable command id (ok made) second answered h =
      subst (λ e. IsPayable command id upi (second_row command id upi e)) (ok-injective h)
        (made, answered, refl, refl, refl, refl)
  generated-IsPayable command id (err why) second answered h = cc

  second-IsPayable :
      (command : CreateSettlementIntentCommand) (id : Text) (method : SettlementPaymentMethod)
      (second : NewDomainEvent SettlementPayload)
      → payment_event create_upi ledger_reference command id method ≡ ok second
      → IsPayable command id method (second_row command id method second)
  unfolding payment_event set_fields
  second-IsPayable command id cash second paid =
      subst (λ e. IsPayable command id cash (second_row command id cash e)) (ok-injective paid)
        (refl, refl)
  second-IsPayable command id upi second paid =
      generated-IsPayable command id (create_upi (upi_request ledger_reference command id)) second
        refl paid

  -- A new intent that `createIntent` lets pass is projected without an error: it waits for its receiver
  -- if it is paid in cash, and otherwise it has the link, the QR code, the reference and the end that the
  -- provider has made for it; it has the participants, the amount, the currency and the group that were
  -- asked for, and the amount is positive.
  pub created_events_project :
      (settlements : Settlements) (command : CreateSettlementIntentCommand) (id : Text)
      (events : List (NewDomainEvent SettlementPayload))
      → created_events create_upi ledger_reference command id ≡ ok events
      → (after : Settlements) × (last : SettlementIntentRow) × (apply_all settlements
            (stored_events now random_uuid actual_version count 0 events)
          ≡ ok after)
        × (get_intent after id ≡ some last)
        × (last.state ≡ started_state (or_default upi command.payment_method))
        × (deal last ≡ asked_deal command id)
        × IsPayable command id (or_default upi command.payment_method) last
        × (pos 1 ≤ℤ command.amount_minor)
  unfolding created_events apply_all stored_events
  created_events_project settlements command id events made =
      let method = or_default upi command.payment_method in
      let (done, positive, made1) =
        >>=-eq-ok (throw_if (leb_ℤ command.amount_minor (pos 0)) amount_not_positive) _ made in
      let (done', has_vpa, made2) =
        >>=-eq-ok (throw_if (lacks_vpa method command.payee_vpa) vpa_required) _ made1 in
      let (second, paid, made3) =
        >>=-eq-ok (payment_event create_upi ledger_reference command id method) _ made2 in
      let first = first_row command id method in
      let event = stored 1 second in
      let (named, payload, end) = payment_event_moves command id method second 1 paid in
      let (state, same_deal) = moved_row_keeps event id (started_state method) first in
      (
        moved event id (started_state method) first (with_first settlements command id method),
        second_row command id method second,
        ap (λ es. apply_all settlements (stored_events now random_uuid actual_version count 0 es))
              (sym (ok-injective made3))
            ∙ ap (λ m. m >>= λ s. apply_all s (event ∷ []))
                (apply_first settlements command id method)
            ∙ ap (λ m. m >>= λ s. apply_all s [])
                (apply-eq event id (second_transition method) first (started_state method)
                  (with_first settlements command id method) payload
                  (found_first settlements command id method) named (second_moves method)),
        get_intent-moved event id (started_state method) first
            (with_first settlements command id method),
        state,
        same_deal,
        second-IsPayable command id method second paid,
        passed_positive command.amount_minor positive,
      )
