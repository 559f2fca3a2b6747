-- ===== src/Settlements/Projection.antt =====
-- `SettlementProjector`: apps/api/src/modules/settlements/settlement.projector.ts.
use splitsaathi.Common.Sort.{sort}
use splitsaathi.Common.{
  Bool, List, Option, Result, [], any, err, false, filter, find, if◌then◌else◌, none, not, ok,
  or_default, some, true, ◌&&◌, ◌++◌, ◌>>=◌, ◌∷◌,
}
use splitsaathi.Common.Int.{ℤ}
use splitsaathi.Common.Keys.{Text, codes, text_eq, ◌==◌}
use splitsaathi.Common.Dict.{Dict, get, set, values}
use splitsaathi.StateMachine.{
  InvalidTransition, SettlementEvent, SettlementState, auto_match, can, cancel, confirm,
  create_intent, detect_duplicate, detect_partial, dispute, expire, generate_intent, open_upi_app,
  post_ledger, record_cash, refund, reject, request_confirmation, reverse, submit_proof, suggested,
  transition,
}
use splitsaathi.Events.{
  DomainEvent, EventType, cash_settlement_recorded, duplicate_payment_reference_detected,
  expense_adjusted, expense_created, expense_voided, export_job_created, import_item_committed,
  import_job_created, partial_payment_detected, payment_auto_matched, payment_proof_submitted,
  receiver_confirmation_requested, recurring_expense_generated, recurring_schedule_created,
  settlement_cancelled, settlement_confirmed, settlement_disputed, settlement_expired,
  settlement_intent_created, settlement_ledger_posted, settlement_refunded, settlement_rejected,
  settlement_reversed, upi_app_opened, upi_intent_generated,
}
use splitsaathi.Settlements.{SettlementIntentRow, SettlementPaymentMethod, upi}

-- The payload of `SettlementIntentCreated`.
pub record IntentPayload : Type 0 where
  pub settlement_intent_id : Text
  pub group_id : Text
  pub payer_participant_id : Text
  pub payee_participant_id : Text
  pub amount_minor : ℤ
  pub currency_code : Text
  pub note : Text
  pub payment_method : Option SettlementPaymentMethod

-- The payload of `UpiIntentGenerated`.
pub record UpiPayload : Type 0 where
  pub provider_reference : Text
  pub upi_uri : Text
  pub qr_payload : Text
  pub expires_at : Text
  pub payee_vpa : Option Text

-- The payload of `PaymentProofSubmitted`.
pub record ProofPayload : Type 0 where
  pub proof_id : Text
  pub settlement_intent_id : Text
  pub amount_minor : Option ℤ
  pub utr : Option Text
  pub note : Option Text
  pub attachment_id : Option Text

-- The payloads that the event types come with: that of an intent, of a generated UPI link, of an opened
-- app, of a proof, and otherwise a reason at most.
pub data SettlementPayload : Type 0 where
  intent_payload : IntentPayload → SettlementPayload
  upi_payload : Option Text → UpiPayload → SettlementPayload
  opened_payload : Option Text → Option Text → SettlementPayload
  proof_payload : ProofPayload → SettlementPayload
  reason_payload : Option Text → Option Text → SettlementPayload

-- `payload.settlementIntentId`, and `payload.reason`.
abbrev pub payload_intent_id : SettlementPayload → Option Text
payload_intent_id (intent_payload payload) = some payload.settlement_intent_id
payload_intent_id (upi_payload id payload) = id
payload_intent_id (opened_payload id app) = id
payload_intent_id (proof_payload payload) = some payload.settlement_intent_id
payload_intent_id (reason_payload id reason) = id

abbrev pub payload_reason : SettlementPayload → Option Text
payload_reason (reason_payload id reason) = reason
payload_reason _ = none

-- `transitionForEvent`.
abbrev pub transition_for_event : EventType → Option SettlementEvent
transition_for_event settlement_intent_created = some create_intent
transition_for_event upi_intent_generated = some generate_intent
transition_for_event upi_app_opened = some open_upi_app
transition_for_event cash_settlement_recorded = some record_cash
transition_for_event payment_proof_submitted = some submit_proof
transition_for_event payment_auto_matched = some auto_match
transition_for_event receiver_confirmation_requested = some request_confirmation
transition_for_event settlement_confirmed = some confirm
transition_for_event settlement_ledger_posted = some post_ledger
transition_for_event settlement_rejected = some reject
transition_for_event settlement_disputed = some dispute
transition_for_event settlement_reversed = some reverse
transition_for_event settlement_refunded = some refund
transition_for_event partial_payment_detected = some detect_partial
transition_for_event duplicate_payment_reference_detected = some detect_duplicate
transition_for_event settlement_expired = some expire
transition_for_event settlement_cancelled = some cancel
transition_for_event _ = none

-- The test of the type's name at the head of `apply`: it starts with `Settlement` or `Cash`, or
-- contains `Payment`, `Upi` or `Receiver`.
abbrev pub is_settlement_type : EventType → Bool
is_settlement_type expense_created = false
is_settlement_type expense_adjusted = false
is_settlement_type expense_voided = false
is_settlement_type import_job_created = false
is_settlement_type import_item_committed = false
is_settlement_type export_job_created = false
is_settlement_type recurring_schedule_created = false
is_settlement_type recurring_expense_generated = false
is_settlement_type _ = true

-- `transitionState`, on the state of the row: events of the time when cash was posted at once are
-- confirmed on the way.
unfoldable pub transition_state :
    SettlementState → SettlementEvent → Result InvalidTransition SettlementState
unfolding transition can
transition_state state post_ledger =
    if not (can state post_ledger) && can state confirm
    then (transition state confirm >>= λ next. transition next post_ledger)
    else transition state post_ledger
transition_state state event_name = transition state event_name

-- What `apply` throws.
pub data ProjectionError : Type 0 where
  missing_intent : Text → ProjectionError
  not_allowed : InvalidTransition → ProjectionError

abbrev pub allowed : {A : Type 0} → Result InvalidTransition A → Result ProjectionError A
allowed result = elim result [ ok a ↦ ok a | err why ↦ err (not_allowed why) ]

-- The Maps of the projector.
pub record Settlements : Type 0 where
  pub intents : Dict Text SettlementIntentRow
  pub payment_reference_index : Dict Text Text

-- `addTimeline`.
abbrev pub add_timeline :
    DomainEvent SettlementPayload
    → SettlementState
    → Option Text
    → SettlementIntentRow
    → SettlementIntentRow
add_timeline event state note row = record row {
  timeline =
      row.timeline
      ++ record {
        event_id = event.event_id;
        type = event.type;
        state = state;
        actor_id = event.actor_id;
        occurred_at = event.occurred_at;
        note = note;
      }
        ∷ [];
}

-- The row of a new intent.
abbrev pub intent_row :
    DomainEvent SettlementPayload → IntentPayload → SettlementState → SettlementIntentRow
intent_row event payload state = record {
  settlement_intent_id = payload.settlement_intent_id;
  group_id = payload.group_id;
  payer_participant_id = payload.payer_participant_id;
  payee_participant_id = payload.payee_participant_id;
  amount_minor = payload.amount_minor;
  currency_code = payload.currency_code;
  note = payload.note;
  payment_method = or_default upi payload.payment_method;
  state = state;
  provider_reference = none;
  upi_uri = none;
  qr_payload = none;
  payee_vpa = none;
  expires_at = none;
  created_by = or_default (codes "system") event.actor_id;
  created_at = event.occurred_at;
  updated_at = event.occurred_at;
  ledger_posted_at = none;
  proofs = [];
  app_open_events = [];
  timeline = [];
}

-- A text that counts in a test: there, and not empty.
abbrev pub nonempty : Option Text → Option Text
nonempty (some (c ∷ cs)) = some (c ∷ cs)
nonempty _ = none

-- The fields that the types `UpiIntentGenerated`, `UpiAppOpened`, `PaymentProofSubmitted` and
-- `SettlementLedgerPosted` set. A type and a payload that do not belong together set none.
unfoldable pub set_fields :
    DomainEvent SettlementPayload
    → Text
    → EventType
    → SettlementPayload
    → SettlementIntentRow
    → SettlementIntentRow
set_fields event id upi_intent_generated (upi_payload _ payload) row = record row {
  provider_reference = some payload.provider_reference;
  upi_uri = some payload.upi_uri;
  qr_payload = some payload.qr_payload;
  expires_at = some payload.expires_at;
  payee_vpa = elim (nonempty payload.payee_vpa) [ some vpa ↦ some vpa | none ↦ row.payee_vpa ];
}
set_fields event id upi_app_opened (opened_payload _ app) row = record row {
  app_open_events =
      row.app_open_events
      ++ record {
        settlement_intent_id = id;
        opened_by = or_default (codes "system") event.actor_id;
        upi_app = app;
        opened_at = event.occurred_at;
      }
        ∷ [];
}
set_fields event id payment_proof_submitted (proof_payload payload) row = record row {
  proofs =
      row.proofs
      ++ record {
        proof_id = payload.proof_id;
        settlement_intent_id = payload.settlement_intent_id;
        submitted_by = or_default (codes "system") event.actor_id;
        amount_minor = payload.amount_minor;
        utr = payload.utr;
        note = payload.note;
        attachment_id = payload.attachment_id;
        submitted_at = event.occurred_at;
      }
        ∷ [];
}
set_fields event id settlement_ledger_posted _ row = record row {
  ledger_posted_at = some event.occurred_at;
}
set_fields event id _ _ row = row

-- The index of payment references after an event.
unfoldable pub index_reference :
    Text → EventType → SettlementPayload → Dict Text Text → Dict Text Text
index_reference id payment_proof_submitted (proof_payload payload) index =
    elim (nonempty payload.utr) [ some utr ↦ set utr id index | none ↦ index ]
index_reference id _ _ index = index

-- The update of a row by an event that is not its first.
unfoldable pub update_row :
    DomainEvent SettlementPayload
    → Text
    → SettlementIntentRow
    → Result ProjectionError SettlementIntentRow
unfolding transition_state set_fields
update_row event id row = do
  state ← elim (transition_for_event event.type) [
    | some event_name ↦ allowed (transition_state row.state event_name)
    | none ↦ ok row.state
  ]
  let updated = set_fields event id event.type event.payload (record row { state = state })
  ok (
      add_timeline event state (payload_reason event.payload)
        (record updated { updated_at = event.occurred_at }))

-- `apply` on an event that creates an intent, and on another event of a settlement.
unfoldable pub create_row :
    Settlements → DomainEvent SettlementPayload → IntentPayload → Result ProjectionError Settlements
unfolding transition
create_row settlements event payload = do
  state ← allowed (transition suggested create_intent)
  ok (record settlements {
    intents =
        set payload.settlement_intent_id
          (add_timeline event state none (intent_row event payload state)) settlements.intents;
  })

unfoldable pub update_at :
    Settlements
    → DomainEvent SettlementPayload
    → Text
    → Option SettlementIntentRow
    → Result ProjectionError Settlements
unfolding update_row index_reference
update_at settlements event id none = err (missing_intent id)
update_at settlements event id (some row) = do
  updated ← update_row event id row
  ok (record {
    intents = set id updated settlements.intents;
    payment_reference_index =
        index_reference id event.type event.payload settlements.payment_reference_index;
  })

unfoldable pub update_intent :
    Settlements → DomainEvent SettlementPayload → Result ProjectionError Settlements
unfolding update_at
update_intent settlements event =
    let id = or_default event.aggregate_id (payload_intent_id event.payload) in
    update_at settlements event id (get id settlements.intents)

unfoldable pub apply_type :
    Settlements
    → DomainEvent SettlementPayload
    → EventType
    → SettlementPayload
    → Result ProjectionError Settlements
unfolding create_row update_intent
apply_type settlements event settlement_intent_created (intent_payload payload) =
    create_row settlements event payload
apply_type settlements event _ _ = update_intent settlements event

-- `apply`.
unfoldable pub apply :
    Settlements → DomainEvent SettlementPayload → Result ProjectionError Settlements
unfolding apply_type
apply settlements event =
    if not (is_settlement_type event.type)
    then ok settlements
    else apply_type settlements event event.type event.payload

-- The loop of `ProjectionRunner.apply` for this projector.
unfoldable pub apply_all :
    Settlements → List (DomainEvent SettlementPayload) → Result ProjectionError Settlements
apply_all settlements [] = ok settlements
apply_all settlements (event ∷ events) = do next ← apply settlements event; apply_all next events

-- `getIntent`, `findIntentByPaymentReference` and `reset`.
abbrev pub get_intent : Settlements → Text → Option SettlementIntentRow
get_intent settlements id = get id settlements.intents

abbrev pub find_intent_by_payment_reference : Settlements → Text → Option SettlementIntentRow
find_intent_by_payment_reference settlements reference =
    elim (nonempty (get reference settlements.payment_reference_index)) [
      | some id ↦ get_intent settlements id
      | none ↦ none
    ]

-- `findIntentByProofAttachmentId`.
abbrev pub find_intent_by_proof_attachment_id : Settlements → Text → Option SettlementIntentRow
find_intent_by_proof_attachment_id settlements attachment =
    find
      (λ row.
        any (λ proof. elim proof.attachment_id [ some id ↦ id == attachment | none ↦ false ])
          row.proofs)
      (values settlements.intents)

-- `findIntentByProviderReference`.
abbrev pub find_intent_by_provider_reference : Settlements → Text → Option SettlementIntentRow
find_intent_by_provider_reference settlements reference =
    find (λ row. elim row.provider_reference [ some id ↦ id == reference | none ↦ false ])
      (values settlements.intents)

-- `listGroupIntents`; `not_after a b` is `a.localeCompare(b) <= 0`.
unfoldable pub list_group_intents :
    (Text → Text → Bool) → Text → Settlements → List SettlementIntentRow
list_group_intents not_after group settlements =
    sort (λ left right. not_after right.updated_at left.updated_at)
      (filter (λ row. row.group_id == group) (values settlements.intents))

abbrev pub reset : Settlements
reset = record { intents = []; payment_reference_index = [] }
