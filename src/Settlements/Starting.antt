-- ===== src/Settlements/Starting.antt =====
-- The events of createIntent and regenerateUpiIntent
-- (apps/api/src/modules/settlements/settlement-command.service.ts).
use splitsaathi.Common.{
  Bool, List, Option, Result, [], err, false, if◌then◌else◌, is_empty, length, ltb, not, ok,
  or_default, some, throw_if, true, ◌++◌, ◌>>=◌, ◌>>◌, ◌∷◌,
}
use splitsaathi.Common.Int.{leb_ℤ, pos}
use splitsaathi.Common.Keys.{Text, codes}
use splitsaathi.Common.Texts.{trim}
use splitsaathi.StateMachine.{
  SettlementState, awaiting_payment_evidence, generate_intent, intent_created, intent_generated,
  payer_opened_upi_app, run,
}
use splitsaathi.Events.{
  NewDomainEvent, cash_settlement_recorded, settlement_intent_created, upi_intent_generated,
}
use splitsaathi.Settlements.{SettlementIntentRow, SettlementPaymentMethod, cash, upi}
use splitsaathi.Settlements.Projection.{
  IntentPayload, SettlementPayload, intent_payload, reason_payload, upi_payload,
}
use splitsaathi.Settlements.Upi.{
  CreateUpiIntentInput, CreatedUpiIntent, UpiError, UpiIntentProvider,
}
use splitsaathi.Settlements.Commands.{
  SettlementError, amount_not_positive, checked_transitions, not_a_upi_settlement,
  proof_submitted_already, state_not_editable, upi_refused, vpa_required,
}
use splitsaathi.Settlements.Requests.{
  CreateSettlementIntentCommand, RegenerateUpiIntentCommand, intent_event,
}

abbrev pub from_provider : {A : Type 0} → Result UpiError A → Result SettlementError A
from_provider result = elim result [ ok a ↦ ok a | err why ↦ err (upi_refused why) ]

-- The payload of `UpiIntentGenerated`.
abbrev pub generated_payload : Text → Text → CreatedUpiIntent → SettlementPayload
generated_payload id vpa upi_intent = upi_payload (some id) (record {
  provider_reference = upi_intent.provider_reference;
  upi_uri = upi_intent.upi_uri;
  qr_payload = upi_intent.qr_payload;
  expires_at = upi_intent.expires_at;
  payee_vpa = some vpa;
})

-- `paymentMethod === 'upi' && !command.payeeVpa?.trim()`
unfoldable pub lacks_vpa : SettlementPaymentMethod → Option Text → Bool
unfolding trim
lacks_vpa cash vpa = false
lacks_vpa upi vpa = is_empty (trim (or_default [] vpa))

abbrev pub created_payload :
    CreateSettlementIntentCommand → Text → SettlementPaymentMethod → IntentPayload
created_payload command id method = record {
  settlement_intent_id = id;
  group_id = command.group_id;
  payer_participant_id = command.payer_participant_id;
  payee_participant_id = command.payee_participant_id;
  amount_minor = command.amount_minor;
  currency_code = or_default (codes "INR") command.currency_code;
  note = or_default (codes "SplitSaathi settlement " ++ id) command.note;
  payment_method = some method;
}

-- The states in which `regenerateUpiIntent` lets the payee be corrected.
abbrev pub is_editable : SettlementState → Bool
is_editable intent_created = true
is_editable intent_generated = true
is_editable payer_opened_upi_app = true
is_editable awaiting_payment_evidence = true
is_editable _ = false

abbrev pub is_upi : SettlementPaymentMethod → Bool
is_upi cash = false
is_upi upi = true

-- `command.payeeName?.trim() || intent.payeeParticipantId`
unfoldable pub payee_name_of : Option Text → Text → Text
unfolding trim
payee_name_of name fallback =
    let trimmed = trim (or_default [] name) in if is_empty trimmed then fallback else trimmed

-- What `createIntent` asks of the provider.
abbrev pub upi_request : Text → CreateSettlementIntentCommand → Text → CreateUpiIntentInput
upi_request ledger_reference command id = record {
  settlement_intent_id = id;
  payer_participant_id = command.payer_participant_id;
  payee_participant_id = command.payee_participant_id;
  payee_vpa = or_default [] command.payee_vpa;
  payee_name = command.payee_name;
  amount_minor = command.amount_minor;
  currency_code = or_default (codes "INR") command.currency_code;
  note = or_default (codes "SplitSaathi settlement " ++ id) command.note;
  ledger_reference = ledger_reference;
}

abbrev pub generated_event :
    CreateSettlementIntentCommand → Text → CreatedUpiIntent → NewDomainEvent SettlementPayload
generated_event command id upi_intent =
    intent_event upi_intent_generated id command.group_id command.actor_id
      (generated_payload id (or_default [] command.payee_vpa) upi_intent)

module _ (create_upi : UpiIntentProvider) (ledger_reference : Text) where
  -- The second event of `createIntent`.
  unfoldable pub payment_event :
      CreateSettlementIntentCommand
      → Text
      → SettlementPaymentMethod
      → Result SettlementError (NewDomainEvent SettlementPayload)
  payment_event command id cash = ok (
      intent_event cash_settlement_recorded id command.group_id command.actor_id
        (reason_payload (some id) (some (codes "Marked as paid in cash"))))
  payment_event command id upi =
      from_provider (create_upi (upi_request ledger_reference command id)) >>= λ upi_intent.
      ok (generated_event command id upi_intent)

  -- The events that `createIntent` appends, after its guards.
  unfoldable pub created_events :
      CreateSettlementIntentCommand
      → Text
      → Result SettlementError (List (NewDomainEvent SettlementPayload))
  unfolding lacks_vpa payment_event
  created_events command id = do
    let method = or_default upi command.payment_method
    throw_if (leb_ℤ command.amount_minor (pos 0)) amount_not_positive
    throw_if (lacks_vpa method command.payee_vpa) vpa_required
    second ← payment_event command id method
    ok (
        intent_event settlement_intent_created id command.group_id command.actor_id
          (intent_payload (created_payload command id method))
        ∷ second
        ∷ [])

  -- The events that `regenerateUpiIntent` appends, after its guards.
  unfoldable pub regenerated_events :
      RegenerateUpiIntentCommand
      → SettlementIntentRow
      → Result SettlementError (List (NewDomainEvent SettlementPayload))
  unfolding run trim payee_name_of
  regenerated_events command intent = do
    let id = command.settlement_intent_id
    let vpa = trim command.payee_vpa
    throw_if (not (is_upi intent.payment_method)) not_a_upi_settlement
    throw_if (is_empty vpa) vpa_required
    throw_if (ltb 0 (length intent.proofs)) proof_submitted_already
    throw_if (not (is_editable intent.state)) (state_not_editable intent.state)
    reached ← checked_transitions (run intent.state (generate_intent ∷ []))
    upi_intent ← from_provider (
        create_upi (record {
          settlement_intent_id = id;
          payer_participant_id = intent.payer_participant_id;
          payee_participant_id = intent.payee_participant_id;
          payee_vpa = vpa;
          payee_name = payee_name_of command.payee_name intent.payee_participant_id;
          amount_minor = intent.amount_minor;
          currency_code = intent.currency_code;
          note = intent.note;
          ledger_reference = ledger_reference;
        }))
    ok (
        intent_event upi_intent_generated id intent.group_id command.actor_id
          (generated_payload id vpa upi_intent)
        ∷ [])
