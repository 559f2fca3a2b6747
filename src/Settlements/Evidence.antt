-- ===== src/Settlements/Evidence.antt =====
-- The events of markUpiOpened, submitProof and recordGatewayPayment
-- (apps/api/src/modules/settlements/settlement-command.service.ts).
-- The status of the gateway in the payload, which no code reads, is left out.
use splitsaathi.Common.{Bool, List, Option, [], false, none, not, some, true, ◌++◌, ◌∷◌}
use splitsaathi.Common.Int.{eqb_ℤ, ℤ}
use splitsaathi.Common.Keys.{Text, codes, text_eq, ◌==◌}
use splitsaathi.StateMachine.{
  SettlementEvent, SettlementState, auto_match, detect_duplicate, detect_partial,
  payer_opened_upi_app, request_confirmation, submit_proof,
}
use splitsaathi.Events.{
  EventType, NewDomainEvent, duplicate_payment_reference_detected, partial_payment_detected,
  payment_auto_matched, payment_proof_submitted, receiver_confirmation_requested, upi_app_opened,
}
use splitsaathi.EventStore.{differs}
use splitsaathi.Settlements.{SettlementIntentRow}
use splitsaathi.Settlements.Projection.{
  SettlementPayload, opened_payload, proof_payload, reason_payload,
}
use splitsaathi.Settlements.Upi.{
  GatewayStatus, failed, pending, refunded_payment, reversed_payment, succeeded, unknown,
}
use splitsaathi.Settlements.Requests.{
  GatewayPaymentCommand, MarkUpiOpenedCommand, SubmitPaymentProofCommand, intent_event,
}

-- How a proof is classified.
pub data ProofKind : Type 0 where
  duplicate partial_payment matching : ProofKind

-- `Boolean(duplicate && duplicate.settlementIntentId !== id)`
abbrev pub is_duplicate : Option SettlementIntentRow → Text → Bool
is_duplicate none id = false
is_duplicate (some row) id = not (row.settlement_intent_id == id)

-- `command.amountMinor !== undefined && command.amountMinor !== intent.amountMinor`
abbrev pub is_partial : Option ℤ → ℤ → Bool
is_partial none amount = false
is_partial (some paid) amount = not (eqb_ℤ paid amount)

unfoldable pub classify : Bool → Bool → ProofKind
classify true differs = duplicate
classify false true = partial_payment
classify false false = matching

abbrev pub follow_up_type : ProofKind → EventType
follow_up_type duplicate = duplicate_payment_reference_detected
follow_up_type partial_payment = partial_payment_detected
follow_up_type matching = receiver_confirmation_requested

abbrev pub proof_transitions : ProofKind → List SettlementEvent
proof_transitions duplicate = submit_proof ∷ detect_duplicate ∷ []
proof_transitions partial_payment = submit_proof ∷ detect_partial ∷ []
proof_transitions matching = submit_proof ∷ request_confirmation ∷ []

abbrev pub proof_reason : ProofKind → Option Text
proof_reason duplicate = some (codes "duplicate payment reference")
proof_reason partial_payment = some (codes "proof amount differs from intent")
proof_reason matching = none

-- The events that `submitProof` appends. The id of the proof is new.
unfoldable pub proof_events :
    SubmitPaymentProofCommand
    → SettlementIntentRow
    → Text
    → ProofKind
    → List (NewDomainEvent SettlementPayload)
proof_events command intent proof_id kind =
    let id = command.settlement_intent_id in
    intent_event payment_proof_submitted id intent.group_id command.actor_id (
      proof_payload (record {
        proof_id = proof_id;
        settlement_intent_id = id;
        amount_minor = command.amount_minor;
        utr = command.utr;
        note = command.note;
        attachment_id = command.attachment_id;
      }))
    ∷ intent_event (follow_up_type kind) id intent.group_id command.actor_id
        (reason_payload (some id) (proof_reason kind))
    ∷ []

-- `intent.state === 'payer_opened_upi_app'`
abbrev pub is_opened : SettlementState → Bool
is_opened payer_opened_upi_app = true
is_opened _ = false

-- The event that `markUpiOpened` appends.
unfoldable pub opened_events :
    MarkUpiOpenedCommand → SettlementIntentRow → List (NewDomainEvent SettlementPayload)
opened_events command intent =
    intent_event upi_app_opened command.settlement_intent_id intent.group_id command.actor_id
      (opened_payload (some command.settlement_intent_id) command.upi_app)
    ∷ []

-- `status.status`, as the note of a proof.
abbrev pub status_text : GatewayStatus → Text
status_text unknown = codes "unknown"
status_text pending = codes "pending"
status_text succeeded = codes "succeeded"
status_text failed = codes "failed"
status_text reversed_payment = codes "reversed"
status_text refunded_payment = codes "refunded"

abbrev pub gateway_type : Bool → EventType
gateway_type true = duplicate_payment_reference_detected
gateway_type false = payment_auto_matched

abbrev pub gateway_transitions : Bool → List SettlementEvent
gateway_transitions true = submit_proof ∷ detect_duplicate ∷ []
gateway_transitions false = submit_proof ∷ auto_match ∷ []

abbrev pub gateway_reason : Bool → Text
gateway_reason true = codes "duplicate payment reference"
gateway_reason false = codes "provider callback matched payment"

-- The events that `recordGatewayPayment` appends.
unfoldable pub gateway_events :
    GatewayPaymentCommand
    → SettlementIntentRow
    → Text
    → Bool
    → List (NewDomainEvent SettlementPayload)
gateway_events command intent proof_id repeats =
    let id = intent.settlement_intent_id in
    intent_event payment_proof_submitted id intent.group_id command.actor_id (
      proof_payload (record {
        proof_id = proof_id;
        settlement_intent_id = id;
        amount_minor = command.status.amount_minor;
        utr = command.status.utr;
        note = some (codes "Gateway status: " ++ status_text command.status.status);
        attachment_id = none;
      }))
    ∷ intent_event (gateway_type repeats) id intent.group_id command.actor_id
        (reason_payload (some id) (some (gateway_reason repeats)))
    ∷ []
