-- ===== src/Settlements/Requests.antt =====
-- The commands that start an intent and bring evidence of its payment
-- (apps/api/src/modules/settlements/settlement-command.service.ts).
use splitsaathi.Common.{Option, none, some, ℕ}
use splitsaathi.Common.Int.{ℤ}
use splitsaathi.Common.Keys.{Text, codes}
use splitsaathi.Events.{EventType, NewDomainEvent}
use splitsaathi.Settlements.{SettlementPaymentMethod}
use splitsaathi.Settlements.Projection.{SettlementPayload}
use splitsaathi.Settlements.Upi.{GatewayPaymentStatus}

-- `CreateSettlementIntentCommand`.
pub record CreateSettlementIntentCommand : Type 0 where
  pub idempotency_key : Text
  pub actor_id : Text
  pub group_id : Text
  pub settlement_intent_id : Option Text
  pub payer_participant_id : Text
  pub payee_participant_id : Text
  pub amount_minor : ℤ
  pub currency_code : Option Text
  pub payment_method : Option SettlementPaymentMethod
  pub payee_vpa : Option Text
  pub payee_name : Text
  pub note : Option Text

-- `MarkUpiOpenedCommand`.
pub record MarkUpiOpenedCommand : Type 0 where
  pub idempotency_key : Text
  pub actor_id : Text
  pub settlement_intent_id : Text
  pub upi_app : Option Text
  pub expected_version : ℕ

-- `RegenerateUpiIntentCommand`.
pub record RegenerateUpiIntentCommand : Type 0 where
  pub idempotency_key : Text
  pub actor_id : Text
  pub settlement_intent_id : Text
  pub payee_vpa : Text
  pub payee_name : Option Text
  pub expected_version : ℕ

-- `SubmitPaymentProofCommand`.
pub record SubmitPaymentProofCommand : Type 0 where
  pub idempotency_key : Text
  pub actor_id : Text
  pub settlement_intent_id : Text
  pub amount_minor : Option ℤ
  pub utr : Option Text
  pub note : Option Text
  pub attachment_id : Option Text
  pub expected_version : ℕ

-- The command of `recordGatewayPayment`.
pub record GatewayPaymentCommand : Type 0 where
  pub idempotency_key : Text
  pub actor_id : Text
  pub status : GatewayPaymentStatus

-- The payloads whose hashes are recorded.
pub data RequestPayload : Type 0 where
  creating : CreateSettlementIntentCommand → RequestPayload
  opening : MarkUpiOpenedCommand → RequestPayload
  regenerating : RegenerateUpiIntentCommand → RequestPayload
  proving : SubmitPaymentProofCommand → RequestPayload
  paying : GatewayPaymentStatus → RequestPayload

-- An event on an intent.
abbrev pub intent_event :
    EventType → Text → Text → Text → SettlementPayload → NewDomainEvent SettlementPayload
intent_event type id group_id actor_id payload = record {
  type = type;
  aggregate_type = codes "settlement_intent";
  aggregate_id = id;
  group_id = some group_id;
  actor_id = some actor_id;
  payload = payload;
  postings = none;
}
