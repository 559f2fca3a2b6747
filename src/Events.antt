-- ===== src/Events.antt =====
-- The records of the event store: apps/api/src/modules/ledger/ledger.types.ts.
use splitsaathi.Common.{List, Option, ℕ}
use splitsaathi.Common.Keys.{Text}
use splitsaathi.Postings.{LedgerPosting}

-- `DomainEventType`.
pub data EventType : Type 0 where
  expense_created expense_adjusted expense_voided : EventType
  settlement_intent_created cash_settlement_recorded upi_intent_generated : EventType
  upi_app_opened payment_proof_submitted payment_auto_matched : EventType
  receiver_confirmation_requested settlement_confirmed settlement_ledger_posted : EventType
  settlement_rejected settlement_disputed settlement_reversed settlement_refunded : EventType
  partial_payment_detected duplicate_payment_reference_detected : EventType
  settlement_expired settlement_cancelled : EventType
  import_job_created import_item_committed export_job_created : EventType
  recurring_schedule_created recurring_expense_generated : EventType

-- `DomainEvent<TPayload>`. The metadata is carried along unread, and stands in the payload.
pub record DomainEvent (P : Type 0) : Type 0 where
  pub event_id : Text
  pub type : EventType
  pub aggregate_type : Text
  pub aggregate_id : Text
  pub aggregate_version : ℕ
  pub global_position : ℕ
  pub group_id : Option Text
  pub actor_id : Option Text
  pub occurred_at : Text
  pub payload : P
  pub postings : List LedgerPosting

-- `NewDomainEvent<TPayload>`; absent postings are read as none at all (`event.postings ?? []`).
pub record NewDomainEvent (P : Type 0) : Type 0 where
  pub type : EventType
  pub aggregate_type : Text
  pub aggregate_id : Text
  pub group_id : Option Text
  pub actor_id : Option Text
  pub payload : P
  pub postings : Option (List LedgerPosting)

-- `number | 'any'`.
pub data ExpectedVersion : Type 0 where
  any_version : ExpectedVersion
  version : ℕ → ExpectedVersion

-- `AppendEventsInput`; `Q` is the type of the payload that the caller gives for the idempotency hash.
pub record AppendEventsInput (P Q : Type 0) : Type 0 where
  pub aggregate_type : Text
  pub aggregate_id : Text
  pub expected_version : ExpectedVersion
  pub events : List (NewDomainEvent P)
  pub idempotency_key : Option Text
  pub idempotency_payload : Option Q

-- `ReplayOptions`.
pub record ReplayOptions : Type 0 where
  pub after_global_position : Option ℕ
  pub aggregate_type : Option Text
  pub aggregate_id : Option Text
  pub group_id : Option Text

-- `IdempotencyRecord`.
pub record IdempotencyRecord : Type 0 where
  pub key : Text
  pub payload_hash : Text
  pub event_ids : List Text
  pub created_at : Text
