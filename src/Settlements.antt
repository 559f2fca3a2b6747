-- ===== src/Settlements.antt =====
-- Settlements: apps/api/src/modules/settlements/settlement.types.ts.
pub mod Projection
pub mod Upi
pub mod Commands
pub mod Requests
pub mod Starting
pub mod Evidence
pub mod Requesting
pub mod Requested
pub mod Retried
pub mod Proving
mod RequestTests
pub mod Following
pub mod Balancing
mod Tests
use splitsaathi.Common.{List, Option}
use splitsaathi.Common.Int.{ℤ}
use splitsaathi.Common.Keys.{Text}
use splitsaathi.StateMachine.{SettlementState}
use splitsaathi.Events.{EventType}

-- `SettlementPaymentMethod`.
pub data SettlementPaymentMethod : Type 0 where
  cash upi : SettlementPaymentMethod

-- `PaymentProofRow`.
pub record PaymentProofRow : Type 0 where
  pub proof_id : Text
  pub settlement_intent_id : Text
  pub submitted_by : Text
  pub amount_minor : Option ℤ
  pub utr : Option Text
  pub note : Option Text
  pub attachment_id : Option Text
  pub submitted_at : Text

-- `UpiAppOpenRow`.
pub record UpiAppOpenRow : Type 0 where
  pub settlement_intent_id : Text
  pub opened_by : Text
  pub upi_app : Option Text
  pub opened_at : Text

-- `SettlementTimelineRow`.
pub record SettlementTimelineRow : Type 0 where
  pub event_id : Text
  pub type : EventType
  pub state : SettlementState
  pub actor_id : Option Text
  pub occurred_at : Text
  pub note : Option Text

-- `SettlementIntentRow`.
pub record SettlementIntentRow : Type 0 where
  pub settlement_intent_id : Text
  pub group_id : Text
  pub payer_participant_id : Text
  pub payee_participant_id : Text
  pub amount_minor : ℤ
  pub currency_code : Text
  pub note : Text
  pub payment_method : SettlementPaymentMethod
  pub state : SettlementState
  pub provider_reference : Option Text
  pub upi_uri : Option Text
  pub qr_payload : Option Text
  pub payee_vpa : Option Text
  pub expires_at : Option Text
  pub created_by : Text
  pub created_at : Text
  pub updated_at : Text
  pub ledger_posted_at : Option Text
  pub proofs : List PaymentProofRow
  pub app_open_events : List UpiAppOpenRow
  pub timeline : List SettlementTimelineRow
