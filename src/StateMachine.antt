-- ===== src/StateMachine.antt =====
-- The settlement lifecycle: packages/domain/src/settlement-state-machine.ts, and the states of
-- packages/contracts/src/enums.ts.
pub mod Runs
pub mod Posting
mod Tests
use splitsaathi.Common.{
  Bool, List, Option, Result, [], err, is_some, none, ok, some, ◌>>=◌, ◌>>◌, ◌∷◌,
}

pub data SettlementState : Type 0 where
  suggested intent_created intent_generated payer_opened_upi_app : SettlementState
  awaiting_payment_evidence proof_submitted auto_matched : SettlementState
  awaiting_receiver_confirmation confirmed ledger_posted : SettlementState
  expired cancelled disputed rejected partial_detected : SettlementState
  duplicate_reference_review reversed refunded : SettlementState

pub data SettlementEvent : Type 0 where
  create_intent generate_intent open_upi_app record_cash submit_proof : SettlementEvent
  auto_match request_confirmation confirm post_ledger expire : SettlementEvent
  cancel reject detect_partial detect_duplicate dispute : SettlementEvent
  reverse refund : SettlementEvent

-- `transitions[current][eventName]`
pub transitions : SettlementState → SettlementEvent → Option SettlementState
transitions suggested create_intent = some intent_created
transitions suggested _ = none
transitions intent_created generate_intent = some intent_generated
transitions intent_created record_cash = some awaiting_receiver_confirmation
transitions intent_created cancel = some cancelled
transitions intent_created expire = some expired
transitions intent_created _ = none
transitions intent_generated generate_intent = some intent_generated
transitions intent_generated open_upi_app = some payer_opened_upi_app
transitions intent_generated submit_proof = some proof_submitted
transitions intent_generated request_confirmation = some awaiting_receiver_confirmation
transitions intent_generated cancel = some cancelled
transitions intent_generated expire = some expired
transitions intent_generated _ = none
transitions payer_opened_upi_app open_upi_app = some payer_opened_upi_app
transitions payer_opened_upi_app generate_intent = some intent_generated
transitions payer_opened_upi_app submit_proof = some proof_submitted
transitions payer_opened_upi_app request_confirmation = some awaiting_receiver_confirmation
transitions payer_opened_upi_app cancel = some cancelled
transitions payer_opened_upi_app expire = some expired
transitions payer_opened_upi_app _ = none
transitions awaiting_payment_evidence generate_intent = some intent_generated
transitions awaiting_payment_evidence submit_proof = some proof_submitted
transitions awaiting_payment_evidence cancel = some cancelled
transitions awaiting_payment_evidence expire = some expired
transitions awaiting_payment_evidence _ = none
transitions proof_submitted auto_match = some auto_matched
transitions proof_submitted request_confirmation = some awaiting_receiver_confirmation
transitions proof_submitted detect_partial = some partial_detected
transitions proof_submitted detect_duplicate = some duplicate_reference_review
transitions proof_submitted dispute = some disputed
transitions proof_submitted reject = some rejected
transitions proof_submitted _ = none
transitions auto_matched request_confirmation = some awaiting_receiver_confirmation
transitions auto_matched confirm = some confirmed
transitions auto_matched detect_partial = some partial_detected
transitions auto_matched detect_duplicate = some duplicate_reference_review
transitions auto_matched dispute = some disputed
transitions auto_matched _ = none
transitions awaiting_receiver_confirmation confirm = some confirmed
transitions awaiting_receiver_confirmation reject = some rejected
transitions awaiting_receiver_confirmation dispute = some disputed
transitions awaiting_receiver_confirmation _ = none
transitions confirmed post_ledger = some ledger_posted
transitions confirmed _ = none
transitions ledger_posted reverse = some reversed
transitions ledger_posted refund = some refunded
transitions ledger_posted dispute = some disputed
transitions ledger_posted _ = none
transitions expired _ = none
transitions cancelled _ = none
transitions disputed reject = some rejected
transitions disputed confirm = some confirmed
transitions disputed reverse = some reversed
transitions disputed refund = some refunded
transitions disputed _ = none
transitions rejected _ = none
transitions partial_detected request_confirmation = some awaiting_receiver_confirmation
transitions partial_detected reject = some rejected
transitions partial_detected dispute = some disputed
transitions partial_detected _ = none
transitions duplicate_reference_review request_confirmation = some awaiting_receiver_confirmation
transitions duplicate_reference_review reject = some rejected
transitions duplicate_reference_review dispute = some disputed
transitions duplicate_reference_review _ = none
transitions reversed _ = none
transitions refunded _ = none

-- What `transition` throws: `Invalid settlement transition: ${current} -> ${eventName}`.
pub data InvalidTransition : Type 0 where
  invalid : SettlementState → SettlementEvent → InvalidTransition

unfoldable pub transition :
    SettlementState → SettlementEvent → Result InvalidTransition SettlementState
unfolding transitions
transition current event_name = elim (transitions current event_name) [
  | none ↦ err (invalid current event_name)
  | some next ↦ ok next
]

unfoldable pub can : SettlementState → SettlementEvent → Bool
unfolding transitions
can current event_name = is_some (transitions current event_name)

-- The loop of `assertTransitionsAllowed`, with the state that it reaches.
unfoldable pub run :
    SettlementState → List SettlementEvent → Result InvalidTransition SettlementState
run state [] = ok state
run state (event ∷ events) = do next ← transition state event; run next events
