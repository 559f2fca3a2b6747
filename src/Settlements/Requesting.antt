-- ===== src/Settlements/Requesting.antt =====
-- createIntent, markUpiOpened, regenerateUpiIntent, submitProof and recordGatewayPayment
-- (apps/api/src/modules/settlements/settlement-command.service.ts).
use splitsaathi.Common.{
  Bool, List, Option, Result, [], err, false, if◌then◌else◌, none, not, ok, or_default, some,
  throw_if, true, ℕ, ◌>>=◌, ◌>>◌, ◌∷◌,
}
use splitsaathi.Common.Keys.{Text, codes}
use splitsaathi.StateMachine.{open_upi_app, run}
use splitsaathi.Events.{DomainEvent, NewDomainEvent, version}
use splitsaathi.EventStore.{Hashed, get_version}
use splitsaathi.Ledger.{LedgerState, Projector, append_and_project, resolve_idempotency}
use splitsaathi.Settlements.{SettlementIntentRow}
use splitsaathi.Settlements.Projection.{SettlementPayload, nonempty}
use splitsaathi.Settlements.Upi.{GatewayPaymentStatus, GatewayStatus, UpiIntentProvider, succeeded}
use splitsaathi.Settlements.Commands.{
  SettlementError, checked_transitions, no_event_returned, payment_not_succeeded, require_intent,
  settlement_appended, unknown_gateway_intent,
}
use splitsaathi.Settlements.Requests.{
  CreateSettlementIntentCommand, GatewayPaymentCommand, MarkUpiOpenedCommand,
  RegenerateUpiIntentCommand, RequestPayload, SubmitPaymentProofCommand, creating, opening, paying,
  proving, regenerating,
}
use splitsaathi.Settlements.Starting.{created_events, regenerated_events}
use splitsaathi.Settlements.Evidence.{
  classify, gateway_events, gateway_transitions, is_duplicate, is_opened, is_partial, opened_events,
  proof_events, proof_transitions,
}

-- What a command returns: the intent as it is found at the end, the events, and the ledger.
abbrev pub Requested : Projector SettlementPayload → Type 0
Requested projector = Result SettlementError (
    Result SettlementError SettlementIntentRow
    × List (DomainEvent SettlementPayload)
    × LedgerState projector)

-- `events[0].aggregateId`
abbrev pub first_intent_id : List (DomainEvent SettlementPayload) → Result SettlementError Text
first_intent_id [] = err no_event_returned
first_intent_id (event ∷ events) = ok event.aggregate_id

-- `text ? find(text) : undefined`
abbrev pub find_if_given :
    (Text → Option SettlementIntentRow) → Option Text → Option SettlementIntentRow
find_if_given find_row reference = elim (nonempty reference) [ some t ↦ find_row t | none ↦ none ]

-- The intent of a gateway's status.
abbrev gateway_candidate :
    (Text → Option SettlementIntentRow)
    → (Text → Option SettlementIntentRow)
    → GatewayPaymentStatus
    → Option SettlementIntentRow
gateway_candidate by_id by_provider status = elim (nonempty status.settlement_intent_id) [
  | some id ↦ by_id id
  | none ↦ find_if_given by_provider (some status.provider_reference)
]

abbrev is_succeeded : GatewayStatus → Bool
is_succeeded succeeded = true
is_succeeded _ = false

-- `getIntent`, `findIntentByPaymentReference` and `findIntentByProviderReference` read the state of the
-- projector.
module _ (projector : Projector SettlementPayload)
    (get_row by_reference by_provider : projector.State → Text → Option SettlementIntentRow)
    (hash_payload : Hashed SettlementPayload RequestPayload → Text) (now : Text)
    (random_uuid : ℕ → Text) (new_id : Text) where
  -- The end of a command: its events are appended.
  unfoldable pub append_request :
      Text
      → ℕ
      → Text
      → RequestPayload
      → List (NewDomainEvent SettlementPayload)
      → LedgerState projector
      → Result SettlementError (List (DomainEvent SettlementPayload) × LedgerState projector)
  append_request id expected key payload events ledger = settlement_appended (
      append_and_project projector hash_payload now random_uuid
        (record {
          aggregate_type = codes "settlement_intent";
          aggregate_id = id;
          expected_version = version expected;
          events = events;
          idempotency_key = some key;
          idempotency_payload = some payload;
        })
        ledger)

  -- `createIntent`.
  unfoldable pub create_intent_command :
      UpiIntentProvider
      → Text
      → CreateSettlementIntentCommand
      → LedgerState projector
      → Requested projector
  unfolding append_request created_events
  create_intent_command create_upi ledger_reference command ledger = do
    let id = or_default new_id command.settlement_intent_id
    new_events ← created_events create_upi ledger_reference command id
    (events, next) ←
        append_request id 0 command.idempotency_key (creating command) new_events ledger
    first ← first_intent_id events
    ok (require_intent first (get_row next.projection first), events, next)

  -- `markUpiOpened`.
  unfoldable pub mark_upi_opened :
      MarkUpiOpenedCommand → LedgerState projector → Requested projector
  unfolding append_request opened_events run
  mark_upi_opened command ledger = do
    let id = command.settlement_intent_id
    intent ← require_intent id (get_row ledger.projection id)
    if is_opened intent.state then ok (ok intent, [], ledger) else (do
      reached ← checked_transitions (run intent.state (open_upi_app ∷ []))
      (events, next) ←
          append_request id command.expected_version command.idempotency_key (opening command)
            (opened_events command intent) ledger
      ok (require_intent id (get_row next.projection id), events, next))

  -- `regenerateUpiIntent`.
  unfoldable pub regenerate_upi_intent :
      UpiIntentProvider
      → Text
      → RegenerateUpiIntentCommand
      → LedgerState projector
      → Requested projector
  unfolding append_request regenerated_events
  regenerate_upi_intent create_upi ledger_reference command ledger = do
    let id = command.settlement_intent_id
    intent ← require_intent id (get_row ledger.projection id)
    new_events ← regenerated_events create_upi ledger_reference command intent
    (events, next) ←
        append_request id command.expected_version command.idempotency_key (regenerating command)
          new_events ledger
    ok (require_intent id (get_row next.projection id), events, next)

  -- `submitProof`.
  unfoldable pub submit_proof_command :
      SubmitPaymentProofCommand → LedgerState projector → Requested projector
  unfolding append_request proof_events classify run
  submit_proof_command command ledger = do
    let id = command.settlement_intent_id
    intent ← require_intent id (get_row ledger.projection id)
    let earlier = find_if_given (by_reference ledger.projection) command.utr
    let kind =
        classify (is_duplicate earlier id) (is_partial command.amount_minor intent.amount_minor)
    reached ← checked_transitions (run intent.state (proof_transitions kind))
    (events, next) ←
        append_request id command.expected_version command.idempotency_key (proving command)
          (proof_events command intent new_id kind) ledger
    ok (require_intent id (get_row next.projection id), events, next)

  -- `recordGatewayPayment`, when no earlier call answers it.
  unfoldable pub record_new_payment :
      GatewayPaymentCommand → LedgerState projector → Requested projector
  unfolding append_request gateway_events run get_version
  record_new_payment command ledger = do
    throw_if (not (is_succeeded command.status.status))
        (payment_not_succeeded command.status.status)
    candidate ←
        elim (gateway_candidate (get_row ledger.projection) (by_provider ledger.projection)
          command.status) [ some row ↦ ok row | none ↦ err unknown_gateway_intent ]
    let id = candidate.settlement_intent_id
    intent ← require_intent id (get_row ledger.projection id)
    let repeats =
        is_duplicate (find_if_given (by_reference ledger.projection) command.status.utr)
          intent.settlement_intent_id
    let expected = get_version (codes "settlement_intent") intent.settlement_intent_id ledger.store
    reached ← checked_transitions (run intent.state (gateway_transitions repeats))
    (events, next) ←
        append_request intent.settlement_intent_id expected command.idempotency_key
          (paying command.status) (gateway_events command intent new_id repeats) ledger
    ok (
      require_intent intent.settlement_intent_id
          (get_row next.projection intent.settlement_intent_id),
      events,
      next,
    )

  -- `recordGatewayPayment`.
  unfoldable pub record_gateway_payment :
      GatewayPaymentCommand → LedgerState projector → Requested projector
  unfolding record_new_payment resolve_idempotency
  record_gateway_payment command ledger = do
    replayed ← settlement_appended (
        resolve_idempotency hash_payload (codes "settlement_intent") command.actor_id
          command.idempotency_key (paying command.status) ledger.store)
    let fresh = record_new_payment command ledger
    elim replayed [
      | none ↦ fresh
      | some events ↦
          (first_intent_id events >>= λ first.
          ok (require_intent first (get_row ledger.projection first), events, ledger))
    ]
