-- ===== src/Settlements/Commands.antt =====
-- The commands of `SettlementCommandService` that move an intent from state to state:
-- apps/api/src/modules/settlements/settlement-command.service.ts.
use splitsaathi.Settlements.Upi.{GatewayStatus, UpiError}
use splitsaathi.Common.{List, Option, Result, [], err, map, none, ok, some, ℕ, ◌>>=◌, ◌∷◌}
use splitsaathi.Common.Int.{neg, ℤ}
use splitsaathi.Common.Keys.{Text, codes}
use splitsaathi.StateMachine.{
  InvalidTransition, SettlementEvent, SettlementState, cancel, confirm, dispute, expire,
  post_ledger, refund, reject, reverse, run,
}
use splitsaathi.Postings.{LedgerPosting}
use splitsaathi.Events.{
  DomainEvent, EventType, NewDomainEvent, settlement_cancelled, settlement_confirmed,
  settlement_disputed, settlement_expired, settlement_ledger_posted, settlement_refunded,
  settlement_rejected, settlement_reversed, version,
}
use splitsaathi.EventStore.{Hashed, StoreError}
use splitsaathi.Ledger.{LedgerState, Projector, append_and_project}
use splitsaathi.Settlements.{SettlementIntentRow}
use splitsaathi.Settlements.Projection.{SettlementPayload, reason_payload}

-- `SettlementTransitionCommand`.
pub record SettlementTransitionCommand : Type 0 where
  pub idempotency_key : Text
  pub actor_id : Text
  pub settlement_intent_id : Text
  pub expected_version : ℕ
  pub reason : Option Text

-- What the commands throw.
pub data SettlementError : Type 0 where
  intent_not_found : Text → SettlementError
  transition_refused : InvalidTransition → SettlementError
  settlement_not_appended : StoreError → SettlementError
  amount_not_positive vpa_required not_a_upi_settlement proof_submitted_already : SettlementError
  no_event_returned unknown_gateway_intent : SettlementError
  state_not_editable : SettlementState → SettlementError
  upi_refused : UpiError → SettlementError
  payment_not_succeeded : GatewayStatus → SettlementError

-- `settlementPostings`.
abbrev pub settlement_posting : SettlementIntentRow → Text → Text → ℤ → LedgerPosting
settlement_posting intent posting_type participant amount = record {
  participant_id = participant;
  currency_code = intent.currency_code;
  signed_amount_minor = amount;
  posting_type = posting_type;
  source_type = codes "settlement";
  source_id = intent.settlement_intent_id;
}

unfoldable pub settlement_postings : SettlementIntentRow → Text → List LedgerPosting
settlement_postings intent posting_type =
    settlement_posting intent posting_type intent.payer_participant_id intent.amount_minor
    ∷ settlement_posting intent posting_type intent.payee_participant_id (neg intent.amount_minor)
    ∷ []

-- The postings of `reverse` and `refund`, with the signs turned.
abbrev pub turned : LedgerPosting → LedgerPosting
turned posting = record posting { signed_amount_minor = neg posting.signed_amount_minor }

unfoldable pub turned_postings : SettlementIntentRow → Text → List LedgerPosting
unfolding settlement_postings
turned_postings intent posting_type = map turned (settlement_postings intent posting_type)

-- An event that a command appends.
abbrev pub settlement_event :
    SettlementTransitionCommand
    → SettlementIntentRow
    → EventType
    → Option Text
    → Option (List LedgerPosting)
    → NewDomainEvent SettlementPayload
settlement_event command intent type reason postings = record {
  type = type;
  aggregate_type = codes "settlement_intent";
  aggregate_id = command.settlement_intent_id;
  group_id = some intent.group_id;
  actor_id = some command.actor_id;
  payload = reason_payload (some command.settlement_intent_id) reason;
  postings = postings;
}

-- The kinds of commands: `confirm`, `reverse`, `refund`, and `singleTransition` in `reject`,
-- `dispute`, `expire` and `cancel`.
pub data TransitionKind : Type 0 where
  confirming reversing refunding rejecting disputing expiring cancelling : TransitionKind

-- The transitions that `assertTransitionsAllowed` tests.
abbrev pub transitions_of : TransitionKind → List SettlementEvent
transitions_of confirming = confirm ∷ post_ledger ∷ []
transitions_of reversing = reverse ∷ []
transitions_of refunding = refund ∷ []
transitions_of rejecting = reject ∷ []
transitions_of disputing = dispute ∷ []
transitions_of expiring = expire ∷ []
transitions_of cancelling = cancel ∷ []

-- The events that are appended.
abbrev pub events_of :
    TransitionKind
    → SettlementTransitionCommand
    → SettlementIntentRow
    → List (NewDomainEvent SettlementPayload)
events_of confirming command intent =
    settlement_event command intent settlement_confirmed command.reason none
    ∷ settlement_event command intent settlement_ledger_posted none
        (some (settlement_postings intent (codes "settlement_payment")))
    ∷ []
events_of reversing command intent =
    settlement_event command intent settlement_reversed command.reason
      (some (turned_postings intent (codes "settlement_reversal")))
    ∷ []
events_of refunding command intent =
    settlement_event command intent settlement_refunded command.reason
      (some (turned_postings intent (codes "settlement_refund")))
    ∷ []
events_of rejecting command intent =
    settlement_event command intent settlement_rejected command.reason none ∷ []
events_of disputing command intent =
    settlement_event command intent settlement_disputed command.reason none ∷ []
events_of expiring command intent =
    settlement_event command intent settlement_expired command.reason none ∷ []
events_of cancelling command intent =
    settlement_event command intent settlement_cancelled command.reason none ∷ []

-- `requireIntent`, and the errors that are passed on.
abbrev pub require_intent :
    Text → Option SettlementIntentRow → Result SettlementError SettlementIntentRow
require_intent id found = elim found [ some intent ↦ ok intent | none ↦ err (intent_not_found id) ]

abbrev pub checked_transitions :
    {A : Type 0} → Result InvalidTransition A → Result SettlementError A
checked_transitions result = elim result [ ok a ↦ ok a | err why ↦ err (transition_refused why) ]

abbrev pub settlement_appended : {A : Type 0} → Result StoreError A → Result SettlementError A
settlement_appended result = elim result [
  | ok a ↦ ok a
  | err why ↦ err (settlement_not_appended why)
]

module _ (projector : Projector SettlementPayload)
    (get_row : projector.State → Text → Option SettlementIntentRow)
    (hash_payload : Hashed SettlementPayload SettlementTransitionCommand → Text) (now : Text)
    (random_uuid : ℕ → Text) where
  -- The commands. That the intent is found again at the end is a result of its own, since the ledger
  -- is then appended to.
  unfoldable pub transition_intent :
      TransitionKind
      → SettlementTransitionCommand
      → LedgerState projector
      → Result SettlementError (
          Result SettlementError SettlementIntentRow
          × List (DomainEvent SettlementPayload)
          × LedgerState projector)
  unfolding run
  transition_intent kind command ledger = do
    let id = command.settlement_intent_id
    intent ← require_intent id (get_row ledger.projection id)
    reached ← checked_transitions (run intent.state (transitions_of kind))
    (events, next) ← settlement_appended (
        append_and_project projector hash_payload now random_uuid
          (record {
            aggregate_type = codes "settlement_intent";
            aggregate_id = id;
            expected_version = version command.expected_version;
            events = events_of kind command intent;
            idempotency_key = some command.idempotency_key;
            idempotency_payload = some command;
          })
          ledger)
    ok (require_intent id (get_row next.projection id), events, next)
