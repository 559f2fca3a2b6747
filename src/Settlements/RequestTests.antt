-- ===== src/Settlements/RequestTests.antt =====
-- Tests of new intents and proofs (apps/api/src/modules/settlements).
use splitsaathi.Common.Tally.{add_totals, first_nonzero}
use splitsaathi.Postings.{create}
use splitsaathi.EventStore.Replay.{IsUnused}
use splitsaathi.EventStore.Invariant.{empty_store-IsValid}
use splitsaathi.Ledger.Projecting.{IsConsistent}
use splitsaathi.Ledger.{LedgerState, Projector, append_and_project, project, rebuild}
use splitsaathi.Settlements.Requesting.{create_intent_command}
use splitsaathi.Settlements.Retried.{create_intent_command_repeated}
use splitsaathi.Common.Texts.{trim, trim_end, trim_start}
use splitsaathi.Common.Digits.{read_onto}
use splitsaathi.Common.{
  List, Option, Result, [], ap, arith, err, false, is_some, none, ok, refl, some, ℕ, ◌++◌, ◌+◌,
  ◌>>=◌, ◌∷◌, ◌≡◌,
}
use splitsaathi.Common.Int.{pos, ◌≤ℤ◌}
use splitsaathi.Common.Keys.{Text, codes, text_beq}
use splitsaathi.StateMachine.{
  awaiting_receiver_confirmation, intent_created, intent_generated, invalid, run, submit_proof,
  transition,
}
use splitsaathi.Events.{
  DomainEvent, NewDomainEvent, cash_settlement_recorded, settlement_intent_created,
}
use splitsaathi.EventStore.{
  Hashed, append, append_new, append_stored, check_events, earlier_record, empty_store,
  get_last_global_position, idempotency_key, stored_event, stored_events, stream_key,
}
use splitsaathi.Settlements.{SettlementIntentRow, cash, upi}
use splitsaathi.Settlements.Projection.{
  ProjectionError, SettlementPayload, Settlements, apply, apply_all, get_intent, intent_payload,
  intent_row, reason_payload, reset,
}
use splitsaathi.Settlements.Upi.{UpiIntentProvider, dev_upi_intent_provider, invalid_vpa}
use splitsaathi.Settlements.Requests.{
  CreateSettlementIntentCommand, RequestPayload, SubmitPaymentProofCommand, intent_event,
}
use splitsaathi.Settlements.Starting.{created_events, created_payload, generated_event}
use splitsaathi.Settlements.Evidence.{matching, proof_events, proof_transitions}
use splitsaathi.Settlements.Following.{deal}
use splitsaathi.Settlements.Commands.{SettlementError, require_intent, upi_refused, vpa_required}
use splitsaathi.Settlements.Requested.{IsPayable, asked_deal, created_events_project}
use splitsaathi.Settlements.Proving.{proof_events_project}

abbrev uuid : ℕ → Text
uuid n = (n + 60) ∷ []

abbrev cash_command : CreateSettlementIntentCommand
cash_command = record {
  idempotency_key = codes "k";
  actor_id = codes "a";
  group_id = codes "g";
  settlement_intent_id = none;
  payer_participant_id = codes "a";
  payee_participant_id = codes "b";
  amount_minor = pos 40;
  currency_code = none;
  payment_method = some cash;
  payee_vpa = none;
  payee_name = codes "B";
  note = none;
}

abbrev upi_command : CreateSettlementIntentCommand
upi_command = record cash_command { payment_method = none; payee_vpa = some (codes "bee@bank") }

-- A query that keeps the values only.
abbrev values_only : List (Text × Text) → Text
values_only [] = []
values_only ((key, value) ∷ rest) = value ++ values_only rest

abbrev provider : UpiIntentProvider
unfolding dev_upi_intent_provider
provider = dev_upi_intent_provider values_only (codes "later")

abbrev upi_events : List (NewDomainEvent SettlementPayload)
upi_events =
    intent_event settlement_intent_created (codes "s") (codes "g") (codes "a")
      (intent_payload (created_payload upi_command (codes "s") upi))
    ∷ generated_event upi_command (codes "s") (record {
      provider_reference = codes "SS1";
      upi_uri = codes "upi://pay?bee@bankB0.40INRSplitSaathi settlement sSS1";
      qr_payload = codes "upi://pay?bee@bankB0.40INRSplitSaathi settlement sSS1";
      expires_at = codes "later";
    })
    ∷ []

upi_created : created_events provider (codes "SS1") upi_command (codes "s") ≡ ok upi_events
unfolding created_events provider trim trim_start trim_end
upi_created = refl

created_events_project_example :
    (after : Settlements) × (last : SettlementIntentRow) × (apply_all reset
        (stored_events (codes "t") uuid 0 0 0 upi_events)
      ≡ ok after)
    × (get_intent after (codes "s") ≡ some last)
    × (last.state ≡ intent_generated)
    × (deal last ≡ asked_deal upi_command (codes "s"))
    × IsPayable provider (codes "SS1") (codes "t") uuid 0 0 upi_command (codes "s") upi last
    × (pos 1 ≤ℤ pos 40)
created_events_project_example =
    created_events_project provider (codes "SS1") (codes "t") uuid 0 0 reset upi_command (codes "s")
      upi_events upi_created

-- A UPI settlement without the id of its payee.
vpa_test :
    created_events provider
      (codes "SS1")
      (record upi_command { payee_vpa = some (codes " ") })
      (codes "s")
    ≡ err vpa_required
unfolding created_events trim trim_start trim_end
vpa_test = refl

vpa_refused_test :
    created_events provider
      (codes "SS1")
      (record upi_command { payee_vpa = some (codes "b@bank") })
      (codes "s")
    ≡ err (upi_refused invalid_vpa)
unfolding created_events provider trim trim_start trim_end
vpa_refused_test = refl

abbrev generated_row : SettlementIntentRow
generated_row =
    record (intent_row
      (stored_event (codes "t") uuid 0 0 0 (
        intent_event settlement_intent_created (codes "s") (codes "g") (codes "a")
          (intent_payload (created_payload upi_command (codes "s") upi))))
      (created_payload upi_command (codes "s") upi) intent_generated) { upi_uri = some (codes "u") }

abbrev generated : Settlements
generated = record { intents = (codes "s", generated_row) ∷ []; payment_reference_index = [] }

generated_found : get_intent generated (codes "s") ≡ some generated_row
unfolding text_beq
generated_found = refl

abbrev proof_command : SubmitPaymentProofCommand
proof_command = record {
  idempotency_key = codes "p";
  actor_id = codes "a";
  settlement_intent_id = codes "s";
  amount_minor = some (pos 40);
  utr = some (codes "u1");
  note = none;
  attachment_id = none;
  expected_version = 2;
}

matching_run : run intent_generated (proof_transitions matching) ≡ ok awaiting_receiver_confirmation
unfolding run transition
matching_run = refl

proof_events_project_example :
    (after : Settlements) × (last : SettlementIntentRow) × (apply_all generated (
        stored_events
          (codes "t")
          uuid
          2
          2
          0
          (proof_events proof_command generated_row (codes "q") matching))
      ≡ ok after)
    × (get_intent after (codes "s") ≡ some last)
    × (last.state ≡ awaiting_receiver_confirmation)
    × (deal last ≡ deal generated_row)
proof_events_project_example =
    proof_events_project (codes "t") uuid 2 2 proof_command generated generated_row (codes "q")
      matching awaiting_receiver_confirmation generated_found matching_run

-- No proof is taken before the UPI link is there.
early_test :
    is_some
      (elim (run intent_created (proof_transitions matching)) [ ok s ↦ some s | err e ↦ none ])
    ≡ false
unfolding run transition
early_test = refl

-- The projector, which stops at an event that it cannot apply.
abbrev apply_unless :
    Result ProjectionError Settlements
    → DomainEvent SettlementPayload
    → Result ProjectionError Settlements
apply_unless state event = state >>= λ settlements. apply settlements event

abbrev projector : Projector SettlementPayload
projector = record {
  State = Result ProjectionError Settlements;
  apply = apply_unless;
  reset = ok reset;
}

abbrev row_of : Result ProjectionError Settlements → Text → Option SettlementIntentRow
row_of state id = elim state [ ok settlements ↦ get_intent settlements id | err why ↦ none ]

abbrev hash : Hashed SettlementPayload RequestPayload → Text
hash payload = codes "h"

abbrev nothing : LedgerState projector
nothing = record { store = empty_store; projection = ok reset }

nothing-IsConsistent : IsConsistent projector nothing
unfolding rebuild project
nothing-IsConsistent = record { valid = empty_store-IsValid; projected = refl }

abbrev cash_events : List (NewDomainEvent SettlementPayload)
cash_events =
    intent_event settlement_intent_created (codes "n") (codes "g") (codes "a")
      (intent_payload (created_payload cash_command (codes "n") cash))
    ∷ intent_event cash_settlement_recorded (codes "n") (codes "g") (codes "a")
        (reason_payload (some (codes "n")) (some (codes "Marked as paid in cash")))
    ∷ []

abbrev cash_stored : List (DomainEvent SettlementPayload)
cash_stored = stored_events (codes "t") uuid 0 0 0 cash_events

abbrev cash_after : LedgerState projector
cash_after = record {
  store = record {
    events = cash_stored;
    stream_versions = (stream_key (codes "settlement_intent") (codes "n"), 2) ∷ [];
    idempotency_records =
        (
          codes "settlement_intent:a:k",
          record {
            key = codes "k";
            payload_hash = codes "h";
            event_ids = uuid 0 ∷ uuid 1 ∷ [];
            created_at = codes "t";
          },
        )
        ∷ [];
  };
  projection = project projector (ok reset) cash_stored;
}

abbrev cash_found : Result SettlementError SettlementIntentRow
cash_found = require_intent (codes "n") (row_of cash_after.projection (codes "n"))

cash_called :
    create_intent_command projector row_of row_of row_of hash
      (codes "t")
      uuid
      (codes "n")
      provider
      (codes "SS1")
      cash_command
      nothing
    ≡ ok (cash_found, cash_stored, cash_after)
unfolding create_intent_command append_and_project append append_new append_stored stored_events
    earlier_record idempotency_key stream_key check_events create text_beq project
    get_last_global_position first_nonzero add_totals
cash_called = refl

uuid-IsUnused : IsUnused {P = SettlementPayload} uuid []
unfolding read_onto
uuid-IsUnused = record {
  distinct = λ i j same. omega (arith, ap (λ (t : Text). read_onto 0 t) same);
  unused = λ i. tt;
}

cash_again :
    created_events provider (codes "SS2") cash_command (codes "m")
    ≡ ok (
        intent_event settlement_intent_created
          (codes "m")
          (codes "g")
          (codes "a")
          (intent_payload (created_payload cash_command (codes "m") cash))
        ∷ intent_event cash_settlement_recorded
            (codes "m")
            (codes "g")
            (codes "a")
            (reason_payload (some (codes "m")) (some (codes "Marked as paid in cash")))
        ∷ [])
unfolding created_events
cash_again = refl

create_intent_command_repeated_example :
    create_intent_command projector row_of row_of row_of hash
      (codes "u")
      uuid
      (codes "m")
      provider
      (codes "SS2")
      cash_command
      cash_after
    ≡ ok (cash_found, cash_stored, cash_after)
create_intent_command_repeated_example =
    create_intent_command_repeated projector row_of row_of row_of hash (codes "t") (codes "u") uuid
      uuid (codes "n") (codes "m") provider provider (codes "SS1") (codes "SS2") cash_command
      (codes "k") nothing cash_after cash_found cash_stored _ nothing-IsConsistent refl
      uuid-IsUnused cash_again cash_called

-- A proof that is sent again is refused: the intent has moved on.
proof_again_test :
    run awaiting_receiver_confirmation (proof_transitions matching)
    ≡ err (invalid awaiting_receiver_confirmation submit_proof)
unfolding run transition
proof_again_test = refl
