-- ===== src/Settlements/Tests.antt =====
-- Tests of the settlements (apps/api/src/modules/settlements).
use splitsaathi.Common.{Bool, [], none, ok, refl, some, ℕ, ◌++◌, ◌+◌, ◌∷◌, ◌≡◌}
use splitsaathi.Common.Int.{neg, pos, ◌+ℤ◌}
use splitsaathi.Common.Keys.{Text, codes, text_beq, text_eq, ◌==◌}
use splitsaathi.StateMachine.{
  awaiting_receiver_confirmation, create_intent, dispute, intent_created, ledger_posted,
  record_cash, reverse, reversed, run, suggested, transition,
}
use splitsaathi.Events.{DomainEvent, cash_settlement_recorded, settlement_intent_created}
use splitsaathi.EventStore.{check_events, stored_events}
use splitsaathi.Settlements.{SettlementIntentRow, cash}
use splitsaathi.Settlements.Projection.{
  SettlementPayload, Settlements, add_timeline, apply, apply_all, get_intent, intent_payload,
  intent_row, reason_payload, reset,
}
use splitsaathi.Settlements.Commands.{
  SettlementTransitionCommand, confirming, events_of, refunding, reversing, transitions_of,
}
use splitsaathi.Settlements.Following.{deal, stored_events-follow}
use splitsaathi.Settlements.Balancing.{
  amount_for, effect, events_of-IsAcceptable, events_of-effect, posted_by,
}

abbrev created : DomainEvent SettlementPayload
created = record {
  event_id = codes "1";
  type = settlement_intent_created;
  aggregate_type = codes "settlement_intent";
  aggregate_id = codes "s";
  aggregate_version = 1;
  global_position = 1;
  group_id = some (codes "g");
  actor_id = some (codes "a");
  occurred_at = codes "t";
  payload = intent_payload (record {
    settlement_intent_id = codes "s";
    group_id = codes "g";
    payer_participant_id = codes "a";
    payee_participant_id = codes "b";
    amount_minor = pos 40;
    currency_code = codes "INR";
    note = [];
    payment_method = some cash;
  });
  postings = [];
}

-- The cash is recorded, and the receiver is to confirm.
abbrev recorded : DomainEvent SettlementPayload
recorded = record created {
  event_id = codes "2";
  type = cash_settlement_recorded;
  payload = reason_payload (some (codes "s")) none;
}

abbrev waiting_row : SettlementIntentRow
waiting_row = add_timeline recorded awaiting_receiver_confirmation none (
    add_timeline created intent_created none
      (record (intent_row created
        (record {
          settlement_intent_id = codes "s";
          group_id = codes "g";
          payer_participant_id = codes "a";
          payee_participant_id = codes "b";
          amount_minor = pos 40;
          currency_code = codes "INR";
          note = [];
          payment_method = some cash;
        })
        awaiting_receiver_confirmation) { updated_at = codes "t" }))

abbrev waiting : Settlements
waiting = record { intents = (codes "s", waiting_row) ∷ []; payment_reference_index = [] }

waiting_run : apply_all reset (created ∷ recorded ∷ []) ≡ ok waiting
unfolding apply_all apply text_beq
waiting_run = refl

abbrev confirm_command : SettlementTransitionCommand
confirm_command = record {
  idempotency_key = codes "k";
  actor_id = codes "b";
  settlement_intent_id = codes "s";
  expected_version = 2;
  reason = none;
}

-- The new ids.
abbrev uuid : ℕ → Text
uuid n = (n + 60) ∷ []

confirm_run : run awaiting_receiver_confirmation (transitions_of confirming) ≡ ok ledger_posted
unfolding run transition
confirm_run = refl

waiting_found : get_intent waiting (codes "s") ≡ some waiting_row
unfolding text_beq
waiting_found = refl

stored_events-follow_example :
    (after : Settlements) × (last : SettlementIntentRow) × (apply_all waiting
        (stored_events (codes "u") uuid 2 2 0 (events_of confirming confirm_command waiting_row))
      ≡ ok after)
    × (get_intent after (codes "s") ≡ some last)
    × (last.state ≡ ledger_posted)
    × (deal last ≡ deal waiting_row)
stored_events-follow_example =
    stored_events-follow (codes "u") uuid 2 2 confirming confirm_command waiting waiting_row
      ledger_posted waiting_found confirm_run

abbrev of_a : Text → Text → Bool
of_a participant currency = participant == codes "a"

events_of-effect_example :
    (effect of_a (posted_by (events_of confirming confirm_command waiting_row))
      ≡ amount_for of_a waiting_row waiting_row.payer_participant_id
        +ℤ neg (amount_for of_a waiting_row waiting_row.payee_participant_id))
    × (effect of_a (
          posted_by (events_of confirming confirm_command waiting_row)
          ++ posted_by (events_of reversing confirm_command waiting_row))
        ≡ pos 0)
    × (effect of_a (
          posted_by (events_of confirming confirm_command waiting_row)
          ++ posted_by (events_of refunding confirm_command waiting_row))
        ≡ pos 0)
events_of-effect_example = events_of-effect of_a waiting_row confirm_command confirm_command

events_of-IsAcceptable_example :
    check_events
      (codes "settlement_intent")
      (codes "s")
      (events_of confirming confirm_command waiting_row)
    ≡ ok tt
events_of-IsAcceptable_example = events_of-IsAcceptable confirming confirm_command waiting_row

-- A disputed cash settlement that was never posted can be reversed.
reversal_without_posting :
    run suggested (create_intent ∷ record_cash ∷ dispute ∷ reverse ∷ []) ≡ ok reversed
unfolding run transition
reversal_without_posting = refl
