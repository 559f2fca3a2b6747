-- ===== src/Settlements/Retried.antt =====
-- Repeated calls of createIntent
-- (apps/api/src/modules/settlements/settlement-command.service.ts, lines 53-123).
use splitsaathi.Common.{
  >>=-eq-ok, List, Option, Result, [], ap, err, false, is_empty, ok, ok-injective, or_default, refl,
  some, subst, sym, throw_if, ℕ, ◌∙◌, ◌∷◌, ◌≡◌,
}
use splitsaathi.Common.Int.{leb_ℤ, pos}
use splitsaathi.Common.Keys.{Text, codes}
use splitsaathi.Events.{AppendEventsInput, DomainEvent, NewDomainEvent, version}
use splitsaathi.EventStore.{Hashed, StoreError, idempotency_actor, truthy}
use splitsaathi.EventStore.Replay.{IsUnused}
use splitsaathi.EventStore.Retries.{Repeats}
use splitsaathi.Ledger.{LedgerState, Projector, append_and_project}
use splitsaathi.Ledger.Projecting.{IsConsistent}
use splitsaathi.Ledger.Retrying.{append_and_project_repeated}
use splitsaathi.Settlements.{SettlementIntentRow, upi}
use splitsaathi.Settlements.Projection.{SettlementPayload}
use splitsaathi.Settlements.Upi.{UpiIntentProvider}
use splitsaathi.Settlements.Commands.{
  SettlementError, amount_not_positive, settlement_appended, vpa_required,
}
use splitsaathi.Settlements.Requests.{CreateSettlementIntentCommand, RequestPayload, creating}
use splitsaathi.Settlements.Starting.{created_events, lacks_vpa, payment_event}
use splitsaathi.Settlements.Requesting.{append_request, create_intent_command, first_intent_id}

-- The events of `createIntent` are two, the first by the actor of the command.
created_shape :
    (create_upi : UpiIntentProvider) (ledger_reference : Text)
    (command : CreateSettlementIntentCommand) (id : Text)
    (events : List (NewDomainEvent SettlementPayload))
    → created_events create_upi ledger_reference command id ≡ ok events
    → (first second : NewDomainEvent SettlementPayload) × (first ∷ second ∷ [] ≡ events)
      × (first.actor_id ≡ some command.actor_id)
unfolding created_events
created_shape create_upi ledger_reference command id events made =
    let method = or_default upi command.payment_method in
    let (done, positive, made1) =
      >>=-eq-ok (throw_if (leb_ℤ command.amount_minor (pos 0)) amount_not_positive) _ made in
    let (done', has_vpa, made2) =
      >>=-eq-ok (throw_if (lacks_vpa method command.payee_vpa) vpa_required) _ made1 in
    let (second, paid, made3) =
      >>=-eq-ok (payment_event create_upi ledger_reference command id method) _ made2 in
    (_, second, ok-injective made3, refl)

-- The call of `append` that `createIntent` makes.
abbrev creation :
    CreateSettlementIntentCommand
    → Text
    → List (NewDomainEvent SettlementPayload)
    → AppendEventsInput SettlementPayload RequestPayload
creation command id events = record {
  aggregate_type = codes "settlement_intent";
  aggregate_id = id;
  expected_version = version 0;
  events = events;
  idempotency_key = some command.idempotency_key;
  idempotency_payload = some (creating command);
}

creation_actor :
    (create_upi : UpiIntentProvider) (ledger_reference : Text)
    (command : CreateSettlementIntentCommand) (id : Text)
    (events : List (NewDomainEvent SettlementPayload))
    → created_events create_upi ledger_reference command id ≡ ok events
    → (idempotency_actor (creation command id events) ≡ command.actor_id)
      × (is_empty events ≡ false)
unfolding idempotency_actor
creation_actor create_upi ledger_reference command id events made =
    let (first, second, shape, by_actor) =
      created_shape create_upi ledger_reference command id events made in
    rw (sym shape) (ap (or_default (codes "system")) by_actor, refl)

settlement_appended-eq-ok :
    {A : Type 0} {a : A} (result : Result StoreError A)
    → settlement_appended result ≡ ok a
    → result ≡ ok a
settlement_appended-eq-ok (ok b) h = cc
settlement_appended-eq-ok (err why) h = cc

module _ (projector : Projector SettlementPayload)
    (get_row by_reference by_provider : projector.State → Text → Option SettlementIntentRow)
    (hash_payload : Hashed SettlementPayload RequestPayload → Text) (now later : Text)
    (random_uuid other_uuid : ℕ → Text) (new_id other_id : Text)
    (create_upi create_again : UpiIntentProvider) (reference other_reference : Text)
    (command : CreateSettlementIntentCommand) (key : Text) (ledger after : LedgerState projector)
    (found : Result SettlementError SettlementIntentRow)
    (events : List (DomainEvent SettlementPayload))
    (new_events : List (NewDomainEvent SettlementPayload)) where
  -- A retry of `createIntent` is harmless: if the first call succeeds, the same command sent again, at any
  -- later time and though it draws another id for its intent, returns the intent and the events of the
  -- first call and changes nothing, if the key is not empty, the ledger is consistent, the ids of the first
  -- call are unused, and the second call passes its guards and the provider.
  pub create_intent_command_repeated :
      IsConsistent projector ledger
      → truthy (some command.idempotency_key) ≡ some key
      → IsUnused random_uuid ledger.store.events
      → created_events create_again other_reference command
          (or_default other_id command.settlement_intent_id)
        ≡ ok new_events
      → create_intent_command projector get_row by_reference by_provider hash_payload now
          random_uuid new_id create_upi reference command ledger
        ≡ ok (found, events, after)
      → create_intent_command projector get_row by_reference by_provider hash_payload later
          other_uuid other_id create_again other_reference command after
        ≡ ok (found, events, after)
  unfolding create_intent_command append_request
  create_intent_command_repeated consistent keyed fresh made_again h =
      let id = or_default new_id command.settlement_intent_id in
      let second_id = or_default other_id command.settlement_intent_id in
      let (first_events, made, h1) =
        >>=-eq-ok (created_events create_upi reference command id) _ h in
      let ((stored, next), appended, h2) =
        >>=-eq-ok
          (settlement_appended (
            append_and_project projector hash_payload now random_uuid
              (creation command id first_events) ledger))
          _ h1 in
      let (first_id, named, h3) = >>=-eq-ok (first_intent_id stored) _ h2 in
      let (same_actor, filled) = creation_actor create_upi reference command id first_events made in
      let (again_actor, again_filled) =
        creation_actor create_again other_reference command second_id new_events made_again in
      let repeats : Repeats hash_payload (creation command id first_events)
          (creation command second_id new_events) =
        record {
          same_scope = refl;
          same_actor = again_actor ∙ sym same_actor;
          same_key = refl;
          same_payload = refl;
          some_events = again_filled;
        } in
      let repeated =
        append_and_project_repeated projector hash_payload (creation command id first_events)
          (creation command second_id new_events) repeats now random_uuid ledger next stored key
          later other_uuid consistent filled keyed fresh (settlement_appended-eq-ok _ appended) in
      subst
        (λ (x : Result SettlementError SettlementIntentRow
            × List (DomainEvent SettlementPayload)
            × LedgerState projector).
          create_intent_command projector get_row by_reference by_provider hash_payload later
            other_uuid other_id create_again other_reference command x.2
          ≡ ok x)
        (ok-injective h3) (rw made_again rw repeated rw named refl)
