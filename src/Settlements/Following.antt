-- ===== src/Settlements/Following.antt =====
-- The projector and the state machine
-- (apps/api/src/modules/settlements/settlement.projector.ts, lines 63-164 and 201-209).
use splitsaathi.Common.{
  >>=-eq-ok, Bool-cases, List, [], ap, arith, if◌then◌else◌, inl, inr, ok, ok-injective, or_default,
  refl, some, true, ℕ, ◌>>=◌, ◌∙◌, ◌∷◌, ◌≡◌,
}
use splitsaathi.StateMachine.{SettlementEvent, SettlementState, can, post_ledger, run, transition}
use splitsaathi.Settlements.Projection.{
  SettlementPayload, Settlements, add_timeline, apply, apply_all, apply_type, get_intent,
  index_reference, intent_payload, is_settlement_type, opened_payload, payload_intent_id,
  payload_reason, proof_payload, reason_payload, set_fields, transition_for_event, transition_state,
  update_at, update_intent, update_row, upi_payload,
}
use splitsaathi.Common.Keys.{Text, text_beq_iff, text_eq}
use splitsaathi.Events.{
  DomainEvent, EventType, payment_proof_submitted, settlement_intent_created,
  settlement_ledger_posted, upi_app_opened, upi_intent_generated,
}
use splitsaathi.Settlements.{SettlementIntentRow}
use splitsaathi.Common.Dict.{Dict, get, get-set, set}
use splitsaathi.EventStore.{stored_events}
use splitsaathi.Settlements.Commands.{
  SettlementTransitionCommand, TransitionKind, cancelling, confirming, disputing, events_of,
  expiring, refunding, rejecting, reversing, transitions_of,
}
use splitsaathi.Common.Int.{ℤ}

-- A transition that is allowed is the one that the projector makes.
transition_state-transition :
    (state next : SettlementState) (event_name : SettlementEvent)
    → transition state event_name ≡ ok next
    → transition_state state event_name ≡ ok next
unfolding transition_state transition can
transition_state-transition state next post_ledger h = elim (Bool-cases (can state post_ledger)) [
  | inl accepted ↦ rw accepted h
  | inr refused ↦ ground arith
]
transition_state-transition state next _ h = h

type_of_transition :
    (type : EventType) (event_name : SettlementEvent)
    → transition_for_event type ≡ some event_name
    → is_settlement_type type ≡ true
type_of_transition type event_name h = ground arith

-- Who pays whom, how much, and in which group.
abbrev pub deal : SettlementIntentRow → Text × Text × Text × Text × ℤ × Text
deal row = (
  row.settlement_intent_id, row.group_id, row.payer_participant_id, row.payee_participant_id,
  row.amount_minor, row.currency_code,
)

set_fields_keep :
    (event : DomainEvent SettlementPayload) (id : Text) (type : EventType)
    (payload : SettlementPayload) (row : SettlementIntentRow)
    → ((set_fields event id type payload row).state ≡ row.state)
      × (deal (set_fields event id type payload row) ≡ deal row)
unfolding set_fields
set_fields_keep event id upi_intent_generated (upi_payload of payload) row = (refl, refl)
set_fields_keep event id upi_intent_generated _ row = (refl, refl)
set_fields_keep event id upi_app_opened (opened_payload of app) row = (refl, refl)
set_fields_keep event id upi_app_opened _ row = (refl, refl)
set_fields_keep event id payment_proof_submitted (proof_payload payload) row = (refl, refl)
set_fields_keep event id payment_proof_submitted _ row = (refl, refl)
set_fields_keep event id settlement_ledger_posted _ row = (refl, refl)
set_fields_keep event id _ _ row = (refl, refl)

-- The row after an event that makes a transition.
abbrev pub moved_row :
    DomainEvent SettlementPayload
    → Text
    → SettlementState
    → SettlementIntentRow
    → SettlementIntentRow
moved_row event id next row =
    add_timeline event next (payload_reason event.payload)
      (record (set_fields event id event.type event.payload (record row { state = next })) {
        updated_at = event.occurred_at;
      })

pub moved_row_keeps :
    (event : DomainEvent SettlementPayload) (id : Text) (next : SettlementState)
    (row : SettlementIntentRow)
    → ((moved_row event id next row).state ≡ next) × (deal (moved_row event id next row) ≡ deal row)
moved_row_keeps event id next row =
    set_fields_keep event id event.type event.payload (record row { state = next })

update_row-eq :
    (event : DomainEvent SettlementPayload) (id : Text) (event_name : SettlementEvent)
    (row : SettlementIntentRow) (next : SettlementState)
    → transition_for_event event.type ≡ some event_name
    → transition row.state event_name ≡ ok next
    → update_row event id row ≡ ok (moved_row event id next row)
unfolding update_row
update_row-eq event id event_name row next named moves =
    rw (named, transition_state-transition row.state next event_name moves) refl

-- The projection after such an event.
abbrev pub moved :
    DomainEvent SettlementPayload
    → Text
    → SettlementState
    → SettlementIntentRow
    → Settlements
    → Settlements
moved event id next row settlements = record {
  intents = set id (moved_row event id next row) settlements.intents;
  payment_reference_index =
      index_reference id event.type event.payload settlements.payment_reference_index;
}

update_at-eq :
    (event : DomainEvent SettlementPayload) (id : Text) (event_name : SettlementEvent)
    (row : SettlementIntentRow) (next : SettlementState) (settlements : Settlements)
    → transition_for_event event.type ≡ some event_name
    → transition row.state event_name ≡ ok next
    → update_at settlements event id (some row) ≡ ok (moved event id next row settlements)
unfolding update_at
update_at-eq event id event_name row next settlements named moves =
    rw (update_row-eq event id event_name row next named moves) refl

-- The payload of an event on an intent that is there.
abbrev pub Concerns : Text → SettlementPayload → Type 0
Concerns id (intent_payload payload) = ⊥
Concerns id (upi_payload of payload) = of ≡ some id
Concerns id (opened_payload of app) = of ≡ some id
Concerns id (proof_payload payload) = payload.settlement_intent_id ≡ id
Concerns id (reason_payload of reason) = of ≡ some id

Concerns-payload_intent_id :
    (id : Text) (payload : SettlementPayload)
    → Concerns id payload
    → payload_intent_id payload ≡ some id
Concerns-payload_intent_id id (intent_payload payload) c = absurd c
Concerns-payload_intent_id id (upi_payload of payload) c = c
Concerns-payload_intent_id id (opened_payload of app) c = c
Concerns-payload_intent_id id (proof_payload payload) c = ap (λ (t : Text). some t) c
Concerns-payload_intent_id id (reason_payload of reason) c = c

update_intent-eq :
    (event : DomainEvent SettlementPayload) (id : Text) (event_name : SettlementEvent)
    (row : SettlementIntentRow) (next : SettlementState) (settlements : Settlements)
    → Concerns id event.payload
    → get id settlements.intents ≡ some row
    → transition_for_event event.type ≡ some event_name
    → transition row.state event_name ≡ ok next
    → update_intent settlements event ≡ ok (moved event id next row settlements)
unfolding update_intent
update_intent-eq event id event_name row next settlements payload found named moves =
    ap
      (λ p.
        let i = or_default event.aggregate_id p in
        update_at settlements event i (get i settlements.intents))
      (Concerns-payload_intent_id id event.payload payload)
    ∙ ap (update_at settlements event id) found
    ∙ update_at-eq event id event_name row next settlements named moves

apply_type-later :
    (settlements : Settlements) (event : DomainEvent SettlementPayload) (type : EventType)
    (id : Text) (payload : SettlementPayload)
    → Concerns id payload
    → apply_type settlements event type payload ≡ update_intent settlements event
unfolding apply_type
apply_type-later settlements event settlement_intent_created id (intent_payload payload) c =
    absurd c
apply_type-later settlements event settlement_intent_created id (upi_payload of payload) c = refl
apply_type-later settlements event settlement_intent_created id (opened_payload of app) c = refl
apply_type-later settlements event settlement_intent_created id (proof_payload payload) c = refl
apply_type-later settlements event settlement_intent_created id (reason_payload of reason) c = refl
apply_type-later settlements event _ id payload c = refl

pub apply-eq :
    (event : DomainEvent SettlementPayload) (id : Text) (event_name : SettlementEvent)
    (row : SettlementIntentRow) (next : SettlementState) (settlements : Settlements)
    → Concerns id event.payload
    → get id settlements.intents ≡ some row
    → transition_for_event event.type ≡ some event_name
    → transition row.state event_name ≡ ok next
    → apply settlements event ≡ ok (moved event id next row settlements)
unfolding apply
apply-eq event id event_name row next settlements payload found named moves =
    let known = type_of_transition event.type event_name named in
    rw known (
      apply_type-later settlements event event.type id event.payload payload
      ∙ update_intent-eq event id event_name row next settlements payload found named moves)

pub get_intent-moved :
    (event : DomainEvent SettlementPayload) (id : Text) (next : SettlementState)
    (row : SettlementIntentRow) (settlements : Settlements)
    → get_intent (moved event id next row settlements) id ≡ some (moved_row event id next row)
get_intent-moved event id next row settlements =
    get-set id id _ settlements.intents
    ∙ ap (λ t. if t then some (moved_row event id next row) else get id settlements.intents)
        ((text_beq_iff id id).1 refl)

-- The events make the transitions of the list on the intent, each with a payload of its own.
abbrev pub IsMoving : Text → List (DomainEvent SettlementPayload) → List SettlementEvent → Type 0
IsMoving id [] [] = Unit
IsMoving id [] (event_name ∷ names) = ⊥
IsMoving id (event ∷ events) [] = ⊥
IsMoving id (event ∷ events) (event_name ∷ names) =
    (transition_for_event event.type ≡ some event_name)
    × Concerns id event.payload
    × IsMoving id events names

-- The index of payment references after the events.
abbrev pub index_all : Text → List (DomainEvent SettlementPayload) → Dict Text Text → Dict Text Text
index_all id [] index = index
index_all id (event ∷ events) index =
    index_all id events (index_reference id event.type event.payload index)

-- Events that make a run of the state machine are projected without an error, and leave the intent in
-- the state that the run reaches.
pub apply_all-follows :
    (id : Text) (events : List (DomainEvent SettlementPayload)) (names : List SettlementEvent)
    (settlements : Settlements) (row : SettlementIntentRow) (reached : SettlementState)
    → IsMoving id events names
    → get_intent settlements id ≡ some row
    → run row.state names ≡ ok reached
    → (after : Settlements) × (last : SettlementIntentRow) × (apply_all settlements events
        ≡ ok after)
      × (get_intent after id ≡ some last)
      × (last.state ≡ reached)
      × (deal last ≡ deal row)
      × (after.payment_reference_index ≡ index_all id events settlements.payment_reference_index)
unfolding apply_all run
apply_all-follows id [] [] settlements row reached moving found runs =
    (settlements, row, refl, found, ok-injective runs, refl, refl)
apply_all-follows id [] (event_name ∷ names) settlements row reached moving found runs =
    absurd moving
apply_all-follows id (event ∷ events) [] settlements row reached moving found runs = absurd moving
apply_all-follows id (event ∷ events) (event_name ∷ names) settlements row reached moving found
      runs =
    let (named, payload, later) = moving in
    let (next, moves, rest) = >>=-eq-ok (transition row.state event_name) _ runs in
    let first = apply-eq event id event_name row next settlements payload found named moves in
    let (state_kept, deal_kept) = moved_row_keeps event id next row in
    let (after, last, ran, there, state, same_deal, indexed) =
      apply_all-follows id events names (moved event id next row settlements)
        (moved_row event id next row) reached later (get_intent-moved event id next row settlements)
        (ap (λ s. run s names) state_kept ∙ rest) in
    (
      after,
      last,
      ap (λ m. m >>= λ s. apply_all s events) first ∙ ran,
      there,
      state,
      same_deal ∙ deal_kept,
      indexed,
    )

-- The events that a command stores make the transitions that it has tested.
stored-IsMoving :
    (now : Text) (random_uuid : ℕ → Text) (actual_version count : ℕ) (kind : TransitionKind)
    (command : SettlementTransitionCommand) (intent : SettlementIntentRow)
    → IsMoving command.settlement_intent_id
        (stored_events now random_uuid actual_version count 0 (events_of kind command intent))
        (transitions_of kind)
unfolding stored_events
stored-IsMoving now random_uuid v n confirming command intent = (refl, refl, (refl, refl, tt))
stored-IsMoving now random_uuid v n reversing command intent = (refl, refl, tt)
stored-IsMoving now random_uuid v n refunding command intent = (refl, refl, tt)
stored-IsMoving now random_uuid v n rejecting command intent = (refl, refl, tt)
stored-IsMoving now random_uuid v n disputing command intent = (refl, refl, tt)
stored-IsMoving now random_uuid v n expiring command intent = (refl, refl, tt)
stored-IsMoving now random_uuid v n cancelling command intent = (refl, refl, tt)

-- When the transitions of a command are allowed from the state of its intent, the projector takes the
-- events that the command stores without an error, and has the intent in the state then that the
-- transitions reach, with its participants, amount, currency and group as they were.
pub stored_events-follow :
    (now : Text) (random_uuid : ℕ → Text) (actual_version count : ℕ) (kind : TransitionKind)
    (command : SettlementTransitionCommand) (settlements : Settlements)
    (intent : SettlementIntentRow) (reached : SettlementState)
    → get_intent settlements command.settlement_intent_id ≡ some intent
    → run intent.state (transitions_of kind) ≡ ok reached
    → (after : Settlements) × (last : SettlementIntentRow) × (apply_all settlements
          (stored_events now random_uuid actual_version count 0 (events_of kind command intent))
        ≡ ok after)
      × (get_intent after command.settlement_intent_id ≡ some last)
      × (last.state ≡ reached)
      × (deal last ≡ deal intent)
stored_events-follow now random_uuid actual_version count kind command settlements intent reached
      found runs =
    let (after, last, ran, there, state, same_deal, indexed) =
      apply_all-follows command.settlement_intent_id _ (transitions_of kind) settlements intent
        reached (stored-IsMoving now random_uuid actual_version count kind command intent) found
        runs in
    (after, last, ran, there, state, same_deal)
