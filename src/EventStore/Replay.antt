-- ===== src/EventStore/Replay.antt =====
-- Idempotency and optimistic concurrency of `append`
-- (apps/api/src/modules/ledger/event-store.ts).
use splitsaathi.Common.Dict.{get-set, set}
use splitsaathi.EventStore.Appending.{actual_version, append-eq-ok}
use splitsaathi.Common.{
  All, All-append, Bool-cases, List, [], append_assoc, arith, false, find, inl, inr, is_empty,
  length, map, ok, refl, some, true, ℕ, ◌++◌, ◌+◌, ◌∷◌, ◌≡◌, ◌≢◌, ◌≤◌,
}
use splitsaathi.Common.Keys.{Text, text_beq_iff, text_eq, ◌==◌}
use splitsaathi.Events.{AppendEventsInput, DomainEvent, IdempotencyRecord, NewDomainEvent}
use splitsaathi.EventStore.{
  Hashed, Store, append, append_stored, earlier_record, find_event, hashed, idempotency_key,
  recorded_events, stored_event, stored_events, truthy,
}

-- No event of the list has the id.
abbrev pub IsFresh : {P : Type 0} → Text → List (DomainEvent P) → Type 0
IsFresh id events = All (λ event. event.event_id ≢ id) events

-- The ids of the list are distinct, and none of them stands in `before`.
abbrev pub AreFresh : {P : Type 0} → List (DomainEvent P) → List (DomainEvent P) → Type 0
AreFresh before [] = Unit
AreFresh before (event ∷ events) =
    IsFresh event.event_id before × AreFresh (before ++ event ∷ []) events

find_fresh :
    {P : Type 0} (event : DomainEvent P) (before after : List (DomainEvent P))
    → IsFresh event.event_id before
    → find (λ candidate. candidate.event_id == event.event_id) (before ++ event ∷ after)
      ≡ some event
find_fresh event [] after h = rw ((text_beq_iff event.event_id event.event_id).1 refl) refl
find_fresh event (b ∷ before) after h = elim (Bool-cases (b.event_id == event.event_id)) [
  | inl same ↦ absurd (h.0 ((text_beq_iff b.event_id event.event_id).0 same))
  | inr other ↦ rw other (find_fresh event before after h.1)
]

find_event_fresh :
    {P : Type 0} (key : Text) (event : DomainEvent P) (before after : List (DomainEvent P))
    → IsFresh event.event_id before
    → find_event key (before ++ event ∷ after) event.event_id ≡ ok event
unfolding find_event
find_event_fresh key event before after h = rw (find_fresh event before after h, find_event) refl

-- The ids of new events lead back to these events.
pub recorded_fresh :
    {P : Type 0} (key : Text) (before events : List (DomainEvent P))
    → AreFresh before events
    → recorded_events key (before ++ events) (map (λ event. event.event_id) events) ≡ ok events
unfolding recorded_events
recorded_fresh key before [] h = refl
recorded_fresh key before (event ∷ events) h =
    let later : recorded_events key (before ++ event ∷ events)
          (map (λ event. event.event_id) events)
        ≡ ok events =
      rw (append_assoc before (event ∷ []) events) at
        (recorded_fresh key (before ++ event ∷ []) events h.1) in
    rw (find_event_fresh key event before events h.0, recorded_events, later) refl

-- What `randomUUID` promises for one call: distinct ids, none of which an event has.
pub record IsUnused {P : Type 0} (random_uuid : ℕ → Text) (events : List (DomainEvent P))
    : Type 0 where
  pub distinct : (i j : ℕ) → random_uuid i ≡ random_uuid j → i ≡ j
  pub unused : (i : ℕ) → IsFresh (random_uuid i) events

pub stored_events-AreFresh :
    {P : Type 0} (now : Text) (random_uuid : ℕ → Text) (actual count i : ℕ)
    (before : List (DomainEvent P)) (es : List (NewDomainEvent P))
    → ((j k : ℕ) → random_uuid j ≡ random_uuid k → j ≡ k)
    → ((j : ℕ) → i ≤ j → IsFresh (random_uuid j) before)
    → AreFresh before (stored_events now random_uuid actual count i es)
unfolding stored_events
stored_events-AreFresh now random_uuid actual count i before [] d h = tt
stored_events-AreFresh now random_uuid actual count i before (e ∷ es) d h = (
  h i (omega arith),
  stored_events-AreFresh now random_uuid actual count (i + 1)
      (before ++ stored_event now random_uuid actual count i e ∷ []) es d
      λ j le.
        All-append (λ event. event.event_id ≢ random_uuid j) before _ (h j (omega arith))
          (λ same. absurd (omega (arith, d i j same)), tt),
)

module _ {P Q : Type 0} (hash_payload : Hashed P Q → Text) (now : Text) (random_uuid : ℕ → Text)
    (input : AppendEventsInput P Q) (store : Store P) where
  pub append_recorded :
      (key : Text) (existing : IdempotencyRecord) (events : List (DomainEvent P))
      → is_empty input.events ≡ false
      → earlier_record hash_payload input store ≡ some (key, existing)
      → (existing.payload_hash == hash_payload (hashed input)) ≡ true
      → recorded_events key store.events existing.event_ids ≡ ok events
      → append hash_payload now random_uuid input store ≡ ok (events, store)
  unfolding append
  append_recorded key existing events e r same found = rw (e, r, same, found) refl

  pub append_empty :
      is_empty input.events ≡ true
      → append hash_payload now random_uuid input store ≡ ok ([], store)
  unfolding append
  append_empty e = rw e refl

module _ {P Q : Type 0} (hash_payload : Hashed P Q → Text) (now : Text) (random_uuid : ℕ → Text)
    (input : AppendEventsInput P Q) (store : Store P) where
  -- The record that a call with a key leaves behind.
  abbrev pub new_record : Text → IdempotencyRecord
  new_record key = record {
    key = key;
    payload_hash = hash_payload (hashed input);
    event_ids =
        map (λ event. event.event_id)
          (stored_events now random_uuid (actual_version input store) (length store.events) 0
            input.events);
    created_at = now;
  }

  abbrev pub store_after : Store P
  store_after =
      (append_stored hash_payload now random_uuid input (actual_version input store) store).1

  records_stored :
      (key : Text)
      → truthy input.idempotency_key ≡ some key
      → store_after.idempotency_records
        ≡ set (idempotency_key input key) (new_record key) store.idempotency_records
  unfolding append_stored
  records_stored key t = rw (t, store_after, append_stored) refl

  pub earlier_record-stored :
      (key : Text)
      → truthy input.idempotency_key ≡ some key
      → earlier_record hash_payload input store_after ≡ some (key, new_record key)
  unfolding earlier_record
  earlier_record-stored key t =
      let k = idempotency_key input key in
      rw (t, earlier_record)
        (rw
          (
            records_stored key t,
            get-set k k (new_record key) store.idempotency_records,
            (text_beq_iff k k).1 refl,
          )
          refl)

  append_again :
      (key : Text) (later : Text) (other_uuid : ℕ → Text)
      → truthy input.idempotency_key ≡ some key
      → IsUnused random_uuid store.events
      → is_empty input.events ≡ false
      → let result =
          append_stored hash_payload now random_uuid input (actual_version input store) store in
        append hash_payload later other_uuid input result.1 ≡ ok result
  unfolding append_stored
  append_again key later other_uuid t fresh not_empty =
      let actual = actual_version input store in
      let stored = stored_events now random_uuid actual (length store.events) 0 input.events in
      append_recorded hash_payload later other_uuid input
        (append_stored hash_payload now random_uuid input actual store).1 key _ stored not_empty
        (earlier_record-stored key t)
        ((text_beq_iff (hash_payload (hashed input)) (hash_payload (hashed input))).1 refl)
        (recorded_fresh key store.events stored (
          stored_events-AreFresh now random_uuid actual (length store.events) 0 store.events
            input.events fresh.distinct (λ j le. fresh.unused j)))

  -- A retry is harmless: if a call with an idempotency key succeeds, the same call made again on the
  -- store that it leaves, at any later time and with any new ids, returns the same events and changes
  -- nothing. (`IsUnused` is the promise of `randomUUID` for the first call.)
  pub append_idempotent :
      (result : List (DomainEvent P) × Store P) (key : Text) (later : Text) (other_uuid : ℕ → Text)
      → truthy input.idempotency_key ≡ some key
      → IsUnused random_uuid store.events
      → append hash_payload now random_uuid input store ≡ ok result
      → append hash_payload later other_uuid input result.1 ≡ ok result
  append_idempotent result key later other_uuid t fresh h =
      elim (append-eq-ok hash_payload now random_uuid input store result h) [
        | inl (empty, skipped) ↦
            rw skipped (append_empty hash_payload later other_uuid input store empty)
        | inr (inl again) ↦ rw again.unchanged (
            append_recorded hash_payload later other_uuid input store again.key again.existing
              result.0 again.not_empty again.found again.same_hash again.recorded)
        | inr (inr new) ↦ rw new.result_eq (append_again key later other_uuid t fresh new.not_empty)
      ]
