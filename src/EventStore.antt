-- ===== src/EventStore.antt =====
-- The in-memory event store: apps/api/src/modules/ledger/event-store.ts.
pub mod Appending
pub mod Checks
pub mod Streams
pub mod Invariant
pub mod Replay
pub mod Conflicts
pub mod Retries
pub mod Samples
mod Tests
use mathlib.Core.Option
use splitsaathi.Common.{
  Bool, List, Option, Result, [], err, false, filter, find, if◌then◌else◌, is_empty, leb, length,
  map, map_ok, nat_beq, none, not, ok, or_default, some, throw_if, true, ℕ, ◌&&◌, ◌++◌, ◌+◌, ◌>>=◌,
  ◌>>◌, ◌||◌, ◌∷◌,
}
use splitsaathi.Common.Keys.{Text, codes, text_eq, ◌==◌}
use splitsaathi.Common.Dict.{Dict, get, set}
use splitsaathi.Postings.{Unbalanced, create}
use splitsaathi.Events.{
  AppendEventsInput, DomainEvent, ExpectedVersion, IdempotencyRecord, NewDomainEvent, ReplayOptions,
  any_version, version,
}

-- The private fields of `InMemoryEventStore`.
pub record Store (P : Type 0) : Type 0 where
  pub events : List (DomainEvent P)
  pub stream_versions : Dict Text ℕ
  pub idempotency_records : Dict Text IdempotencyRecord

-- What `append` throws.
pub data StoreError : Type 0 where
  idempotency_conflict : Text → StoreError
  missing_event : Text → Text → StoreError
  optimistic_concurrency : Text → Text → ExpectedVersion → ℕ → StoreError
  unbalanced_postings : Unbalanced → StoreError
  foreign_event : StoreError

-- `input.idempotencyPayload ?? input.events`, which `hashPayload` reads.
pub data Hashed (P Q : Type 0) : Type 0 where
  given_payload : Q → Hashed P Q
  input_events : List (NewDomainEvent P) → Hashed P Q

-- `${aggregateType}:${aggregateId}`.
unfoldable pub stream_key : Text → Text → Text
stream_key aggregate_type aggregate_id = aggregate_type ++ (codes ":" ++ aggregate_id)

-- The idempotency key that counts: neither absent nor the empty text.
abbrev pub truthy : Option Text → Option Text
truthy none = none
truthy (some []) = none
truthy (some (c ∷ cs)) = some (c ∷ cs)

module _ {P Q : Type 0} where
  -- `input.events[0]?.actorId ?? 'system'`.
  unfoldable pub idempotency_actor : AppendEventsInput P Q → Text
  idempotency_actor input = elim input.events [
    | [] ↦ codes "system"
    | event ∷ rest ↦ or_default (codes "system") event.actor_id
  ]

  -- `${idempotencyScope(input)}:${idempotencyActor(input)}:${input.idempotencyKey}`.
  unfoldable pub idempotency_key : AppendEventsInput P Q → Text → Text
  unfolding idempotency_actor
  idempotency_key input key =
      input.aggregate_type ++ (codes ":" ++ (idempotency_actor input ++ (codes ":" ++ key)))

  abbrev pub hashed : AppendEventsInput P Q → Hashed P Q
  hashed input = elim input.idempotency_payload [
    | none ↦ input_events input.events
    | some q ↦ given_payload q
  ]

-- `this.events.find(…)`, and the error if there is none.
unfoldable pub find_event :
    {P : Type 0} → Text → List (DomainEvent P) → Text → Result StoreError (DomainEvent P)
find_event key events id = elim (find (λ candidate. candidate.event_id == id) events) [
  | none ↦ err (missing_event key id)
  | some event ↦ ok event
]

-- The events that a record names, in its order: `existing.eventIds.map(…)`.
unfoldable pub recorded_events :
    {P : Type 0}
    → Text
    → List (DomainEvent P)
    → List Text
    → Result StoreError (List (DomainEvent P))
unfolding find_event
recorded_events key events [] = ok []
recorded_events key events (id ∷ ids) = do
  event ← find_event key events id
  rest ← recorded_events key events ids
  ok (event ∷ rest)

-- The loop over the events of a batch that checks them.
unfoldable pub check_events :
    {P : Type 0} → Text → Text → List (NewDomainEvent P) → Result StoreError (Unit {0})
check_events aggregate_type aggregate_id [] = ok tt
check_events aggregate_type aggregate_id (event ∷ events) =
    let rest = check_events aggregate_type aggregate_id events in
    elim (create (or_default [] event.postings)) [
      | err e ↦ err (unbalanced_postings e)
      | ok _ ↦
          if not (event.aggregate_type == aggregate_type)
            || not (event.aggregate_id == aggregate_id)
          then err foreign_event
          else rest
    ]

-- `input.expectedVersion !== 'any' && actualVersion !== input.expectedVersion`.
abbrev pub version_conflict : ExpectedVersion → ℕ → Bool
version_conflict any_version actual = false
version_conflict (version n) actual = not (nat_beq actual n)

-- `new Date().toISOString()` and `randomUUID()` for the event of each index are the platform's.
module _ {P : Type 0} (now : Text) (random_uuid : ℕ → Text) (actual_version count : ℕ) where
  abbrev pub stored_event : ℕ → NewDomainEvent P → DomainEvent P
  stored_event index event = record {
    event_id = random_uuid index;
    type = event.type;
    aggregate_type = event.aggregate_type;
    aggregate_id = event.aggregate_id;
    aggregate_version = actual_version + index + 1;
    global_position = count + index + 1;
    group_id = event.group_id;
    actor_id = event.actor_id;
    occurred_at = now;
    payload = event.payload;
    postings = or_default [] event.postings;
  }

  -- `input.events.map((event, index) => …)`, from an index on.
  unfoldable pub stored_events : ℕ → List (NewDomainEvent P) → List (DomainEvent P)
  stored_events index [] = []
  stored_events index (event ∷ events) = stored_event index event ∷ stored_events (index + 1) events

module _ {P Q : Type 0} (hash_payload : Hashed P Q → Text) where
  -- The last part of `append`: the events are stored, and the versions and the record written.
  unfoldable pub append_stored :
      Text → (ℕ → Text) → AppendEventsInput P Q → ℕ → Store P → List (DomainEvent P) × Store P
  append_stored now random_uuid input actual_version store =
      let stored =
        stored_events now random_uuid actual_version (length store.events) 0 input.events in
      (
        stored,
        record {
          events = store.events ++ stored;
          stream_versions =
              set (stream_key input.aggregate_type input.aggregate_id)
                (actual_version + length stored) store.stream_versions;
          idempotency_records = elim (truthy input.idempotency_key) [
            | none ↦ store.idempotency_records
            | some key ↦
                set (idempotency_key input key)
                  (record {
                    key = key;
                    payload_hash = hash_payload (hashed input);
                    event_ids = map (λ event. event.event_id) stored;
                    created_at = now;
                  })
                  store.idempotency_records
          ];
        },
      )

  -- The record of an earlier append under the same key, if the key counts.
  unfoldable pub earlier_record :
      AppendEventsInput P Q → Store P → Option (Text × IdempotencyRecord)
  earlier_record input store = elim (truthy input.idempotency_key) [
    | none ↦ none
    | some key ↦
        Option.map (λ found. (key, found))
          (get (idempotency_key input key) store.idempotency_records)
  ]

  -- `append`, for an input that no earlier one answers.
  unfoldable pub append_new :
      Text
      → (ℕ → Text)
      → AppendEventsInput P Q
      → Store P
      → Result StoreError (List (DomainEvent P) × Store P)
  append_new now random_uuid input store = do
    let actual_version =
        or_default 0
          (get (stream_key input.aggregate_type input.aggregate_id) store.stream_versions)
    throw_if (version_conflict input.expected_version actual_version) (
        optimistic_concurrency input.aggregate_type input.aggregate_id input.expected_version
          actual_version)
    check_events input.aggregate_type input.aggregate_id input.events
    ok (append_stored now random_uuid input actual_version store)

  -- `append`: the events returned and the store after the call. What it throws leaves the store.
  unfoldable pub append :
      Text
      → (ℕ → Text)
      → AppendEventsInput P Q
      → Store P
      → Result StoreError (List (DomainEvent P) × Store P)
  append now random_uuid input store =
      if is_empty input.events then ok ([], store) else elim (earlier_record input store) [
        | none ↦ append_new now random_uuid input store
        | some (key, existing) ↦
            if not (existing.payload_hash == hash_payload (hashed input))
            then err (idempotency_conflict key)
            else map_ok (λ found. (found, store))
                (recorded_events key store.events existing.event_ids)
      ]

-- `getVersion`.
unfoldable pub get_version : {P : Type 0} → Text → Text → Store P → ℕ
get_version aggregate_type aggregate_id store =
    or_default 0 (get (stream_key aggregate_type aggregate_id) store.stream_versions)

-- `loadStream`.
unfoldable pub load_stream : {P : Type 0} → Text → Text → Store P → List (DomainEvent P)
load_stream aggregate_type aggregate_id store =
    filter (λ event. event.aggregate_type == aggregate_type && event.aggregate_id == aggregate_id)
      store.events

-- `option !== undefined && value !== option`, for the options that name a text.
abbrev pub differs : Option Text → Text → Bool
differs none value = false
differs (some wanted) value = not (value == wanted)

-- `options.groupId !== undefined && event.groupId !== options.groupId`.
abbrev pub group_differs : Option Text → Option Text → Bool
group_differs none group = false
group_differs (some wanted) none = true
group_differs (some wanted) (some group) = not (group == wanted)

abbrev pub not_after : Option ℕ → ℕ → Bool
not_after none position = false
not_after (some after) position = leb position after

-- `replay`.
unfoldable pub replay : {P : Type 0} → ReplayOptions → Store P → List (DomainEvent P)
replay options store =
    filter
      (λ event.
        if not_after options.after_global_position event.global_position
        then false
        else if differs options.aggregate_type event.aggregate_type
        then false
        else if differs options.aggregate_id event.aggregate_id
        then false
        else if group_differs options.group_id event.group_id
        then false
        else true)
      store.events

-- `replay()` with no options.
abbrev pub any_event : ReplayOptions
any_event = record {
  after_global_position = none;
  aggregate_type = none;
  aggregate_id = none;
  group_id = none;
}

-- The position of the last event, or 0.
unfoldable pub last_position : {P : Type 0} → List (DomainEvent P) → ℕ
last_position [] = 0
last_position (event ∷ []) = event.global_position
last_position (event ∷ next ∷ events) = last_position (next ∷ events)

-- `getLastGlobalPosition`.
unfoldable pub get_last_global_position : {P : Type 0} → Store P → ℕ
unfolding last_position
get_last_global_position store = last_position store.events

-- `getIdempotencyRecord`, with the scope and the actor given.
unfoldable pub get_idempotency_record :
    {P : Type 0} → Text → Text → Text → Store P → Option IdempotencyRecord
get_idempotency_record key scope actor store =
    get (scope ++ (codes ":" ++ (actor ++ (codes ":" ++ key)))) store.idempotency_records

-- `clear`, and the store at the start.
abbrev pub empty_store : {P : Type 0} → Store P
empty_store = record { events = []; stream_versions = []; idempotency_records = [] }
