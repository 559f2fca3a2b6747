-- ===== src/PostgresStore/Appending.antt =====
-- `append` of the event store on Postgres:
-- apps/api/src/modules/ledger/postgres-event-store.ts, lines 99-105 and 176-286.
use splitsaathi.Common.{
  List, Option, Result, [], any, err, filter, if◌then◌else◌, is_empty, length, map, nat_beq, none,
  not, ok, or_default, some, throw_if, ℕ, ◌&&◌, ◌++◌, ◌+◌, ◌>>=◌, ◌>>◌, ◌∷◌,
}
use splitsaathi.Common.Keys.{Text, text_eq, ◌==◌}
use splitsaathi.Events.{AppendEventsInput, DomainEvent, NewDomainEvent}
use splitsaathi.EventStore.{
  Hashed, StoreError, check_events, hashed, idempotency_actor, idempotency_conflict,
  optimistic_concurrency, stream_key, truthy, version_conflict,
}
use splitsaathi.PostgresStore.{
  EventContent, EventRow, IdempotencyRow, PostingRow, Tables, db_posting, find_idempotency_record,
  get_latest_event_hash, is_in, load_events_by_ids, max_version, with_postings,
}

-- What `append` throws: the errors of the store in memory, and a second row with the version of a stream
-- (uq_event_store_stream_version).
pub data PostgresError : Type 0 where
  from_store : StoreError → PostgresError
  unique_violation : Text → ℕ → PostgresError

abbrev pub checked : {A : Type 0} → Result StoreError A → Result PostgresError A
checked result = elim result [ ok a ↦ ok a | err why ↦ err (from_store why) ]

module _ {P : Type 0} (hash_event : EventContent P → Text) (now : Text) (random_uuid : ℕ → Text)
    (key : Option Text) (actual_version position : ℕ) (stream_id : Text) where
  abbrev pub content_of : ℕ → Option Text → NewDomainEvent P → EventContent P
  content_of index previous event = record {
    id = random_uuid index;
    stream_id = stream_id;
    type = event.type;
    aggregate_version = actual_version + index + 1;
    previous_hash = previous;
    payload = event.payload;
    postings = or_default [] event.postings;
  }

  -- The row of an event. Payloads are objects, which `toJsonObject` and the table keep as they are.
  abbrev pub event_row : ℕ → Option Text → NewDomainEvent P → EventRow P
  event_row index previous event = record {
    id = random_uuid index;
    stream_id = stream_id;
    aggregate_type = event.aggregate_type;
    aggregate_id = event.aggregate_id;
    group_id = event.group_id;
    version = actual_version + index + 1;
    event_type = event.type;
    actor_user_id = event.actor_id;
    idempotency_key = if nat_beq index 0 then key else none;
    payload = event.payload;
    previous_hash = previous;
    event_hash = hash_event (content_of index previous event);
    global_position = position + index + 1;
    occurred_at = now;
  }

  -- `input.events.forEach((event, index) => …)`, from an index and a hash on.
  unfoldable pub new_rows : ℕ → Option Text → List (NewDomainEvent P) → List (EventRow P)
  new_rows index previous [] = []
  new_rows index previous (event ∷ events) =
      let row = event_row index previous event in
      row ∷ new_rows (index + 1) (some row.event_hash) events

-- `savedRows.flatMap((row, eventIndex) => …)`
unfoldable pub new_posting_rows :
    {P : Type 0} → (ℕ → Text) → ℕ → List (NewDomainEvent P) → List PostingRow
new_posting_rows random_uuid index [] = []
new_posting_rows random_uuid index (event ∷ events) =
    map
      (λ posting. record {
        event_id = random_uuid index;
        group_id = event.group_id;
        posting = db_posting posting;
      })
      (or_default [] event.postings)
    ++ new_posting_rows random_uuid (index + 1) events

-- The insertion of rows, which ends at a row with the stream and the version of another one.
unfoldable pub save_rows :
    {P : Type 0} → List (EventRow P) → List (EventRow P) → Result PostgresError (List (EventRow P))
save_rows rows [] = ok rows
save_rows rows (row ∷ more) =
    let rest = save_rows (rows ++ row ∷ []) more in
    if any (λ other. other.stream_id == row.stream_id && nat_beq other.version row.version) rows
    then err (unique_violation row.stream_id row.version)
    else rest

-- The record of a call, if its key counts.
unfoldable pub recorded_rows :
    {P Q : Type 0}
    → (Hashed P Q → Text)
    → Text
    → AppendEventsInput P Q
    → List Text
    → List IdempotencyRow
    → List IdempotencyRow
unfolding idempotency_actor
recorded_rows hash_payload now input ids rows = elim (truthy input.idempotency_key) [
  | none ↦ rows
  | some key ↦
      rows
      ++ record {
        scope = input.aggregate_type;
        actor_key = idempotency_actor input;
        idempotency_key = key;
        request_hash = hash_payload (hashed input);
        event_ids = ids;
        created_at = now;
      }
        ∷ []
]

module _ {P Q : Type 0} (hash_payload : Hashed P Q → Text) (hash_event : EventContent P → Text)
    (ordered : List PostingRow → List PostingRow) (now : Text) (random_uuid : ℕ → Text) where
  -- The rest of `appendInTransaction`, for a call that no earlier one answers.
  unfoldable pub append_rows :
      AppendEventsInput P Q → Tables P → Result PostgresError (List (DomainEvent P) × Tables P)
  unfolding new_rows new_posting_rows save_rows max_version get_latest_event_hash check_events
      recorded_rows
  append_rows input tables = do
    let stream_id = stream_key input.aggregate_type input.aggregate_id
    let actual_version =
        splitsaathi.PostgresStore.get_version input.aggregate_type input.aggregate_id tables
    checked (
        throw_if (version_conflict input.expected_version actual_version) (
          optimistic_concurrency input.aggregate_type input.aggregate_id input.expected_version
            actual_version))
    checked (check_events input.aggregate_type input.aggregate_id input.events)
    let rows =
        new_rows hash_event now random_uuid input.idempotency_key actual_version tables.position
          stream_id 0 (get_latest_event_hash stream_id tables) input.events
    let posting_rows = new_posting_rows random_uuid 0 input.events
    saved ← save_rows tables.event_rows rows
    let ids = map (λ row. row.id) rows
    let reloaded = filter (λ row. is_in ids row.id) saved
    ok (
      map (with_postings posting_rows) reloaded,
      record {
        event_rows = saved;
        posting_rows = tables.posting_rows ++ posting_rows;
        idempotency_rows =
            recorded_rows hash_payload now input (map (λ row. row.id) reloaded)
              tables.idempotency_rows;
        position = tables.position + length rows;
      },
    )

  -- The record of an earlier call under the same key, if the key counts.
  unfoldable pub earlier_row : AppendEventsInput P Q → Tables P → Option (Text × IdempotencyRow)
  earlier_row input tables = elim (truthy input.idempotency_key) [
    | none ↦ none
    | some key ↦
        elim (find_idempotency_record input.aggregate_type (idempotency_actor input) key tables) [
          | none ↦ none
          | some row ↦ some (key, row)
        ]
  ]

  -- `appendInTransaction`. What it throws rolls the transaction back.
  unfoldable pub append_in_transaction :
      AppendEventsInput P Q → Tables P → Result PostgresError (List (DomainEvent P) × Tables P)
  unfolding earlier_row append_rows load_events_by_ids
  append_in_transaction input tables = elim (earlier_row input tables) [
    | none ↦ append_rows input tables
    | some (key, existing) ↦
        if not (existing.request_hash == hash_payload (hashed input))
        then err (from_store (idempotency_conflict key))
        else ok (load_events_by_ids ordered tables existing.event_ids, tables)
  ]

  -- `append`.
  unfoldable pub append :
      AppendEventsInput P Q → Tables P → Result PostgresError (List (DomainEvent P) × Tables P)
  unfolding append_in_transaction
  append input tables =
      if is_empty input.events then ok ([], tables) else append_in_transaction input tables
