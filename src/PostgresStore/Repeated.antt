-- ===== src/PostgresStore/Repeated.antt =====
-- Repeated calls on Postgres
-- (apps/api/src/modules/ledger/postgres-event-store.ts, lines 182-192 and 264-285).
use splitsaathi.Common.{
  >>=-eq-ok, Bool-cases, List, Option, Option-cases, Result, [], ap, err, false, inl, inr, map,
  none, ok, ok-injective, refl, some, subst, sym, throw_if, ℕ, ◌++◌, ◌∙◌, ◌∷◌, ◌≡◌,
}
use splitsaathi.Common.Keys.{Text, text_beq_iff, text_eq, ◌==◌}
use splitsaathi.Events.{AppendEventsInput, DomainEvent}
use splitsaathi.EventStore.{
  Hashed, check_events, hashed, idempotency_actor, idempotency_conflict, optimistic_concurrency,
  stream_key, truthy, version_conflict,
}
use splitsaathi.PostgresStore.{
  EventContent, IdempotencyRow, PostingRow, Tables, find_idempotency_record, get_latest_event_hash,
  hydrate, load_events_by_ids, max_version, with_postings,
}
use splitsaathi.PostgresStore.Appending.{
  PostgresError, append_in_transaction, append_rows, checked, earlier_row, from_store,
  new_posting_rows, new_rows, recorded_rows, save_rows,
}
use splitsaathi.PostgresStore.Reloaded.{
  chosen, chosen_again, chosen_ids, find-last, with_postings-without, without_postings,
}

module _ {P Q : Type 0} (hash_payload : Hashed P Q → Text) (hash_event : EventContent P → Text)
    (ordered : List PostingRow → List PostingRow) (input : AppendEventsInput P Q) (key : Text) where
  abbrev call :
      Text → (ℕ → Text) → Tables P → Result PostgresError (List (DomainEvent P) × Tables P)
  call now random_uuid tables =
      append_in_transaction hash_payload hash_event ordered now random_uuid input tables

  abbrev found_row : Tables P → Option IdempotencyRow
  found_row tables =
      find_idempotency_record input.aggregate_type (idempotency_actor input) key tables

  -- The answer of a call whose key has a record.
  call-found :
      (now : Text) (random_uuid : ℕ → Text) (tables : Tables P) (existing : IdempotencyRow)
      → truthy input.idempotency_key ≡ some key
      → found_row tables ≡ some existing
      → existing.request_hash ≡ hash_payload (hashed input)
      → call now random_uuid tables
        ≡ ok (load_events_by_ids ordered tables existing.event_ids, tables)
  unfolding append_in_transaction earlier_row
  call-found now random_uuid tables existing counts found same_hash =
      let same = (text_beq_iff existing.request_hash (hash_payload (hashed input))).1 same_hash in
      rw (append_in_transaction, earlier_row, counts, found, same) refl

  call-missing :
      (now : Text) (random_uuid : ℕ → Text) (tables : Tables P)
      → truthy input.idempotency_key ≡ some key
      → found_row tables ≡ none
      → call now random_uuid tables
        ≡ append_rows hash_payload hash_event ordered now random_uuid input tables
  unfolding append_in_transaction earlier_row
  call-missing now random_uuid tables counts missing =
      rw (append_in_transaction, earlier_row, counts, missing) refl

  call-refused :
      (now : Text) (random_uuid : ℕ → Text) (tables : Tables P) (existing : IdempotencyRow)
      → truthy input.idempotency_key ≡ some key
      → found_row tables ≡ some existing
      → (existing.request_hash == hash_payload (hashed input)) ≡ false
      → call now random_uuid tables ≡ err (from_store (idempotency_conflict key))
  unfolding append_in_transaction earlier_row
  call-refused now random_uuid tables existing counts found other =
      rw (append_in_transaction, earlier_row, counts, found, other) refl

  -- The record that a new call leaves.
  abbrev record_of : Text → List Text → IdempotencyRow
  record_of now ids = record {
    scope = input.aggregate_type;
    actor_key = idempotency_actor input;
    idempotency_key = key;
    request_hash = hash_payload (hashed input);
    event_ids = ids;
    created_at = now;
  }

  -- What a new call answers and leaves.
  abbrev IsNewAnswer : Text → Tables P → List (DomainEvent P) → Tables P → Type 0
  IsNewAnswer now tables events next =
      (ids : List Text) × (posting_rows : List PostingRow) × (map (with_postings posting_rows)
          (chosen ids next.event_rows)
        ≡ events)
      × (tables.idempotency_rows ++ record_of now (chosen_ids ids next.event_rows) ∷ []
          ≡ next.idempotency_rows)

  recorded_rows-counts :
      (now : Text) (ids : List Text) (rows : List IdempotencyRow)
      → truthy input.idempotency_key ≡ some key
      → rows ++ record_of now ids ∷ [] ≡ recorded_rows hash_payload now input ids rows
  unfolding recorded_rows
  recorded_rows-counts now ids rows counts = rw (recorded_rows, counts) refl

  append_rows-IsNewAnswer :
      (now : Text) (random_uuid : ℕ → Text) (tables : Tables P) (events : List (DomainEvent P))
      (next : Tables P)
      → truthy input.idempotency_key ≡ some key
      → append_rows hash_payload hash_event ordered now random_uuid input tables ≡ ok (events, next)
      → IsNewAnswer now tables events next
  unfolding append_rows
  append_rows-IsNewAnswer now random_uuid tables events next counts made =
      let actual = max_version input.aggregate_type input.aggregate_id tables.event_rows in
      let stream = stream_key input.aggregate_type input.aggregate_id in
      let rows =
        new_rows hash_event now random_uuid input.idempotency_key actual tables.position stream 0
          (get_latest_event_hash stream tables) input.events in
      let ids = map (λ row. row.id) rows in
      let posting_rows = new_posting_rows random_uuid 0 input.events in
      let (done, version_fits, made1) =
        >>=-eq-ok
          (checked (
            throw_if (version_conflict input.expected_version actual) (
              optimistic_concurrency input.aggregate_type input.aggregate_id input.expected_version
                actual)))
          _ made in
      let (done', passed, made2) =
        >>=-eq-ok (checked (check_events input.aggregate_type input.aggregate_id input.events)) _
          made1 in
      let (saved, inserts, made3) = >>=-eq-ok (save_rows tables.event_rows rows) _ made2 in
      subst (λ answer. IsNewAnswer now tables answer.0 answer.1) (ok-injective made3)
        (
          ids,
          posting_rows,
          refl,
          recorded_rows-counts now (chosen_ids ids saved) tables.idempotency_rows counts,
        )

  found_row-record_of :
      (now : Text) (ids : List Text) (tables : Tables P)
      → found_row tables ≡ none
      → found_row
          (record tables { idempotency_rows = tables.idempotency_rows ++ record_of now ids ∷ [] })
        ≡ some (record_of now ids)
  found_row-record_of now ids tables missing =
      find-last _ tables.idempotency_rows (record_of now ids) missing (
        rw
          (
            (text_beq_iff input.aggregate_type input.aggregate_type).1 refl,
            (text_beq_iff (idempotency_actor input) (idempotency_actor input)).1 refl,
            (text_beq_iff key key).1 refl,
          )
          refl)

  repeated_found :
      (now later : Text) (random_uuid other_uuid : ℕ → Text) (tables : Tables P)
      (events : List (DomainEvent P)) (next : Tables P) (existing : IdempotencyRow)
      → truthy input.idempotency_key ≡ some key
      → found_row tables ≡ some existing
      → call now random_uuid tables ≡ ok (events, next)
      → (again : List (DomainEvent P)) × (call later other_uuid next ≡ ok (again, next))
        × (map without_postings again ≡ map without_postings events)
  repeated_found now later random_uuid other_uuid tables events next existing counts found made =
      elim (Bool-cases (existing.request_hash == hash_payload (hashed input))) [
        | inr other ↦
            cc (sym (call-refused now random_uuid tables existing counts found other) ∙ made)
        | inl same ↦
            let hash_is =
              (text_beq_iff existing.request_hash (hash_payload (hashed input))).0 same in
            let answer =
              sym (call-found now random_uuid tables existing counts found hash_is) ∙ made in
            subst
              (λ result.
                (again : List (DomainEvent P)) × (call later other_uuid result.1
                  ≡ ok (again, result.1))
                × (map without_postings again ≡ map without_postings result.0))
              (ok-injective answer)
              (_, call-found later other_uuid tables existing counts found hash_is, refl)
      ]

  repeated_new :
      (now later : Text) (other_uuid : ℕ → Text) (tables : Tables P) (events : List (DomainEvent P))
      (next : Tables P)
      → truthy input.idempotency_key ≡ some key
      → found_row tables ≡ none
      → IsNewAnswer now tables events next
      → (again : List (DomainEvent P)) × (call later other_uuid next ≡ ok (again, next))
        × (map without_postings again ≡ map without_postings events)
  unfolding load_events_by_ids hydrate
  repeated_new now later other_uuid tables events next counts missing
        (ids, posting_rows, events_are, rows_are) =
      let saved_ids = chosen_ids ids next.event_rows in
      let found : found_row next ≡ some (record_of now saved_ids) =
        subst
          (λ rows.
            found_row (record next { idempotency_rows = rows }) ≡ some (record_of now saved_ids))
          rows_are (found_row-record_of now saved_ids tables missing) in
      (
        load_events_by_ids ordered next saved_ids,
        call-found later other_uuid next (record_of now saved_ids) counts found refl,
        subst
            (λ rows. map without_postings (hydrate ordered next rows) ≡ map without_postings events)
            (sym (chosen_again ids next.event_rows))
            (with_postings-without _ posting_rows (chosen ids next.event_rows)
              ∙ ap (map without_postings) events_are),
      )

  -- A retry is harmless on Postgres too: if a call with a key that counts succeeds, the same call made
  -- again, at any later time and with any ids for events, changes no table and answers the same events,
  -- up to their postings.
  pub append_in_transaction_repeated :
      (now later : Text) (random_uuid other_uuid : ℕ → Text) (tables : Tables P)
      (events : List (DomainEvent P)) (next : Tables P)
      → truthy input.idempotency_key ≡ some key
      → append_in_transaction hash_payload hash_event ordered now random_uuid input tables
        ≡ ok (events, next)
      → (again : List (DomainEvent P)) × (append_in_transaction hash_payload hash_event ordered
            later other_uuid input next
          ≡ ok (again, next))
        × (map without_postings again ≡ map without_postings events)
  append_in_transaction_repeated now later random_uuid other_uuid tables events next counts made =
      elim (Option-cases (found_row tables)) [
        | inl missing ↦ repeated_new now later other_uuid tables events next counts missing (
            append_rows-IsNewAnswer now random_uuid tables events next counts
              (sym (call-missing now random_uuid tables counts missing) ∙ made))
        | inr (existing, found) ↦
            repeated_found now later random_uuid other_uuid tables events next existing counts found
              made
      ]
