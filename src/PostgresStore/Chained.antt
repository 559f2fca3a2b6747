-- ===== src/PostgresStore/Chained.antt =====
-- The chains of hashes over calls of `append`
-- (apps/api/src/modules/ledger/postgres-event-store.ts, lines 176-286).
use splitsaathi.Common.{
  >>=-eq-ok, All, All-append, Bool-cases, List, Option, Result, ap, arith, err, if◌then◌else◌, inl,
  inr, none, not, ok, ok-injective, refl, some, subst, throw_if, ℕ, ◌++◌, ◌∙◌, ◌≡◌,
}
use splitsaathi.Common.Keys.{Text, text_beq_iff, text_eq, ◌==◌}
use splitsaathi.Balances.Keys.{IsPlain}
use splitsaathi.Events.{AppendEventsInput, DomainEvent, NewDomainEvent}
use splitsaathi.EventStore.{
  Hashed, StoreError, check_events, hashed, idempotency_conflict, optimistic_concurrency,
  stream_key, version_conflict,
}
use splitsaathi.EventStore.Streams.{IsChecked, check_events-All}
use splitsaathi.PostgresStore.{
  EventContent, EventRow, IdempotencyRow, PostingRow, Tables, get_latest_event_hash,
  load_events_by_ids, max_version,
}
use splitsaathi.PostgresStore.Appending.{
  PostgresError, append_in_transaction, append_rows, checked, earlier_row, from_store, new_rows,
  save_rows,
}
use splitsaathi.PostgresStore.Chain.{
  IsChain, IsChain-append, chain_end, chain_length, get_latest_event_hash-eq-end,
  max_version-eq-length,
}
use splitsaathi.PostgresStore.Inserted.{
  IsChained, IsOwn, new_rows-IsChain, new_rows-IsOwn, new_rows-other, own_same, save_rows-append,
}

checked-ok :
    {A : Type 0} (result : Result StoreError A) {a : A} → checked result ≡ ok a → result ≡ ok a
checked-ok (ok b) h = cc
checked-ok (err why) h = cc

module _ {P Q : Type 0} (hash_payload : Hashed P Q → Text) (hash_event : EventContent P → Text)
    (ordered : List PostingRow → List PostingRow) (now : Text) (random_uuid : ℕ → Text)
    (input : AppendEventsInput P Q) (tables : Tables P) (events : List (DomainEvent P))
    (next : Tables P) (entered : List (NewDomainEvent P)) where
  abbrev stream : Text
  stream = stream_key input.aggregate_type input.aggregate_id

  -- The rows that the call inserts.
  abbrev inserted : List (EventRow P)
  inserted =
      new_rows hash_event now random_uuid input.idempotency_key
        (max_version input.aggregate_type input.aggregate_id tables.event_rows) tables.position
        stream 0 (get_latest_event_hash stream tables) input.events

  append_rows-inserted :
      append_rows hash_payload hash_event ordered now random_uuid input tables ≡ ok (events, next)
      → (tables.event_rows ++ inserted ≡ next.event_rows)
        × All (IsChecked input.aggregate_type input.aggregate_id) input.events
  unfolding append_rows
  append_rows-inserted made =
      let actual = max_version input.aggregate_type input.aggregate_id tables.event_rows in
      let (done, version_fits, made1) =
        >>=-eq-ok
          (checked (
            throw_if (version_conflict input.expected_version actual) (
              optimistic_concurrency input.aggregate_type input.aggregate_id input.expected_version
                actual)))
          _ made in
      let (done', passed, made2) =
        >>=-eq-ok (checked (check_events input.aggregate_type input.aggregate_id input.events)) _
          made1 in
      let (saved, inserts, made3) = >>=-eq-ok (save_rows tables.event_rows inserted) _ made2 in
      (
        save_rows-append tables.event_rows inserted saved inserts
            ∙ ap (λ answer. answer.1.event_rows) (ok-injective made3),
        check_events-All input.aggregate_type input.aggregate_id input.events
            (checked-ok (check_events input.aggregate_type input.aggregate_id input.events) passed),
      )

  stream-IsChain :
      IsPlain input.aggregate_type
      → IsChained hash_event tables entered
      → IsChain hash_event stream
          (chain_length hash_event stream 0 tables.event_rows)
          (chain_end hash_event stream none tables.event_rows)
          inserted
          input.events
  stream-IsChain plain (chains, own) =
      let rows = tables.event_rows in
      let actual = max_version input.aggregate_type input.aggregate_id rows in
      let length_is =
        max_version-eq-length hash_event stream input.aggregate_type input.aggregate_id rows entered
          (own_same input.aggregate_type input.aggregate_id rows plain own) (chains stream) in
      subst
        (λ h.
          IsChain hash_event stream (chain_length hash_event stream 0 rows) h inserted input.events)
        (get_latest_event_hash-eq-end hash_event stream tables entered (chains stream))
        (new_rows-IsChain hash_event now random_uuid input.idempotency_key actual tables.position
          stream (chain_length hash_event stream 0 rows) 0 (get_latest_event_hash stream tables)
          input.events (omega (arith, length_is)))

  inserted-IsChain :
      IsPlain input.aggregate_type
      → IsChained hash_event tables entered
      → (s : Text)
      → IsChain hash_event s 0 none (tables.event_rows ++ inserted) (entered ++ input.events)
  inserted-IsChain plain chained s =
      IsChain-append hash_event s 0 none tables.event_rows inserted entered input.events
        (chained.0 s)
        (elim (Bool-cases (stream == s)) [
          | inl same ↦
              subst
                (λ k.
                  IsChain hash_event k (chain_length hash_event k 0 tables.event_rows)
                    (chain_end hash_event k none tables.event_rows) inserted input.events)
                ((text_beq_iff stream s).0 same) (stream-IsChain plain chained)
          | inr other ↦
              new_rows-other hash_event now random_uuid input.idempotency_key
                (max_version input.aggregate_type input.aggregate_id tables.event_rows)
                tables.position stream s _ 0 (get_latest_event_hash stream tables) _ input.events
                other
        ])

  append_rows-IsChained :
      IsPlain input.aggregate_type
      → IsChained hash_event tables entered
      → append_rows hash_payload hash_event ordered now random_uuid input tables ≡ ok (events, next)
      → IsChained hash_event next (entered ++ input.events)
  append_rows-IsChained plain chained made =
      let (rows_are, checks) = append_rows-inserted made in
      (
        λ s.
            subst (λ rows. IsChain hash_event s 0 none rows (entered ++ input.events)) rows_are
              (inserted-IsChain plain chained s),
        subst (λ rows. All IsOwn rows) rows_are
            (All-append IsOwn tables.event_rows inserted chained.1 (
              new_rows-IsOwn hash_event now random_uuid input.idempotency_key
                (max_version input.aggregate_type input.aggregate_id tables.event_rows)
                tables.position stream input.aggregate_type input.aggregate_id 0
                (get_latest_event_hash stream tables) input.events refl plain checks)),
      )

  -- The events behind the rows after a call: a call that was there before enters none.
  abbrev entered_after : Option (Text × IdempotencyRow) → List (NewDomainEvent P)
  entered_after none = entered ++ input.events
  entered_after (some earlier) = entered

  abbrev Answered : Type 0
  Answered = Result PostgresError (List (DomainEvent P) × Tables P)

  answered :
      IsPlain input.aggregate_type
      → IsChained hash_event tables entered
      → (earlier : Option (Text × IdempotencyRow))
      → (elim earlier as (λ x. Answered) [
        | none ↦ append_rows hash_payload hash_event ordered now random_uuid input tables
        | some (key, existing) ↦
            if not (existing.request_hash == hash_payload (hashed input))
            then err (from_store (idempotency_conflict key))
            else ok (load_events_by_ids ordered tables existing.event_ids, tables)
      ])
        ≡ ok (events, next)
      → IsChained hash_event next (entered_after earlier)
  answered plain chained none made = append_rows-IsChained plain chained made
  answered plain chained (some (key, existing)) made =
      elim (Bool-cases (existing.request_hash == hash_payload (hashed input))) [
        | inl same ↦
            subst (λ t. IsChained hash_event t entered)
              (ap (λ answer. answer.1) (ok-injective (rw same at made))) chained
        | inr other ↦ cc (rw other at made)
      ]

  -- Every call that succeeds keeps the rows those of the events that were entered, one for one: a call
  -- whose key is not in use enters its events, any other none. The rows of each stream have the versions
  -- 1, 2, 3, …, each refers to the hash of the one before it, the first to none, and has the type and the
  -- payload of its event; its own hash is that of its content with the postings of the event, as they
  -- were given. The types of aggregates have no colon. Payloads are objects, which are kept as they are.
  pub append_in_transaction-IsChained :
      IsPlain input.aggregate_type
      → IsChained hash_event tables entered
      → append_in_transaction hash_payload hash_event ordered now random_uuid input tables
        ≡ ok (events, next)
      → IsChained hash_event next
          (entered_after (earlier_row hash_payload hash_event ordered now random_uuid input tables))
  unfolding append_in_transaction
  append_in_transaction-IsChained plain chained made =
      answered plain chained
        (earlier_row hash_payload hash_event ordered now random_uuid input tables) made
