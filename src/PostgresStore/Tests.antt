-- ===== src/PostgresStore/Tests.antt =====
-- Tests of the event store on Postgres (apps/api/src/modules/ledger/postgres-event-store.ts).
use splitsaathi.Postings.{create}
use splitsaathi.Common.Tally.{add_totals, first_nonzero}
use splitsaathi.Common.Int.{◌+ℤ◌}
use splitsaathi.EventStore.{idempotency_actor, stream_key}
use splitsaathi.Common.{List, [], arith, err, map, ok, or_default, refl, some, ℕ, ◌∷◌, ◌≡◌}
use splitsaathi.Common.Keys.{Text, codes, text_beq}
use splitsaathi.Events.{AppendEventsInput, DomainEvent, version}
use splitsaathi.EventStore.Samples.{new_event, sample_hash, sample_input}
use splitsaathi.PostgresStore.{
  EventContent, Tables, load_events_by_ids, no_tables, to_db_posting_type,
}
use splitsaathi.PostgresStore.Appending.{append_in_transaction}
use splitsaathi.PostgresStore.Reloaded.{without_postings}
use splitsaathi.PostgresStore.Repeated.{append_in_transaction_repeated}
use splitsaathi.PostgresStore.Inserted.{IsChained}
use splitsaathi.PostgresStore.Chained.{append_in_transaction-IsChained}

-- A hash for tests: the version in front of the hash before it.
abbrev hash_chain : EventContent ℕ → Text
hash_chain content = content.aggregate_version ∷ or_default [] content.previous_hash

abbrev uuid_after : ℕ → ℕ → Text
uuid_after n i = n ∷ i ∷ []

abbrev first_call : AppendEventsInput ℕ Text
first_call = record (sample_input (codes "e1") (version 0) (some (codes "k")) (codes "q")) {
  events = new_event (codes "e1") ∷ new_event (codes "e1") ∷ [];
}

unfoldable after_call : AppendEventsInput ℕ Text → ℕ → Tables ℕ → Tables ℕ
unfolding append_in_transaction
after_call input n tables =
    elim (append_in_transaction sample_hash hash_chain (λ rows. rows) (codes "t") (uuid_after n)
      input tables) [ ok (events, next) ↦ next | err why ↦ tables ]

abbrev two_rows : Tables ℕ
two_rows = after_call first_call 1 no_tables

hashes_test : map (λ row. row.event_hash) two_rows.event_rows ≡ (1 ∷ []) ∷ (2 ∷ 1 ∷ []) ∷ []
unfolding after_call append_in_transaction create first_nonzero add_totals text_beq ◌+ℤ◌ stream_key
    to_db_posting_type idempotency_actor
hashes_test = refl

-- The postings come back with the types of the database.
types_test :
    map (λ row. row.posting.posting_type) two_rows.posting_rows
    ≡ codes "expense_payment"
      ∷ codes "expense_share"
      ∷ codes "expense_payment"
      ∷ codes "expense_share"
      ∷ []
unfolding after_call append_in_transaction create first_nonzero add_totals text_beq ◌+ℤ◌ stream_key
    to_db_posting_type idempotency_actor
types_test = refl

-- A call again under its key changes nothing.
again_test : after_call first_call 2 two_rows ≡ two_rows
unfolding after_call append_in_transaction create first_nonzero add_totals text_beq ◌+ℤ◌ stream_key
    to_db_posting_type idempotency_actor
again_test = refl

append_in_transaction-IsChained_example : IsChained hash_chain two_rows first_call.events
unfolding after_call append_in_transaction create first_nonzero add_totals text_beq ◌+ℤ◌ stream_key
    to_db_posting_type idempotency_actor
append_in_transaction-IsChained_example =
    append_in_transaction-IsChained sample_hash hash_chain (λ rows. rows) (codes "t") (uuid_after 1)
      first_call no_tables _ two_rows [] (ground arith) (λ s. tt, tt) refl

abbrev first_events : List (DomainEvent ℕ)
first_events = load_events_by_ids (λ rows. rows) two_rows ((1 ∷ 0 ∷ []) ∷ (1 ∷ 1 ∷ []) ∷ [])

append_in_transaction_repeated_example :
    (again : List (DomainEvent ℕ)) × (append_in_transaction sample_hash hash_chain
        (λ rows. rows)
        (codes "u")
        (uuid_after 2)
        first_call
        two_rows
      ≡ ok (again, two_rows))
    × (map without_postings again ≡ map without_postings first_events)
unfolding after_call append_in_transaction create first_nonzero add_totals text_beq ◌+ℤ◌ stream_key
    to_db_posting_type idempotency_actor load_events_by_ids
append_in_transaction_repeated_example =
    append_in_transaction_repeated sample_hash hash_chain (λ rows. rows) first_call (codes "k")
      (codes "t") (codes "u") (uuid_after 1) (uuid_after 2) no_tables first_events two_rows refl
      refl
