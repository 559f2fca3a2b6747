-- ===== src/EventStore/Tests.antt =====
-- Calls of the event store, and the theorems at concrete inputs
-- (apps/api/test/ledger/event-store.spec.ts).
use splitsaathi.Common.{List, ap, arith, err, length, none, ok, refl, some, ℕ, ◌≡◌}
use splitsaathi.Common.Keys.{Text, codes, text_beq}
use splitsaathi.Common.Tally.{add_totals, first_nonzero}
use splitsaathi.Common.Int.{◌+ℤ◌}
use splitsaathi.Postings.{create}
use splitsaathi.Events.{AppendEventsInput, DomainEvent, any_version, version}
use splitsaathi.EventStore.{
  Store, append, append_new, append_stored, check_events, earlier_record, empty_store, get_version,
  idempotency_conflict, idempotency_key, optimistic_concurrency, stored_events, stream_key,
}
use splitsaathi.EventStore.Samples.{sample_hash, sample_input, sample_uuid}
use splitsaathi.EventStore.Invariant.{IsValid, append-IsValid, empty_store-IsValid}
use splitsaathi.EventStore.Replay.{IsUnused, append_idempotent}
use splitsaathi.EventStore.Conflicts.{append_conflict, append_race}

abbrev first : AppendEventsInput ℕ Text
first = sample_input (codes "e1") (version 0) (some (codes "k1")) (codes "p1")

abbrev second : AppendEventsInput ℕ Text
second = sample_input (codes "e1") (version 0) none (codes "p2")

-- The same key as the first call, with another payload.
abbrev third : AppendEventsInput ℕ Text
third = sample_input (codes "e1") any_version (some (codes "k1")) (codes "p3x")

abbrev after_first : List (DomainEvent ℕ) × Store ℕ
after_first = append_stored sample_hash (codes "t1") sample_uuid first 0 empty_store

append-first : append sample_hash (codes "t1") sample_uuid first empty_store ≡ ok after_first
unfolding append append_new earlier_record check_events create add_totals first_nonzero ◌+ℤ◌
    text_beq
append-first = refl

versions_after : get_version (codes "expense") (codes "e1") after_first.1 ≡ 1
unfolding get_version append_stored stored_events text_beq stream_key
versions_after = refl

unused : IsUnused sample_uuid (empty_store {P = ℕ}).events
unused = record { distinct = λ i j e. cc; unused = λ i. tt }

append-IsValid_example : IsValid after_first.1
append-IsValid_example =
    append-IsValid sample_hash (codes "t1") sample_uuid first empty_store after_first
      empty_store-IsValid append-first

append_idempotent_example :
    append sample_hash (codes "t2") sample_uuid first after_first.1 ≡ ok after_first
append_idempotent_example =
    append_idempotent sample_hash (codes "t1") sample_uuid first empty_store after_first
      (codes "k1") (codes "t2") sample_uuid refl unused append-first

same_key : idempotency_key third (codes "k1") ≡ idempotency_key first (codes "k1")
unfolding idempotency_key
same_key = refl

no_record : earlier_record sample_hash first (empty_store {P = ℕ}) ≡ none
unfolding earlier_record
no_record = refl

no_key : earlier_record sample_hash second after_first.1 ≡ none
unfolding earlier_record
no_key = refl

append_conflict_example :
    append sample_hash (codes "t2") sample_uuid third after_first.1
    ≡ err (idempotency_conflict (codes "k1"))
append_conflict_example =
    append_conflict sample_hash (codes "t1") sample_uuid first empty_store after_first (codes "k1")
      third (codes "t2") sample_uuid refl refl same_key refl refl (λ e. omega (arith, ap length e))
      append-first

append_race_example :
    append sample_hash (codes "t2") sample_uuid second after_first.1
    ≡ err (optimistic_concurrency (codes "expense") (codes "e1") (version 0) 1)
append_race_example =
    append_race sample_hash (codes "t1") sample_uuid first empty_store 0 after_first second
      (codes "t2") sample_uuid refl refl refl refl refl no_record append-first no_key
