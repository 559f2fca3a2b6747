-- ===== src/EventStore/Samples.antt =====
-- Sample calls of the event store, for tests (apps/api/test/ledger/event-store.spec.ts).
use splitsaathi.Common.{Option, [], some, ℕ, ◌∷◌}
use splitsaathi.Common.Keys.{Text, codes}
use splitsaathi.Common.Int.{negsuc, pos, ℤ}
use splitsaathi.Postings.{LedgerPosting}
use splitsaathi.Events.{AppendEventsInput, ExpectedVersion, NewDomainEvent, expense_created}
use splitsaathi.EventStore.{Hashed, given_payload, input_events}

-- A hash for tests: the payload itself.
abbrev pub sample_hash : Hashed ℕ Text → Text
sample_hash (given_payload q) = q
sample_hash (input_events es) = []

abbrev pub sample_uuid : ℕ → Text
sample_uuid i = i ∷ []

abbrev posting : Text → ℤ → LedgerPosting
posting participant amount = record {
  participant_id = participant;
  currency_code = codes "INR";
  signed_amount_minor = amount;
  posting_type = codes "expense_paid";
  source_type = codes "expense";
  source_id = codes "e1";
}

abbrev pub new_event : Text → NewDomainEvent ℕ
new_event id = record {
  type = expense_created;
  aggregate_type = codes "expense";
  aggregate_id = id;
  group_id = some (codes "g");
  actor_id = some (codes "u");
  payload = 0;
  postings = some (posting (codes "a") (pos 10) ∷ posting (codes "b") (negsuc 9) ∷ []);
}

-- A call on a stream, with the version that it expects, a key and a payload.
abbrev pub sample_input : Text → ExpectedVersion → Option Text → Text → AppendEventsInput ℕ Text
sample_input id expected key payload = record {
  aggregate_type = codes "expense";
  aggregate_id = id;
  expected_version = expected;
  events = new_event id ∷ [];
  idempotency_key = key;
  idempotency_payload = some payload;
}
