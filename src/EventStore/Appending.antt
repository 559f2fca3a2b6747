-- ===== src/EventStore/Appending.antt =====
-- The two ways in which `append` succeeds: the events of an earlier call are found, or new ones stored
-- (apps/api/src/modules/ledger/event-store.ts).
use splitsaathi.Common.{
  Bool-cases, List, Option-cases, [], arith, false, inl, inr, is_empty, none, ok, or_default, some,
  true, ℕ, ◌≡◌, ◌⊎◌,
}
use splitsaathi.Common.Keys.{Text, text_eq, ◌==◌}
use splitsaathi.Common.Dict.{get}
use splitsaathi.Events.{AppendEventsInput, DomainEvent, IdempotencyRecord}
use splitsaathi.EventStore.{
  Hashed, Store, append, append_new, append_stored, check_events, earlier_record, hashed,
  recorded_events, stream_key, version_conflict,
}

abbrev pub actual_version : {P Q : Type 0} → AppendEventsInput P Q → Store P → ℕ
actual_version input store =
    or_default 0 (get (stream_key input.aggregate_type input.aggregate_id) store.stream_versions)

-- The facts about a call that stored its events.
pub record IsStored {P Q : Type 0} (hash_payload : Hashed P Q → Text) (now : Text)
    (random_uuid : ℕ → Text) (input : AppendEventsInput P Q) (store : Store P)
    (result : List (DomainEvent P) × Store P) : Type 0 where
  pub not_empty : is_empty input.events ≡ false
  pub no_record : earlier_record hash_payload input store ≡ none
  pub agrees : version_conflict input.expected_version (actual_version input store) ≡ false
  pub checked : check_events input.aggregate_type input.aggregate_id input.events ≡ ok tt
  pub result_eq :
      result ≡ append_stored hash_payload now random_uuid input (actual_version input store) store

-- The facts about a call that found the events of an earlier one.
pub record IsReplayed {P Q : Type 0} (hash_payload : Hashed P Q → Text)
    (input : AppendEventsInput P Q) (store : Store P) (result : List (DomainEvent P) × Store P)
    : Type 0 where
  pub not_empty : is_empty input.events ≡ false
  pub key : Text
  pub existing : IdempotencyRecord
  pub found : earlier_record hash_payload input store ≡ some (key, existing)
  pub same_hash : (existing.payload_hash == hash_payload (hashed input)) ≡ true
  pub recorded : recorded_events key store.events existing.event_ids ≡ ok result.0
  pub unchanged : result.1 ≡ store

module _ {P Q : Type 0} (hash_payload : Hashed P Q → Text) (now : Text) (random_uuid : ℕ → Text)
    (input : AppendEventsInput P Q) (store : Store P) where
  append_new-IsStored :
      (result : List (DomainEvent P) × Store P)
      → is_empty input.events ≡ false
      → earlier_record hash_payload input store ≡ none
      → append_new hash_payload now random_uuid input store ≡ ok result
      → IsStored hash_payload now random_uuid input store result
  unfolding append_new
  append_new-IsStored result e r h = ground arith

  replayed :
      (result : List (DomainEvent P) × Store P)
      → is_empty input.events ≡ false
      → (key : Text) (existing : IdempotencyRecord)
      → earlier_record hash_payload input store ≡ some (key, existing)
      → append hash_payload now random_uuid input store ≡ ok result
      → IsReplayed hash_payload input store result
  unfolding append
  replayed result e key existing r h = record {
    not_empty = e;
    key = key;
    existing = existing;
    found = r;
    same_hash = ground arith;
    recorded = ground arith;
    unchanged = ground arith;
  }

  pub append-eq-ok :
      (result : List (DomainEvent P) × Store P)
      → append hash_payload now random_uuid input store ≡ ok result
      → ((is_empty input.events ≡ true) × (result ≡ ([], store)))
        ⊎ IsReplayed hash_payload input store result
        ⊎ IsStored hash_payload now random_uuid input store result
  unfolding append
  append-eq-ok result h = elim (Bool-cases (is_empty input.events)) [
    | inl e ↦ inl (e, ground arith)
    | inr e ↦ elim (Option-cases (earlier_record hash_payload input store)) [
      | inl r ↦ inr (inr (append_new-IsStored result e r (ground arith)))
      | inr ((key, existing), r) ↦ inr (inl (replayed result e key existing r h))
    ]
  ]
