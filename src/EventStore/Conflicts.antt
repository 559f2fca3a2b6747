-- ===== src/EventStore/Conflicts.antt =====
-- What `append` refuses: a key used again for another payload, and a version that is out of date
-- (apps/api/src/modules/ledger/event-store.ts).
use splitsaathi.Common.{
  Bool-cases, List, [], arith, err, false, inl, inr, is_empty, length, nat_beq, none, not, ok, refl,
  some, true, ℕ, ◌+◌, ◌∙◌, ◌∷◌, ◌≡◌, ◌≢◌,
}
use splitsaathi.Common.Keys.{Text, text_beq_iff, text_eq, ◌==◌}
use splitsaathi.Events.{AppendEventsInput, DomainEvent, IdempotencyRecord, NewDomainEvent, version}
use splitsaathi.EventStore.{
  Hashed, Store, append, append_new, append_stored, earlier_record, hashed, idempotency_conflict,
  idempotency_key, optimistic_concurrency, stream_key, truthy, version_conflict,
}
use splitsaathi.EventStore.Appending.{IsStored, actual_version, append-eq-ok}
use splitsaathi.Common.Dict.{get-set}
use splitsaathi.EventStore.Invariant.{length-stored_events}
use splitsaathi.EventStore.Replay.{earlier_record-stored, new_record}

module _ {P Q : Type 0} (hash_payload : Hashed P Q → Text) (now : Text) (random_uuid : ℕ → Text)
    (input : AppendEventsInput P Q) (store : Store P) where
  earlier_key :
      (key found_key : Text) (found : IdempotencyRecord)
      → truthy input.idempotency_key ≡ some key
      → earlier_record hash_payload input store ≡ some (found_key, found)
      → found_key ≡ key
  unfolding earlier_record
  earlier_key key found_key found t h = ground arith

  -- A successful call with a key leaves a record with the hash of its payload.
  recorded_after :
      (result : List (DomainEvent P) × Store P) (key : Text)
      → truthy input.idempotency_key ≡ some key
      → is_empty input.events ≡ false
      → append hash_payload now random_uuid input store ≡ ok result
      → (found : IdempotencyRecord) × (earlier_record hash_payload input result.1
          ≡ some (key, found))
        × (found.payload_hash ≡ hash_payload (hashed input))
  recorded_after result key t e h =
      elim (append-eq-ok hash_payload now random_uuid input store result h) [
        | inl (empty, skipped) ↦ cc
        | inr (inl again) ↦ (
          again.existing,
          rw (again.unchanged, again.found, earlier_key key again.key again.existing t again.found)
              refl,
          (text_beq_iff again.existing.payload_hash (hash_payload (hashed input))).0
              again.same_hash,
        )
        | inr (inr new) ↦ (
          new_record hash_payload now random_uuid input store key,
          rw new.result_eq (earlier_record-stored hash_payload now random_uuid input store key t),
          refl,
        )
      ]

  same_record :
      (other : AppendEventsInput P Q) (s : Store P) (key : Text)
      → truthy input.idempotency_key ≡ some key
      → truthy other.idempotency_key ≡ some key
      → idempotency_key other key ≡ idempotency_key input key
      → earlier_record hash_payload other s ≡ earlier_record hash_payload input s
  unfolding earlier_record
  same_record other s key t t' same = rw (t, t', same, earlier_record) refl

  append_mismatch :
      (other : AppendEventsInput P Q) (s : Store P) (later : Text) (other_uuid : ℕ → Text)
      (key : Text) (found : IdempotencyRecord)
      → is_empty other.events ≡ false
      → earlier_record hash_payload other s ≡ some (key, found)
      → found.payload_hash ≢ hash_payload (hashed other)
      → append hash_payload later other_uuid other s ≡ err (idempotency_conflict key)
  unfolding append
  append_mismatch other s later other_uuid key found e r ne =
      elim (Bool-cases (found.payload_hash == hash_payload (hashed other))) [
        | inl same ↦
            absurd (ne ((text_beq_iff found.payload_hash (hash_payload (hashed other))).0 same))
        | inr differ ↦ rw (e, r, differ) refl
      ]

  -- After a call with a key has succeeded, a call with the same scope, actor and key whose payload has
  -- another hash is refused with `IdempotencyConflictError`, whatever versions it expects.
  pub append_conflict :
      (result : List (DomainEvent P) × Store P) (key : Text) (other : AppendEventsInput P Q)
      (later : Text) (other_uuid : ℕ → Text)
      → truthy input.idempotency_key ≡ some key
      → truthy other.idempotency_key ≡ some key
      → idempotency_key other key ≡ idempotency_key input key
      → is_empty input.events ≡ false
      → is_empty other.events ≡ false
      → hash_payload (hashed input) ≢ hash_payload (hashed other)
      → append hash_payload now random_uuid input store ≡ ok result
      → append hash_payload later other_uuid other result.1 ≡ err (idempotency_conflict key)
  append_conflict result key other later other_uuid t t' same e e' ne h =
      let (found, record_of, hash_eq) = recorded_after result key t e h in
      append_mismatch other result.1 later other_uuid key found e'
        (same_record other result.1 key t t' same ∙ record_of) (rw hash_eq ne)

  version_after :
      (n : ℕ) (result : List (DomainEvent P) × Store P) (other : AppendEventsInput P Q)
      → input.expected_version ≡ version n
      → IsStored hash_payload now random_uuid input store result
      → stream_key other.aggregate_type other.aggregate_id
        ≡ stream_key input.aggregate_type input.aggregate_id
      → actual_version other result.1 ≡ n + length input.events
  unfolding append_stored
  version_after n result other v new same =
      let key = stream_key input.aggregate_type input.aggregate_id in
      let agrees : version_conflict (version n) (actual_version input store) ≡ false =
        rw v at new.agrees in
      let reached : actual_version input store ≡ n = ground (arith, agrees) in
      rw
        (
          new.result_eq,
          same,
          get-set key key _ store.stream_versions,
          (text_beq_iff key key).1 refl,
        )
        (omega (
          arith,
          reached,
          length-stored_events now random_uuid (actual_version input store) (length store.events)
              input.aggregate_type input.aggregate_id 0 input.events,
        ))

  stale :
      (other : AppendEventsInput P Q) (s : Store P) (later : Text) (other_uuid : ℕ → Text) (n m : ℕ)
      → is_empty other.events ≡ false
      → earlier_record hash_payload other s ≡ none
      → other.expected_version ≡ version n
      → actual_version other s ≡ m
      → m ≢ n
      → append hash_payload later other_uuid other s
        ≡ err (optimistic_concurrency other.aggregate_type other.aggregate_id (version n) m)
  unfolding append append_new
  stale other s later other_uuid n m e r v a ne =
      let differs : not (nat_beq m n) ≡ true = ground arith in rw (e, r, v, a, differs) refl

  grows :
      (events : List (NewDomainEvent P)) → is_empty events ≡ false → (n : ℕ) → n + length events ≢ n
  grows [] e n = cc
  grows (x ∷ xs) e n = omega arith

  -- No lost update: when a call that expects version n of a stream has stored its events, every other
  -- call that expects version n of that stream, and repeats no earlier key, is refused with
  -- `OptimisticConcurrencyError`, which names the version now reached.
  pub append_race :
      (n : ℕ) (result : List (DomainEvent P) × Store P) (other : AppendEventsInput P Q)
      (later : Text) (other_uuid : ℕ → Text)
      → input.expected_version ≡ version n
      → other.expected_version ≡ version n
      → stream_key other.aggregate_type other.aggregate_id
        ≡ stream_key input.aggregate_type input.aggregate_id
      → is_empty input.events ≡ false
      → is_empty other.events ≡ false
      → earlier_record hash_payload input store ≡ none
      → append hash_payload now random_uuid input store ≡ ok result
      → earlier_record hash_payload other result.1 ≡ none
      → append hash_payload later other_uuid other result.1
        ≡ err (
            optimistic_concurrency other.aggregate_type other.aggregate_id
              (version n)
              (n + length input.events))
  append_race n result other later other_uuid v v' same e e' r h r' =
      elim (append-eq-ok hash_payload now random_uuid input store result h) [
        | inl (empty, skipped) ↦ cc
        | inr (inl again) ↦ cc (again.found)
        | inr (inr new) ↦
            stale other result.1 later other_uuid n (n + length input.events) e' r' v'
              (version_after n result other v new same) (grows input.events e n)
      ]
