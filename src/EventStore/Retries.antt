-- ===== src/EventStore/Retries.antt =====
-- Calls of `append` that repeat the scope, the actor, the key and the payload of an earlier one, with
-- events of their own (apps/api/src/modules/ledger/event-store.ts).
use mathlib.Core.Option
use splitsaathi.Common.{
  List, Option-cases, ap, arith, false, inl, inr, is_empty, length, ok, refl, some, true, ℕ, ◌++◌,
  ◌∙◌, ◌≡◌,
}
use splitsaathi.Common.Keys.{Text, codes, text_beq_iff, text_eq, ◌==◌}
use splitsaathi.Events.{AppendEventsInput, DomainEvent, IdempotencyRecord}
use splitsaathi.EventStore.{
  Hashed, Store, append, append_stored, earlier_record, hashed, idempotency_actor, idempotency_key,
  recorded_events, stored_events, truthy,
}
use splitsaathi.Common.Dict.{get}
use splitsaathi.EventStore.Appending.{actual_version, append-eq-ok}
use splitsaathi.EventStore.Replay.{
  IsUnused, append_recorded, earlier_record-stored, recorded_fresh, stored_events-AreFresh,
}

-- The second input repeats the call of the first.
pub record Repeats {P Q : Type 0} (hash_payload : Hashed P Q → Text)
    (first again : AppendEventsInput P Q) : Type 0 where
  pub same_scope : again.aggregate_type ≡ first.aggregate_type
  pub same_actor : idempotency_actor again ≡ idempotency_actor first
  pub same_key : again.idempotency_key ≡ first.idempotency_key
  pub same_payload : hash_payload (hashed again) ≡ hash_payload (hashed first)
  pub some_events : is_empty again.events ≡ false

module _ {P Q : Type 0} (hash_payload : Hashed P Q → Text) (first again : AppendEventsInput P Q)
    (repeats : Repeats hash_payload first again) where
  idempotency_key-same : (key : Text) → idempotency_key again key ≡ idempotency_key first key
  unfolding idempotency_key
  idempotency_key-same key =
      ap (λ t. t ++ (codes ":" ++ (idempotency_actor again ++ (codes ":" ++ key))))
        repeats.same_scope
      ∙ ap (λ t. first.aggregate_type ++ (codes ":" ++ (t ++ (codes ":" ++ key))))
          repeats.same_actor

  earlier_record-same :
      (store : Store P)
      → earlier_record hash_payload again store ≡ earlier_record hash_payload first store
  unfolding earlier_record
  earlier_record-same store = elim (Option-cases (truthy first.idempotency_key)) [
    | inl e ↦ rw (repeats.same_key, e, earlier_record) refl
    | inr (key, e) ↦
        rw (repeats.same_key, e, earlier_record)
          (ap (λ k. Option.map (λ found. (key, found)) (get k store.idempotency_records))
            (idempotency_key-same key))
  ]

  -- Whatever the store after the first call holds for it answers the second.
  append_answers :
      (store : Store P) (now : Text) (random_uuid : ℕ → Text) (key : Text)
      (existing : IdempotencyRecord) (events : List (DomainEvent P))
      → earlier_record hash_payload first store ≡ some (key, existing)
      → (existing.payload_hash == hash_payload (hashed first)) ≡ true
      → recorded_events key store.events existing.event_ids ≡ ok events
      → append hash_payload now random_uuid again store ≡ ok (events, store)
  append_answers store now random_uuid key existing events found same recorded =
      append_recorded hash_payload now random_uuid again store key existing events
        repeats.some_events (earlier_record-same store ∙ found)
        (ap (λ h. existing.payload_hash == h) repeats.same_payload ∙ same) recorded

  -- A call that repeats a successful one returns the events of that one, and changes nothing.
  pub append_repeated :
      (now : Text) (random_uuid : ℕ → Text) (store : Store P)
      (result : List (DomainEvent P) × Store P) (key : Text) (later : Text) (other_uuid : ℕ → Text)
      → is_empty first.events ≡ false
      → truthy first.idempotency_key ≡ some key
      → IsUnused random_uuid store.events
      → append hash_payload now random_uuid first store ≡ ok result
      → append hash_payload later other_uuid again result.1 ≡ ok result
  unfolding append_stored
  append_repeated now random_uuid store result key later other_uuid filled t fresh h =
      elim (append-eq-ok hash_payload now random_uuid first store result h) [
        | inl (empty, skipped) ↦ absurd (ground (arith))
        | inr (inl old) ↦ rw old.unchanged (
            append_answers store later other_uuid old.key old.existing result.0 old.found
              old.same_hash old.recorded)
        | inr (inr new) ↦
            let actual = actual_version first store in
            let stored =
              stored_events now random_uuid actual (length store.events) 0 first.events in
            rw new.result_eq (
              append_answers (append_stored hash_payload now random_uuid first actual store).1 later
                other_uuid key _ stored
                (earlier_record-stored hash_payload now random_uuid first store key t)
                ((text_beq_iff (hash_payload (hashed first)) (hash_payload (hashed first))).1 refl)
                (recorded_fresh key store.events stored (
                  stored_events-AreFresh now random_uuid actual (length store.events) 0 store.events
                    first.events fresh.distinct (λ j le. fresh.unused j))))
      ]
