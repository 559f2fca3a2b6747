-- ===== src/EventStore/Invariant.antt =====
-- The invariant of the event store, and `append`
-- (apps/api/src/modules/ledger/event-store.ts).
use splitsaathi.EventStore.Appending.{actual_version, append-eq-ok}
use splitsaathi.Common.{
  All, All-append, Bool, List, [], arith, if◌then◌else◌, inl, inr, is_empty, is_some, length, not,
  ok, or_default, refl, ℕ, ◌&&◌, ◌++◌, ◌+◌, ◌∷◌, ◌≡◌,
}
use splitsaathi.Common.Keys.{Text, text_beq_iff, text_eq, ◌==◌}
use splitsaathi.Common.Dict.{get, get-set}
use splitsaathi.Postings.Balanced.{IsBalanced}
use splitsaathi.Events.{AppendEventsInput, DomainEvent, NewDomainEvent}
use splitsaathi.EventStore.{
  Hashed, Store, append, append_stored, earlier_record, empty_store, stored_event, stored_events,
  stream_key,
}
use splitsaathi.EventStore.Streams.{
  IsChecked, IsNumbered, IsNumbered-append, IsVersioned, IsVersioned-append, check_events-All,
  stream_length, stream_length-append,
}

-- The call has events, and no earlier call has its key.
abbrev pub is_new : {P Q : Type 0} → (Hashed P Q → Text) → AppendEventsInput P Q → Store P → Bool
is_new hash_payload input store =
    not (is_empty input.events) && not (is_some (earlier_record hash_payload input store))

pub record IsValid {P : Type 0} (store : Store P) : Type 0 where
  pub numbered : IsNumbered 0 store.events
  pub versioned : IsVersioned [] store.events
  pub counted :
      (k : Text) → or_default 0 (get k store.stream_versions) ≡ stream_length k store.events
  pub balanced : All (λ event. IsBalanced event.postings) store.events

module _ {P : Type 0} (now : Text) (random_uuid : ℕ → Text) (actual count : ℕ)
    (aggregate_type : Text) (aggregate_id : Text) where
  pub stored_events-IsNumbered :
      (i n : ℕ) (es : List (NewDomainEvent P))
      → count + i ≡ n
      → IsNumbered n (stored_events now random_uuid actual count i es)
  unfolding stored_events
  stored_events-IsNumbered i n [] e = tt
  stored_events-IsNumbered i n (x ∷ es) e =
      (omega arith, stored_events-IsNumbered (i + 1) (n + 1) es (omega arith))

  pub length-stored_events :
      (i : ℕ) (es : List (NewDomainEvent P))
      → length (stored_events now random_uuid actual count i es) ≡ length es
  unfolding stored_events
  length-stored_events i [] = refl
  length-stored_events i (x ∷ es) = omega (arith, length-stored_events (i + 1) es)

  stored_events-IsBalanced :
      (i : ℕ) (es : List (NewDomainEvent P))
      → All (IsChecked aggregate_type aggregate_id) es
      → All (λ event. IsBalanced event.postings) (stored_events now random_uuid actual count i es)
  unfolding stored_events
  stored_events-IsBalanced i [] h = tt
  stored_events-IsBalanced i (x ∷ es) h = (h.0.balanced, stored_events-IsBalanced (i + 1) es h.1)

  stored_events-stream_length :
      (k : Text) (i : ℕ) (es : List (NewDomainEvent P))
      → All (IsChecked aggregate_type aggregate_id) es
      → stream_length k (stored_events now random_uuid actual count i es)
        ≡ (if k == stream_key aggregate_type aggregate_id then length es else 0)
  unfolding stored_events stream_length
  stored_events-stream_length k i [] h = ground arith
  stored_events-stream_length k i (x ∷ es) h =
      rw (h.0.same_type, h.0.same_id, stored_events-stream_length k (i + 1) es h.1) (ground arith)

  stored_events-IsVersioned :
      (i : ℕ) (before : List (DomainEvent P)) (es : List (NewDomainEvent P))
      → All (IsChecked aggregate_type aggregate_id) es
      → stream_length (stream_key aggregate_type aggregate_id) before ≡ actual + i
      → IsVersioned before (stored_events now random_uuid actual count i es)
  unfolding stored_events stream_length
  stored_events-IsVersioned i before [] h e = tt
  stored_events-IsVersioned i before (x ∷ es) h e = (
    rw (h.0.same_type, h.0.same_id) (omega (arith, e)),
    stored_events-IsVersioned (i + 1) (before ++ stored_event now random_uuid actual count i x ∷ [])
        es h.1
        (rw
          (
            stream_length-append (stream_key aggregate_type aggregate_id) before
                (stored_event now random_uuid actual count i x ∷ []),
            h.0.same_type,
            h.0.same_id,
          )
          (ground (
            arith,
            text_beq_iff (stream_key aggregate_type aggregate_id)
                (stream_key aggregate_type aggregate_id),
          ))),
  )

module _ {P Q : Type 0} (hash_payload : Hashed P Q → Text) (now : Text) (random_uuid : ℕ → Text)
    (input : AppendEventsInput P Q) (store : Store P) where
  append_stored-IsValid :
      IsValid store
      → All (IsChecked input.aggregate_type input.aggregate_id) input.events
      → IsValid
          (append_stored hash_payload now random_uuid input (actual_version input store) store).1
  unfolding append_stored
  append_stored-IsValid v h =
      let key = stream_key input.aggregate_type input.aggregate_id in
      let actual = actual_version input store in
      let count = length store.events in
      let stored = stored_events now random_uuid actual count 0 input.events in
      record {
        numbered = IsNumbered-append 0 count store.events stored (omega arith) v.numbered (
            stored_events-IsNumbered now random_uuid actual count input.aggregate_type
              input.aggregate_id 0 count input.events (omega arith));
        versioned = IsVersioned-append [] store.events stored v.versioned (
            stored_events-IsVersioned now random_uuid actual count input.aggregate_type
              input.aggregate_id 0 store.events input.events h (omega (arith, v.counted key)));
        counted = λ k.
            rw
              (
                get-set k key _ store.stream_versions,
                stream_length-append k store.events stored,
                stored_events-stream_length now random_uuid actual count input.aggregate_type
                    input.aggregate_id k 0 input.events h,
              )
              (ground (
                arith,
                text_beq_iff k key,
                v.counted k,
                v.counted key,
                length-stored_events now random_uuid actual count input.aggregate_type
                    input.aggregate_id 0 input.events,
              ));
        balanced =
            All-append (λ event. IsBalanced event.postings) store.events stored v.balanced
              (stored_events-IsBalanced now random_uuid actual count input.aggregate_type
                input.aggregate_id 0 input.events h);
      }

  -- Every successful `append` keeps the invariant: global positions 1, 2, 3, …; in each stream the
  -- versions 1, 2, 3, …, counted by the version map; and balanced postings in every event.
  pub append-IsValid :
      (result : List (DomainEvent P) × Store P)
      → IsValid store
      → append hash_payload now random_uuid input store ≡ ok result
      → IsValid result.1
  append-IsValid result v h =
      elim (append-eq-ok hash_payload now random_uuid input store result h) [
        | inl skipped ↦ rw skipped.1 v
        | inr (inl again) ↦ rw again.unchanged v
        | inr (inr new) ↦ rw new.result_eq (
            append_stored-IsValid v
              (check_events-All input.aggregate_type input.aggregate_id input.events new.checked))
      ]

-- The events of the store, in the order of their global positions, project to balances that sum to
-- zero; `IsValid` holds of the empty store.
pub empty_store-IsValid : {P : Type 0} → IsValid {P = P} empty_store
unfolding stream_length
empty_store-IsValid = record { numbered = tt; versioned = tt; counted = λ k. refl; balanced = tt }
