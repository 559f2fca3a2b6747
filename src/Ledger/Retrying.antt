-- ===== src/Ledger/Retrying.antt =====
-- Repeated calls of `appendAndProject` (apps/api/src/modules/ledger/ledger.service.ts).
use splitsaathi.Common.{
  >>=-eq-ok, List, [], ap, arith, false, filter, is_empty, length, length-append, ltb, ok, refl,
  some, subst, ℕ, ◌++◌, ◌∙◌, ◌∷◌, ◌≡◌,
}
use splitsaathi.Common.Keys.{Text}
use splitsaathi.Events.{AppendEventsInput, DomainEvent}
use splitsaathi.EventStore.{Hashed, append, get_last_global_position, truthy}
use splitsaathi.EventStore.Replay.{IsUnused}
use splitsaathi.EventStore.Retries.{Repeats, append_repeated}
use splitsaathi.Ledger.{LedgerState, Projector, append_and_project, project}
use splitsaathi.Ledger.Projecting.{IsConsistent, new_events_lem, position_eq-length}
use splitsaathi.EventStore.Invariant.{IsValid, append-IsValid}

nothing_left {ℓ} : {A : Type ℓ} (xs ys : List A) → xs ≡ xs ++ ys → ys ≡ []
nothing_left xs [] h = refl
nothing_left xs (y ∷ ys) h = absurd (omega (arith, ap length h, length-append xs (y ∷ ys)))

module _ {P Q : Type 0} (projector : Projector P) (hash_payload : Hashed P Q → Text)
    (first again : AppendEventsInput P Q) (repeats : Repeats hash_payload first again) where
  again_projects :
      (later : Text) (other_uuid : ℕ → Text) (ledger : LedgerState projector)
      (events : List (DomainEvent P))
      → IsValid ledger.store
      → append hash_payload later other_uuid again ledger.store ≡ ok (events, ledger.store)
      → append_and_project projector hash_payload later other_uuid again ledger
        ≡ ok (events, ledger)
  unfolding append_and_project project
  again_projects later other_uuid ledger events valid repeated =
      let nothing_new =
        nothing_left ledger.store.events
          (filter (λ event. ltb (length ledger.store.events) event.global_position) events)
          (new_events_lem projector hash_payload later other_uuid again ledger
            (events, ledger.store) valid repeated) in
      let last = position_eq-length projector hash_payload later other_uuid again ledger valid in
      rw repeated (
        ap
          (λ (n : ℕ). ok (
            events,
            record ledger {
              projection =
                  project projector ledger.projection
                    (filter (λ event. ltb n event.global_position) events);
            },
          ))
          last
        ∙ ap
            (λ new_events. ok (
              events,
              record ledger { projection = project projector ledger.projection new_events },
            ))
            nothing_new)

  -- What a repeated call returns is not projected again.
  pub append_and_project_repeated :
      (now : Text) (random_uuid : ℕ → Text) (ledger after : LedgerState projector)
      (events : List (DomainEvent P)) (key later : Text) (other_uuid : ℕ → Text)
      → IsConsistent projector ledger
      → is_empty first.events ≡ false
      → truthy first.idempotency_key ≡ some key
      → IsUnused random_uuid ledger.store.events
      → append_and_project projector hash_payload now random_uuid first ledger ≡ ok (events, after)
      → append_and_project projector hash_payload later other_uuid again after ≡ ok (events, after)
  unfolding append_and_project
  append_and_project_repeated now random_uuid ledger after events key later other_uuid consistent
        filled t fresh h =
      let (result, appended, rest) =
        >>=-eq-ok (append hash_payload now random_uuid first ledger.store) _ h in
      let reached : LedgerState projector = record {
        store = result.1;
        projection = project projector ledger.projection (
            filter (λ event. ltb (get_last_global_position ledger.store) event.global_position)
              result.0);
      } in
      let same : (result.0, reached) ≡ (events, after) = cc rest in
      let repeated =
        append_repeated hash_payload first again repeats now random_uuid ledger.store result key
          later other_uuid filled t fresh appended in
      subst
        (λ (pair : List (DomainEvent P) × LedgerState projector).
          append_and_project projector hash_payload later other_uuid again pair.1 ≡ ok pair)
        same
        (again_projects later other_uuid reached result.0
          (append-IsValid hash_payload now random_uuid first ledger.store result consistent.valid
            appended)
          repeated)
