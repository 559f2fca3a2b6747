-- ===== src/Ledger.antt =====
-- The ledger service and its projections: apps/api/src/modules/ledger/ledger.service.ts and
-- apps/api/src/modules/ledger/projection-runner.ts.
pub mod Positions
pub mod Projecting
pub mod Runs
pub mod Retrying
pub mod Samples
mod Tests
use splitsaathi.Common.{
  List, Option, Result, [], err, filter, if◌then◌else◌, ltb, map_ok, none, not, ok, some, ℕ, ◌>>=◌,
  ◌>>◌, ◌∷◌,
}
use splitsaathi.Common.Keys.{Text, text_eq, ◌==◌}
use splitsaathi.Events.{AppendEventsInput, DomainEvent}
use splitsaathi.EventStore.{
  Hashed, Store, StoreError, any_event, append, get_idempotency_record, get_last_global_position,
  given_payload, idempotency_conflict, recorded_events, replay,
}

-- A `Projector`: its state, `apply` and `reset`. Several projectors that do not throw are one with the
-- product of their states.
pub record Projector (P : Type 0) : Type 1 where
  pub State : Type 0
  pub apply : State → DomainEvent P → State
  pub reset : State

module _ {P : Type 0} (projector : Projector P) where
  -- `ProjectionRunner.apply`.
  unfoldable pub project : projector.State → List (DomainEvent P) → projector.State
  project state [] = state
  project state (event ∷ events) = project (projector.apply state event) events

  -- `ProjectionRunner.rebuild`.
  unfoldable pub rebuild : List (DomainEvent P) → projector.State
  unfolding project
  rebuild events = project projector.reset events

  -- The event store and the state of the projector.
  pub record LedgerState : Type 0 where
    pub store : Store P
    pub projection : projector.State

module _ {P Q : Type 0} (projector : Projector P) (hash_payload : Hashed P Q → Text) where
  -- `appendAndProject` behind its first line, for the position that this has read.
  abbrev pub append_and_project_at :
      ℕ
      → Text
      → (ℕ → Text)
      → AppendEventsInput P Q
      → LedgerState projector
      → Result StoreError (List (DomainEvent P) × LedgerState projector)
  append_and_project_at before_last_position now random_uuid input ledger = do
    (events, store) ← append hash_payload now random_uuid input ledger.store
    let new_events = filter (λ event. ltb before_last_position event.global_position) events
    ok (
      events,
      record { store = store; projection = project projector ledger.projection new_events },
    )

  -- `appendAndProject`, as one step.
  unfoldable pub append_and_project :
      Text
      → (ℕ → Text)
      → AppendEventsInput P Q
      → LedgerState projector
      → Result StoreError (List (DomainEvent P) × LedgerState projector)
  append_and_project now random_uuid input ledger =
      append_and_project_at (get_last_global_position ledger.store) now random_uuid input ledger

module _ {P Q : Type 0} (hash_payload : Hashed P Q → Text) where
  -- `resolveIdempotency`: the events of an earlier call with the key, if there was one.
  unfoldable pub resolve_idempotency :
      Text → Text → Text → Q → Store P → Result StoreError (Option (List (DomainEvent P)))
  resolve_idempotency aggregate_type actor_id key payload store =
      elim (get_idempotency_record key aggregate_type actor_id store) [
        | none ↦ ok none
        | some earlier ↦
            if not (earlier.payload_hash == hash_payload (given_payload payload))
            then err (idempotency_conflict key)
            else map_ok (λ found. some found)
                (recorded_events key (replay any_event store) earlier.event_ids)
      ]

-- `rebuildProjections`, and `onModuleInit`, which calls it when the store is not empty.
unfoldable pub rebuild_projections :
    {P : Type 0} (projector : Projector P) → LedgerState projector → LedgerState projector
unfolding rebuild
rebuild_projections projector ledger = record ledger {
  projection = rebuild projector (replay any_event ledger.store);
}

unfoldable pub on_module_init :
    {P : Type 0} (projector : Projector P) → LedgerState projector → LedgerState projector
unfolding rebuild_projections
on_module_init projector ledger =
    if ltb 0 (get_last_global_position ledger.store)
    then rebuild_projections projector ledger
    else ledger
