-- ===== src/Ledger/Projecting.antt =====
-- The projection kept by `appendAndProject`, and the rebuild from the log
-- (apps/api/src/modules/ledger/ledger.service.ts).
use splitsaathi.Common.{
  >>=-eq-ok, List, [], ap, append-nil, arith, filter, inl, inr, length, ltb, ok, refl, sym, ℕ, ◌++◌,
  ◌∷◌, ◌≡◌,
}
use splitsaathi.Events.{AppendEventsInput, DomainEvent}
use splitsaathi.EventStore.Invariant.{IsValid, append-IsValid, stored_events-IsNumbered}
use splitsaathi.Ledger.{LedgerState, Projector, append_and_project, project, rebuild}
use splitsaathi.Common.Keys.{Text}
use splitsaathi.EventStore.{
  Hashed, Store, append, append_stored, get_last_global_position, last_position, stored_events,
}
use splitsaathi.EventStore.Appending.{actual_version, append-eq-ok}
use splitsaathi.EventStore.Streams.{IsNumbered}
use splitsaathi.Ledger.Positions.{
  filter_new, filter_old, last_position_lem, positions_bounded, recorded_bounded,
}

module _ {P : Type 0} (projector : Projector P) where
  -- The store is valid, and the projection is that of its whole log.
  pub record IsConsistent (ledger : LedgerState projector) : Type 0 where
    pub valid : IsValid ledger.store
    pub projected : ledger.projection ≡ rebuild projector ledger.store.events

  project-append :
      (state : projector.State) (xs ys : List (DomainEvent P))
      → project projector state (xs ++ ys) ≡ project projector (project projector state xs) ys
  unfolding project
  project-append state [] ys = refl
  project-append state (x ∷ xs) ys = project-append (projector.apply state x) xs ys

module _ {P Q : Type 0} (projector : Projector P) (hash_payload : Hashed P Q → Text) (now : Text)
    (random_uuid : ℕ → Text) (input : AppendEventsInput P Q) (ledger : LedgerState projector) where
  pub position_eq-length :
      IsValid ledger.store → get_last_global_position ledger.store ≡ length ledger.store.events
  unfolding get_last_global_position
  position_eq-length v = by_events ledger.store.events v.numbered
    where
      by_events :
          (events : List (DomainEvent P))
          → IsNumbered 0 events
          → last_position events ≡ length events
      by_events [] h = refl
      by_events (event ∷ events) h = omega (arith, last_position_lem 0 event events h)

  stored_new :
      IsValid ledger.store
      → let result =
          append_stored hash_payload now random_uuid input
            (actual_version input ledger.store)
            ledger.store in
        result.1.events
        ≡ ledger.store.events
          ++ filter (λ event. ltb (length ledger.store.events) event.global_position) result.0
  unfolding append_stored
  stored_new v =
      let actual = actual_version input ledger.store in
      let count = length ledger.store.events in
      let stored = stored_events now random_uuid actual count 0 input.events in
      ap (λ xs. ledger.store.events ++ xs)
        (sym (
          filter_new count count stored (omega arith) (
            stored_events-IsNumbered now random_uuid actual count input.aggregate_type
              input.aggregate_id 0 count input.events (omega arith))))

  -- What the events of a call add to the log is what is projected.
  pub new_events_lem :
      (result : List (DomainEvent P) × Store P)
      → IsValid ledger.store
      → append hash_payload now random_uuid input ledger.store ≡ ok result
      → result.1.events
        ≡ ledger.store.events
          ++ filter (λ event. ltb (length ledger.store.events) event.global_position) result.0
  new_events_lem result v h =
      let count = length ledger.store.events in
      let old = positions_bounded 0 count ledger.store.events (omega arith) v.numbered in
      elim (append-eq-ok hash_payload now random_uuid input ledger.store result h) [
        | inl (empty, skipped) ↦ rw skipped (sym (append-nil ledger.store.events))
        | inr (inl again) ↦
            rw
              (
                again.unchanged,
                filter_old count result.0 (
                    recorded_bounded count again.key ledger.store.events again.existing.event_ids
                      result.0 old again.recorded),
              )
              (sym (append-nil ledger.store.events))
        | inr (inr new) ↦ rw new.result_eq (stored_new v)
      ]

  -- After every successful `appendAndProject` the projection is the one that `rebuildProjections`
  -- computes from the whole log: new events are projected once, and those of a repeated call not
  -- again.
  pub append_and_project-IsConsistent :
      (events : List (DomainEvent P)) (after : LedgerState projector)
      → IsConsistent projector ledger
      → append_and_project projector hash_payload now random_uuid input ledger ≡ ok (events, after)
      → IsConsistent projector after
  unfolding append_and_project rebuild
  append_and_project-IsConsistent events after c h =
      let (result, appended, rest) =
        >>=-eq-ok (append hash_payload now random_uuid input ledger.store) _ h in
      let projected = project projector ledger.projection (
        filter (λ event. ltb (get_last_global_position ledger.store) event.global_position)
          result.0) in
      let same : record { store = result.1; projection = projected } ≡ after = cc rest in
      rw (sym same) (record {
        valid =
            append-IsValid hash_payload now random_uuid input ledger.store result c.valid appended;
        projected =
            rw (new_events_lem result c.valid appended, position_eq-length c.valid, c.projected)
              (sym (project-append projector projector.reset ledger.store.events _));
      })
