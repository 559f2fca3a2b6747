-- ===== src/Ledger/Positions.antt =====
-- Which events `appendAndProject` projects (apps/api/src/modules/ledger/ledger.service.ts).
use splitsaathi.Common.{
  >>=-eq-ok, All, Bool-cases, List, [], arith, filter, inl, inr, length, ltb, ok, refl, sym, ℕ, ◌+◌,
  ◌∷◌, ◌≡◌, ◌≤◌,
}
use splitsaathi.Common.Keys.{Text, text_eq, ◌==◌}
use splitsaathi.Events.{DomainEvent}
use splitsaathi.EventStore.{find_event, last_position, recorded_events}
use splitsaathi.EventStore.Streams.{IsNumbered}

module _ {P : Type 0} where
  pub last_position_lem :
      (n : ℕ) (event : DomainEvent P) (events : List (DomainEvent P))
      → IsNumbered n (event ∷ events)
      → last_position (event ∷ events) ≡ n + length (event ∷ events)
  unfolding last_position
  last_position_lem n event [] h = omega (arith, h.0)
  last_position_lem n event (next ∷ events) h =
      omega (arith, last_position_lem (n + 1) next events h.1)

  -- Numbered events have positions up to their number.
  pub positions_bounded :
      (n m : ℕ) (events : List (DomainEvent P))
      → n + length events ≡ m
      → IsNumbered n events
      → All (λ event. event.global_position ≤ m) events
  positions_bounded n m [] e h = tt
  positions_bounded n m (event ∷ events) e h =
      (omega (arith, h.0), positions_bounded (n + 1) m events (omega arith) h.1)

  -- None of them is new.
  pub filter_old :
      (n : ℕ) (events : List (DomainEvent P))
      → All (λ event. event.global_position ≤ n) events
      → filter (λ event. ltb n event.global_position) events ≡ []
  filter_old n [] h = refl
  filter_old n (event ∷ events) h = ground (arith, h.0, filter_old n events h.1)

  -- Events numbered from n on are all new.
  pub filter_new :
      (n m : ℕ) (events : List (DomainEvent P))
      → n ≤ m
      → IsNumbered m events
      → filter (λ event. ltb n event.global_position) events ≡ events
  filter_new n m [] le h = refl
  filter_new n m (event ∷ events) le h =
      ground (arith, h.0, filter_new n (m + 1) events (omega arith) h.1)

  find_event_bounded :
      (n : ℕ) (key id : Text) (events : List (DomainEvent P)) (found : DomainEvent P)
      → All (λ event. event.global_position ≤ n) events
      → find_event key events id ≡ ok found
      → found.global_position ≤ n
  unfolding find_event
  find_event_bounded n key id [] found h e = cc
  find_event_bounded n key id (event ∷ events) found h e =
      elim (Bool-cases (event.event_id == id)) [
        | inl same ↦ let here : event ≡ found = cc (rw (same, find_event) at e) in rw (sym here) h.0
        | inr other ↦ find_event_bounded n key id events found h.1 (rw (other, find_event) at e)
      ]

  -- The events that a record names are old ones.
  pub recorded_bounded :
      (n : ℕ) (key : Text) (events : List (DomainEvent P)) (ids : List Text)
      (found : List (DomainEvent P))
      → All (λ event. event.global_position ≤ n) events
      → recorded_events key events ids ≡ ok found
      → All (λ event. event.global_position ≤ n) found
  unfolding recorded_events
  recorded_bounded n key events [] found h e =
      let none_left : [] ≡ found = cc in rw (sym none_left) tt
  recorded_bounded n key events (id ∷ ids) found h e =
      let (first, found_first, rest_ok) = >>=-eq-ok (find_event key events id) _ e in
      let (rest, found_rest, all_ok) = >>=-eq-ok (recorded_events key events ids) _ rest_ok in
      let split : first ∷ rest ≡ found = cc all_ok in
      rw (sym split) (
        find_event_bounded n key id events first h found_first,
        recorded_bounded n key events ids rest h found_rest,
      )
