-- ===== src/EventStore/Streams.antt =====
-- Global positions and stream versions of a list of events
-- (apps/api/src/modules/ledger/event-store.ts).
use splitsaathi.Common.{
  All, List, [], append-nil, append_assoc, arith, if◌then◌else◌, inl, inr, length, ok, or_default,
  sym, ℕ, ◌++◌, ◌+◌, ◌∷◌, ◌≡◌,
}
use splitsaathi.Common.Keys.{Text, text_beq_iff, text_eq, ◌==◌}
use splitsaathi.Postings.Balanced.{IsBalanced, create_cases, create_iff}
use splitsaathi.Events.{DomainEvent, NewDomainEvent}
use splitsaathi.EventStore.{check_events, stream_key}

module _ {P : Type 0} where
  abbrev pub event_key : DomainEvent P → Text
  event_key event = stream_key event.aggregate_type event.aggregate_id

  -- How many of the events belong to the stream of key `k`.
  unfoldable pub stream_length : Text → List (DomainEvent P) → ℕ
  stream_length k [] = 0
  stream_length k (event ∷ events) =
      (if k == event_key event then 1 else 0) + stream_length k events

  -- The events have the global positions n + 1, n + 2, ….
  abbrev pub IsNumbered : ℕ → List (DomainEvent P) → Type 0
  IsNumbered n [] = Unit
  IsNumbered n (event ∷ events) = (event.global_position ≡ n + 1) × IsNumbered (n + 1) events

  -- Each event has the next version of its stream, where the events of `before` come first.
  abbrev pub IsVersioned : List (DomainEvent P) → List (DomainEvent P) → Type 0
  IsVersioned before [] = Unit
  IsVersioned before (event ∷ events) =
      (event.aggregate_version ≡ stream_length (event_key event) before + 1)
      × IsVersioned (before ++ event ∷ []) events

  pub stream_length-append :
      (k : Text) (xs ys : List (DomainEvent P))
      → stream_length k (xs ++ ys) ≡ stream_length k xs + stream_length k ys
  unfolding stream_length
  stream_length-append k [] ys = omega arith
  stream_length-append k (x ∷ xs) ys = omega (arith, stream_length-append k xs ys)

  pub IsNumbered-append :
      (n m : ℕ) (xs ys : List (DomainEvent P))
      → n + length xs ≡ m
      → IsNumbered n xs
      → IsNumbered m ys
      → IsNumbered n (xs ++ ys)
  IsNumbered-append n m [] ys e hx hy = let e' : m ≡ n = omega arith in rw (sym e') hy
  IsNumbered-append n m (x ∷ xs) ys e hx hy =
      (hx.0, IsNumbered-append (n + 1) m xs ys (omega arith) hx.1 hy)

  pub IsVersioned-append :
      (before xs ys : List (DomainEvent P))
      → IsVersioned before xs
      → IsVersioned (before ++ xs) ys
      → IsVersioned before (xs ++ ys)
  IsVersioned-append before [] ys hx hy = rw append-nil at hy
  IsVersioned-append before (x ∷ xs) ys hx hy = (
    hx.0,
    IsVersioned-append (before ++ x ∷ []) xs ys hx.1 (rw (append_assoc before (x ∷ []) xs) hy),
  )

-- What the check of a batch has established of an event.
pub record IsChecked {P : Type 0} (aggregate_type aggregate_id : Text) (event : NewDomainEvent P)
    : Type 0 where
  pub balanced : IsBalanced (or_default [] event.postings)
  pub same_type : event.aggregate_type ≡ aggregate_type
  pub same_id : event.aggregate_id ≡ aggregate_id

module _ {P : Type 0} (aggregate_type aggregate_id : Text) where
  pub check_events-All :
      (es : List (NewDomainEvent P))
      → check_events aggregate_type aggregate_id es ≡ ok tt
      → All (IsChecked aggregate_type aggregate_id) es
  unfolding check_events
  check_events-All [] h = tt
  check_events-All (e ∷ es) h = (
    record {
      balanced = elim (create_cases (or_default [] e.postings)) [
        | inl passed ↦ (create_iff (or_default [] e.postings)).0 passed
        | inr (why, failed) ↦ absurd (ground arith)
      ];
      same_type = ground (arith, text_beq_iff e.aggregate_type aggregate_type);
      same_id = ground (arith, text_beq_iff e.aggregate_id aggregate_id);
    },
    check_events-All es (ground arith),
  )
