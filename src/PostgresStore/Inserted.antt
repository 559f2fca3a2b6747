-- ===== src/PostgresStore/Inserted.antt =====
-- The rows that a call inserts: their aggregates, and their chain of hashes
-- (apps/api/src/modules/ledger/postgres-event-store.ts, lines 207-242).
use splitsaathi.Common.{
  All, Bool, Bool-cases, List, Option, [], any, ap, append-nil, append_assoc, arith, false, inl,
  inr, nat_beq, none, ok, ok-injective, refl, some, subst, sym, true, ℕ, ◌&&◌, ◌++◌, ◌+◌, ◌∙◌, ◌∷◌,
  ◌≡◌,
}
use splitsaathi.Common.Keys.{Text, text_beq_iff, text_eq, ◌==◌}
use splitsaathi.Balances.Keys.{IsPlain, plain_prefix}
use splitsaathi.Events.{NewDomainEvent}
use splitsaathi.EventStore.{stream_key}
use splitsaathi.EventStore.Streams.{IsChecked}
use splitsaathi.PostgresStore.{EventContent, EventRow, Tables}
use splitsaathi.PostgresStore.Appending.{new_rows, save_rows}
use splitsaathi.PostgresStore.Chain.{IsChain}

-- The row has the stream of its aggregate, whose type has no colon.
abbrev pub IsOwn : {P : Type 0} → EventRow P → Type 0
IsOwn row =
    (row.stream_id ≡ stream_key row.aggregate_type row.aggregate_id) × IsPlain row.aggregate_type

-- The rows come from the entered events, and those of every stream are a chain of hashes from its first
-- version on.
abbrev pub IsChained :
    {P : Type 0} → (EventContent P → Text) → Tables P → List (NewDomainEvent P) → Type 0
IsChained hash_event tables entered =
    ((s : Text) → IsChain hash_event s 0 none tables.event_rows entered)
    × All IsOwn tables.event_rows

pub Bool-eq : (a b : Bool) → (a ≡ true → b ≡ true) → (b ≡ true → a ≡ true) → a ≡ b
Bool-eq true true f g = refl
Bool-eq true false f g = sym (f refl)
Bool-eq false true f g = g refl
Bool-eq false false f g = refl

-- The key of a stream names its aggregate, when the types have no colon.
key_same :
    (t u a b : Text)
    → IsPlain t
    → IsPlain u
    → (t == u && a == b) ≡ (stream_key t a == stream_key u b)
unfolding stream_key
key_same t u a b pt pu =
    Bool-eq (t == u && a == b) (stream_key t a == stream_key u b)
      (λ both.
        let types : t ≡ u = ground (arith, text_beq_iff t u) in
        let ids : a ≡ b = ground (arith, text_beq_iff a b) in
        (text_beq_iff (stream_key t a) (stream_key u b)).1
          (ap (λ x. stream_key x a) types ∙ ap (λ x. stream_key u x) ids))
      (λ keys.
        let (types, ids) =
          plain_prefix t u a b pt pu ((text_beq_iff (stream_key t a) (stream_key u b)).0 keys) in
        let same_type = (text_beq_iff t u).1 types in
        let same_id = (text_beq_iff a b).1 ids in rw (same_type, same_id) refl)

module _ {P : Type 0} where
  pub own_same :
      (t a : Text) (rows : List (EventRow P))
      → IsPlain t
      → All IsOwn rows
      → All
          (λ row.
            (row.aggregate_type == t && row.aggregate_id == a) ≡ (row.stream_id == stream_key t a))
          rows
  own_same t a [] plain own = tt
  own_same t a (row ∷ rows) plain own = (
    subst (λ k. (row.aggregate_type == t && row.aggregate_id == a) ≡ (k == stream_key t a))
        (sym own.0.0) (key_same row.aggregate_type t row.aggregate_id a own.0.1 plain),
    own_same t a rows plain own.1,
  )

  pub save_rows-append :
      (rows more saved : List (EventRow P)) → save_rows rows more ≡ ok saved → rows ++ more ≡ saved
  unfolding save_rows
  save_rows-append rows [] saved h = append-nil rows ∙ ok-injective h
  save_rows-append rows (row ∷ more) saved h =
      elim (Bool-cases (
        any (λ other. other.stream_id == row.stream_id && nat_beq other.version row.version)
          rows)) [
            | inl twice ↦ cc (rw twice at h)
            | inr new ↦
                sym (append_assoc rows (row ∷ []) more)
                ∙ save_rows-append (rows ++ row ∷ []) more saved (rw new at h)
          ]

  module _ (hash_event : EventContent P → Text) (now : Text) (random_uuid : ℕ → Text)
      (key : Option Text) (actual_version position : ℕ) (s : Text) where
    abbrev rows_from : ℕ → Option Text → List (NewDomainEvent P) → List (EventRow P)
    rows_from index previous events =
        new_rows hash_event now random_uuid key actual_version position s index previous events

    pub new_rows-IsChain :
        (n index : ℕ) (previous : Option Text) (events : List (NewDomainEvent P))
        → n ≡ actual_version + index
        → IsChain hash_event s n previous (rows_from index previous events) events
    unfolding new_rows
    new_rows-IsChain n index previous [] at_n = tt
    new_rows-IsChain n index previous (event ∷ events) at_n =
        let itself : (s == s) ≡ true = (text_beq_iff s s).1 refl in
        rw itself (
          omega (arith, at_n),
          refl,
          (refl, refl, refl),
          new_rows-IsChain (n + 1) (index + 1) (some _) events (omega (arith, at_n)),
        )

    pub new_rows-other :
        (other : Text) (n index : ℕ) (previous before : Option Text)
        (events : List (NewDomainEvent P))
        → (s == other) ≡ false
        → IsChain hash_event other n before (rows_from index previous events) events
    unfolding new_rows
    new_rows-other other n index previous before [] differs_from = tt
    new_rows-other other n index previous before (event ∷ events) differs_from =
        rw differs_from (new_rows-other other n (index + 1) (some _) before events differs_from)

    pub new_rows-IsOwn :
        (t a : Text) (index : ℕ) (previous : Option Text) (events : List (NewDomainEvent P))
        → s ≡ stream_key t a
        → IsPlain t
        → All (IsChecked t a) events
        → All IsOwn (rows_from index previous events)
    unfolding new_rows
    new_rows-IsOwn t a index previous [] is plain checks = tt
    new_rows-IsOwn t a index previous (event ∷ events) is plain checks =
        let same_type = IsChecked.same_type checks.0 in
        let same_id = IsChecked.same_id checks.0 in
        (
          (
            is
                ∙ ap (λ x. stream_key x a) (sym same_type)
                ∙ ap (λ x. stream_key event.aggregate_type x) (sym same_id),
            subst IsPlain (sym same_type) plain,
          ),
          new_rows-IsOwn t a (index + 1) (some _) events is plain checks.1,
        )
