-- ===== src/PostgresStore/Chain.antt =====
-- Chains of hashes over the rows of a stream
-- (apps/api/src/modules/ledger/postgres-event-store.ts, lines 207-242).
use splitsaathi.Common.{
  All, Bool-cases, List, Option, [], arith, false, if◌then◌else◌, inl, inr, ltb, none, or_default,
  refl, some, sym, ℕ, ◌&&◌, ◌++◌, ◌+◌, ◌∙◌, ◌∷◌, ◌≡◌, ◌≤◌, ◌⊎◌,
}
use splitsaathi.Common.Keys.{Text, text_eq, ◌==◌}
use splitsaathi.Postings.{LedgerPosting}
use splitsaathi.PostgresStore.{
  EventContent, EventRow, Tables, get_latest_event_hash, later_row, latest_row, max_version,
}
use splitsaathi.Events.{NewDomainEvent}

-- The content of a row, for the postings of its event.
abbrev pub row_content : {P : Type 0} → EventRow P → List LedgerPosting → EventContent P
row_content row postings = record {
  id = row.id;
  stream_id = row.stream_id;
  type = row.event_type;
  aggregate_version = row.version;
  previous_hash = row.previous_hash;
  payload = row.payload;
  postings = postings;
}

module _ {P : Type 0} (hash_event : EventContent P → Text) (s : Text) where
  -- The rows come from the events, one for one. Those of the stream have the versions n + 1, n + 2, …;
  -- each refers to the hash of the one before it, and its own hash is that of its content with the
  -- postings of its event.
  abbrev pub IsChain : ℕ → Option Text → List (EventRow P) → List (NewDomainEvent P) → Type 0
  IsChain n previous [] [] = Unit
  IsChain n previous [] (event ∷ entered) = ⊥
  IsChain n previous (row ∷ rows) [] = ⊥
  IsChain n previous (row ∷ rows) (event ∷ entered) =
      let linked =
        (row.version ≡ n + 1)
        × (row.previous_hash ≡ previous)
        × ((row.event_type ≡ event.type)
            × (row.payload ≡ event.payload)
            × (row.event_hash ≡ hash_event (row_content row (or_default [] event.postings))))
        × IsChain (n + 1) (some row.event_hash) rows entered in
      let skipped = IsChain n previous rows entered in
      if row.stream_id == s then linked else skipped

  -- The number of rows of the stream, after n, and the last hash.
  unfoldable pub chain_length : ℕ → List (EventRow P) → ℕ
  chain_length n [] = n
  chain_length n (row ∷ rows) =
      if row.stream_id == s then chain_length (n + 1) rows else chain_length n rows

  unfoldable pub chain_end : Option Text → List (EventRow P) → Option Text
  chain_end previous [] = previous
  chain_end previous (row ∷ rows) =
      if row.stream_id == s then chain_end (some row.event_hash) rows else chain_end previous rows

  pub IsChain-append :
      (n : ℕ) (previous : Option Text) (rows more : List (EventRow P))
      (entered new_events : List (NewDomainEvent P))
      → IsChain n previous rows entered
      → IsChain (chain_length n rows) (chain_end previous rows) more new_events
      → IsChain n previous (rows ++ more) (entered ++ new_events)
  unfolding chain_length chain_end
  IsChain-append n previous [] more [] new_events chain new = new
  IsChain-append n previous [] more (event ∷ entered) new_events chain new = absurd chain
  IsChain-append n previous (row ∷ rows) more [] new_events chain new = absurd chain
  IsChain-append n previous (row ∷ rows) more (event ∷ entered) new_events chain new =
      elim (Bool-cases (row.stream_id == s)) [
        | inl is ↦
            let (versioned, linked, hashed_by, rest) = rw is at chain in
            let new' = rw is at new in
            rw is (
              versioned,
              linked,
              hashed_by,
              IsChain-append (n + 1) (some row.event_hash) rows more entered new_events rest new',
            )
        | inr isnt ↦ rw isnt (
            IsChain-append n previous rows more entered new_events (rw isnt at chain)
              (rw isnt at new))
      ]

  -- The row that is found is the last one of the stream, or there is none.
  abbrev IsLatest : ℕ → Option Text → List (EventRow P) → Option (EventRow P) → Type 0
  IsLatest n previous rows none = (chain_length n rows ≡ n) × (chain_end previous rows ≡ previous)
  IsLatest n previous rows (some row) =
      (row.version ≡ chain_length n rows)
      × (chain_end previous rows ≡ some row.event_hash)
      × (n + 1 ≤ row.version)

  later_row-IsLatest :
      (n : ℕ) (row : EventRow P) (rows : List (EventRow P)) (rest : Option (EventRow P))
      → row.version ≡ n + 1
      → IsLatest (n + 1) (some row.event_hash) rows rest
      → (later : EventRow P) × (later_row row rest ≡ later)
        × (later.version ≡ chain_length (n + 1) rows)
        × (chain_end (some row.event_hash) rows ≡ some later.event_hash)
        × (n + 1 ≤ later.version)
  later_row-IsLatest n row rows none versioned latest =
      (row, refl, versioned ∙ sym latest.0, latest.1, omega (arith, versioned))
  later_row-IsLatest n row rows (some other) versioned latest =
      let behind : ltb other.version row.version ≡ false = ground (arith, latest.2, versioned) in
      (other, rw behind refl, latest.0, latest.1, omega (arith, latest.2))

  IsLatest-past :
      (n : ℕ) (previous : Option Text) (row : EventRow P) (rows : List (EventRow P))
      (latest : Option (EventRow P))
      → (row.stream_id == s) ≡ false
      → IsLatest n previous rows latest
      → IsLatest n previous (row ∷ rows) latest
  unfolding chain_length chain_end
  IsLatest-past n previous row rows none isnt facts = rw isnt facts
  IsLatest-past n previous row rows (some latest) isnt facts = rw isnt facts

  latest_row-IsLatest :
      (n : ℕ) (previous : Option Text) (rows : List (EventRow P))
      (entered : List (NewDomainEvent P))
      → IsChain n previous rows entered
      → IsLatest n previous rows (latest_row s rows)
  unfolding latest_row chain_length chain_end
  latest_row-IsLatest n previous [] entered chain = (refl, refl)
  latest_row-IsLatest n previous (row ∷ rows) [] chain = absurd chain
  latest_row-IsLatest n previous (row ∷ rows) (event ∷ entered) chain =
      elim (Bool-cases (row.stream_id == s)) [
        | inl is ↦
            let (versioned, linked, hashed_by, rest) = rw is at chain in
            let (later, found, version_is, end_is, after_n) =
              later_row-IsLatest n row rows (latest_row s rows) versioned
                (latest_row-IsLatest (n + 1) (some row.event_hash) rows entered rest) in
            rw (is, found) (rw is (version_is, end_is, after_n))
        | inr isnt ↦ rw isnt (
            IsLatest-past n previous row rows (latest_row s rows) isnt
              (latest_row-IsLatest n previous rows entered (rw isnt at chain)))
      ]

  -- The greatest version of an aggregate is the length of the stream, when the aggregate's rows are those
  -- of the stream.
  abbrev IsGreatest : ℕ → List (EventRow P) → ℕ → Type 0
  IsGreatest n rows greatest =
      ((greatest ≡ chain_length n rows) × (n + 1 ≤ greatest))
      ⊎ ((greatest ≡ 0) × (chain_length n rows ≡ n))

  first_greatest :
      (n v : ℕ) (rows : List (EventRow P)) (greatest : ℕ)
      → v ≡ n + 1
      → IsGreatest (n + 1) rows greatest
      → (((if ltb greatest v then v else greatest) ≡ chain_length (n + 1) rows)
          × (n + 1 ≤ (if ltb greatest v then v else greatest)))
        ⊎ (((if ltb greatest v then v else greatest) ≡ 0) × (chain_length (n + 1) rows ≡ n))
  first_greatest n v rows greatest versioned later = ground arith

  max_version-IsGreatest :
      (aggregate_type aggregate_id : Text) (n : ℕ) (previous : Option Text)
      (rows : List (EventRow P)) (entered : List (NewDomainEvent P))
      → All
          (λ row.
            (row.aggregate_type == aggregate_type && row.aggregate_id == aggregate_id)
            ≡ (row.stream_id == s))
          rows
      → IsChain n previous rows entered
      → IsGreatest n rows (max_version aggregate_type aggregate_id rows)
  unfolding max_version chain_length
  max_version-IsGreatest aggregate_type aggregate_id n previous [] entered same chain =
      inr (refl, refl)
  max_version-IsGreatest aggregate_type aggregate_id n previous (row ∷ rows) [] same chain =
      absurd chain
  max_version-IsGreatest aggregate_type aggregate_id n previous (row ∷ rows) (event ∷ entered) same
        chain =
      elim (Bool-cases (row.stream_id == s)) [
        | inl is ↦
            let (versioned, linked, hashed_by, rest) = rw is at chain in
            let later =
              max_version-IsGreatest aggregate_type aggregate_id (n + 1) (some row.event_hash) rows
                entered same.1 rest in
            rw (same.0, is) (first_greatest n row.version rows _ versioned later)
        | inr isnt ↦
            rw (same.0, isnt)
              (max_version-IsGreatest aggregate_type aggregate_id n previous rows entered same.1
                (rw isnt at chain))
      ]

  pub max_version-eq-length :
      (aggregate_type aggregate_id : Text) (rows : List (EventRow P))
      (entered : List (NewDomainEvent P))
      → All
          (λ row.
            (row.aggregate_type == aggregate_type && row.aggregate_id == aggregate_id)
            ≡ (row.stream_id == s))
          rows
      → IsChain 0 none rows entered
      → max_version aggregate_type aggregate_id rows ≡ chain_length 0 rows
  max_version-eq-length aggregate_type aggregate_id rows entered same chain =
      elim (max_version-IsGreatest aggregate_type aggregate_id 0 none rows entered same chain) [
        | inl (is, after) ↦ is
        | inr (zero_is, empty) ↦ zero_is ∙ sym empty
      ]

  found_hash :
      (rows : List (EventRow P)) (latest : Option (EventRow P))
      → IsLatest 0 none rows latest
      → elim latest [ none ↦ none | some row ↦ some row.event_hash ] ≡ chain_end none rows
  found_hash rows none is_latest = sym is_latest.1
  found_hash rows (some row) is_latest = sym is_latest.1

  pub get_latest_event_hash-eq-end :
      (tables : Tables P) (entered : List (NewDomainEvent P))
      → IsChain 0 none tables.event_rows entered
      → get_latest_event_hash s tables ≡ chain_end none tables.event_rows
  unfolding get_latest_event_hash
  get_latest_event_hash-eq-end tables entered chain =
      found_hash tables.event_rows (latest_row s tables.event_rows)
        (latest_row-IsLatest 0 none tables.event_rows entered chain)
