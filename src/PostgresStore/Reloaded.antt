-- ===== src/PostgresStore/Reloaded.antt =====
-- Rows that are read again by their ids
-- (apps/api/src/modules/ledger/postgres-event-store.ts, lines 264-285 and 323-345).
use splitsaathi.Common.{
  All, Bool, Bool-cases, List, [], ap, false, filter, find, inl, inr, map, none, refl, some, subst,
  true, ◌++◌, ◌||◌, ◌∷◌, ◌≡◌,
}
use splitsaathi.Common.Keys.{Text, text_beq_iff, text_eq, ◌==◌}
use splitsaathi.Events.{DomainEvent}
use splitsaathi.PostgresStore.{EventRow, PostingRow, is_in, with_postings}
use splitsaathi.PostgresStore.Inserted.{Bool-eq}

-- An event without its postings, whose order is the database's.
abbrev pub without_postings : {P : Type 0} → DomainEvent P → DomainEvent P
without_postings event = record event { postings = [] }

or_later : (a b : Bool) → b ≡ true → (a || b) ≡ true
or_later true b h = refl
or_later false b h = h

All-impl :
    {A : Type 0} {F G : A → Type 0} → ((a : A) → F a → G a) → (xs : List A) → All F xs → All G xs
All-impl f [] h = tt
All-impl f (x ∷ xs) h = (f x h.0, All-impl f xs h.1)

filter-same :
    {A : Type 0} (p q : A → Bool) (xs : List A)
    → All (λ x. p x ≡ q x) xs
    → filter p xs ≡ filter q xs
filter-same p q [] same = refl
filter-same p q (x ∷ xs) same = elim (Bool-cases (q x)) [
  | inl is ↦ rw (same.0, is) (ap (λ rest. x ∷ rest) (filter-same p q xs same.1))
  | inr isnt ↦ rw (same.0, isnt) (filter-same p q xs same.1)
]

pub find-last :
    {A : Type 0} (p : A → Bool) (xs : List A) (x : A)
    → find p xs ≡ none
    → p x ≡ true
    → find p (xs ++ x ∷ []) ≡ some x
find-last p [] x nowhere is = rw is refl
find-last p (y ∷ xs) x nowhere is = elim (Bool-cases (p y)) [
  | inl here ↦ cc (rw here at nowhere)
  | inr other ↦ rw other (find-last p xs x (rw other at nowhere) is)
]

module _ {P : Type 0} where
  pub with_postings-without :
      (some_rows other_rows : List PostingRow) (rows : List (EventRow P))
      → map without_postings (map (with_postings some_rows) rows)
        ≡ map without_postings (map (with_postings other_rows) rows)
  with_postings-without some_rows other_rows [] = refl
  with_postings-without some_rows other_rows (row ∷ rows) =
      ap (λ rest. without_postings (with_postings some_rows row) ∷ rest)
        (with_postings-without some_rows other_rows rows)

  module _ (ids : List Text) where
    abbrev pub chosen : List (EventRow P) → List (EventRow P)
    chosen rows = filter (λ row. is_in ids row.id) rows

    abbrev pub chosen_ids : List (EventRow P) → List Text
    chosen_ids rows = map (λ row. row.id) (chosen rows)

    chosen_ids_sound :
        (rows : List (EventRow P)) (id : Text)
        → is_in (chosen_ids rows) id ≡ true
        → is_in ids id ≡ true
    chosen_ids_sound [] id found = cc
    chosen_ids_sound (row ∷ rows) id found = elim (Bool-cases (is_in ids row.id)) [
      | inr isnt ↦ chosen_ids_sound rows id (rw isnt at found)
      | inl is ↦ elim (Bool-cases (row.id == id)) [
        | inl same ↦ subst (λ k. is_in ids k ≡ true) ((text_beq_iff row.id id).0 same) is
        | inr other ↦ chosen_ids_sound rows id (rw (is, other) at found)
      ]
    ]

    more_ids :
        (row : EventRow P) (rows : List (EventRow P)) (id : Text)
        → is_in (chosen_ids rows) id ≡ true
        → is_in (chosen_ids (row ∷ rows)) id ≡ true
    more_ids row rows id found = elim (Bool-cases (is_in ids row.id)) [
      | inl is ↦ rw is (or_later (row.id == id) (is_in (chosen_ids rows) id) found)
      | inr isnt ↦ rw isnt found
    ]

    chosen_ids_complete :
        (rows : List (EventRow P))
        → All (λ row. is_in ids row.id ≡ true → is_in (chosen_ids rows) row.id ≡ true) rows
    chosen_ids_complete [] = tt
    chosen_ids_complete (row ∷ rows) = (
      λ is. rw is (rw ((text_beq_iff row.id row.id).1 refl) refl),
      All-impl (λ other found is. more_ids row rows other.id (found is)) rows
          (chosen_ids_complete rows),
    )

    -- The rows of the ids of the chosen rows are the chosen rows.
    pub chosen_again :
        (rows : List (EventRow P))
        → filter (λ row. is_in (chosen_ids rows) row.id) rows ≡ chosen rows
    chosen_again rows =
        filter-same (λ row. is_in (chosen_ids rows) row.id) (λ row. is_in ids row.id) rows
          (All-impl
            (λ row complete.
              Bool-eq (is_in (chosen_ids rows) row.id) (is_in ids row.id)
                (chosen_ids_sound rows row.id) complete)
            rows (chosen_ids_complete rows))
