-- ===== src/Rounding/Distinct.antt =====
-- Lists whose ids are distinct, and sums over them.
use splitsaathi.Common.{All, Bool, Bool-cases, List, [], inl, inr, sym, ◌∷◌, ◌≢◌}
use splitsaathi.Common.Keys.{Text}
use splitsaathi.Common.Sort.{insert_sorted, insert_sorted-All, sort, sort-All}

module _ {ℓ} {A : Type ℓ} (id : A → Text) where
  -- The id stands at none of the elements.
  abbrev pub IsAbsent : Text → List A → Type 0
  IsAbsent i xs = All (λ x. id x ≢ i) xs

  abbrev pub IsDistinct : List A → Type 0
  IsDistinct [] = Unit
  IsDistinct (x ∷ xs) = IsAbsent (id x) xs × IsDistinct xs

  insert_sorted-IsDistinct :
      (le : A → A → Bool) (x : A) (xs : List A)
      → IsAbsent (id x) xs
      → IsDistinct xs
      → IsDistinct (insert_sorted le x xs)
  unfolding insert_sorted
  insert_sorted-IsDistinct le x [] a h = (tt, tt)
  insert_sorted-IsDistinct le x (y ∷ ys) a h = elim (Bool-cases (le x y)) [
    | inl first ↦ rw first (a, h)
    | inr later ↦ rw later (
      insert_sorted-All le (λ z. id z ≢ id y) x ys (λ e. a.0 (sym e)) h.0,
      insert_sorted-IsDistinct le x ys a.1 h.1,
    )
  ]

  -- Sorting keeps the ids distinct.
  pub sort-IsDistinct : (le : A → A → Bool) (xs : List A) → IsDistinct xs → IsDistinct (sort le xs)
  unfolding sort
  sort-IsDistinct le [] h = tt
  sort-IsDistinct le (x ∷ xs) h =
      insert_sorted-IsDistinct le x (sort le xs) (sort-All le (λ z. id z ≢ id x) xs h.0)
        (sort-IsDistinct le xs h.1)
