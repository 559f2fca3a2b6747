-- ===== src/Common/Sort.antt =====
-- `xs.sort(compare)`: the stable sort of the language, as an insertion sort. `le x y` stands for
-- `compare(x, y) <= 0`.
use Prim.Native.Nat.{suc}
use mathlib.Core.Path.{◌≡◌, ap, refl, ◌∙◌}
use mathlib.Core.Bool.{Bool}
use mathlib.Core.Logic.{inl, inr}
use mathlib.Core.List.{List, [], ◌∷◌}
use splitsaathi.Common.Tests.{Bool-cases, if◌then◌else◌}
use splitsaathi.Common.Lists.{All, length}
use splitsaathi.Common.Int.{int_laws, sum_by, ℤ, ◌+ℤ◌}

module _ {ℓ} {A : Type ℓ} (le : A → A → Bool) where
  unfoldable pub insert_sorted : A → List A → List A
  insert_sorted x [] = x ∷ []
  insert_sorted x (y ∷ ys) = if le x y then x ∷ y ∷ ys else y ∷ insert_sorted x ys

  unfoldable pub sort : List A → List A
  unfolding insert_sorted
  sort [] = []
  sort (x ∷ xs) = insert_sorted x (sort xs)

  insert_sorted-sum :
      (f : A → ℤ) (x : A) (ys : List A) → sum_by f (insert_sorted x ys) ≡ f x +ℤ sum_by f ys
  unfolding insert_sorted
  insert_sorted-sum f x [] = refl
  insert_sorted-sum f x (y ∷ ys) = elim (Bool-cases (le x y)) [
    | inl first ↦ rw first refl
    | inr later ↦ rw (later, insert_sorted-sum f x ys) (omega int_laws)
  ]

  -- Sorting keeps every sum over the list.
  pub sort-sum : (f : A → ℤ) (xs : List A) → sum_by f (sort xs) ≡ sum_by f xs
  unfolding sort
  sort-sum f [] = refl
  sort-sum f (x ∷ xs) = rw (insert_sorted-sum f x (sort xs), sort-sum f xs) refl

  pub insert_sorted-All {μ} :
      (P : A → Type μ) (x : A) (ys : List A) → P x → All P ys → All P (insert_sorted x ys)
  unfolding insert_sorted
  insert_sorted-All P x [] p h = (p, tt)
  insert_sorted-All P x (y ∷ ys) p h = elim (Bool-cases (le x y)) [
    | inl first ↦ rw first (p, h)
    | inr later ↦ rw later (h.0, insert_sorted-All P x ys p h.1)
  ]

  -- Sorting keeps what holds of every element.
  pub sort-All {μ} : (P : A → Type μ) (xs : List A) → All P xs → All P (sort xs)
  unfolding sort
  sort-All P [] h = tt
  sort-All P (x ∷ xs) h = insert_sorted-All P x (sort xs) h.0 (sort-All P xs h.1)

  insert_sorted-length : (x : A) (ys : List A) → length (insert_sorted x ys) ≡ suc (length ys)
  unfolding insert_sorted
  insert_sorted-length x [] = refl
  insert_sorted-length x (y ∷ ys) = elim (Bool-cases (le x y)) [
    | inl first ↦ rw first refl
    | inr later ↦ rw (later, insert_sorted-length x ys) refl
  ]

  pub sort-length : (xs : List A) → length (sort xs) ≡ length xs
  unfolding sort
  sort-length [] = refl
  sort-length (x ∷ xs) = insert_sorted-length x (sort xs) ∙ ap suc (sort-length xs)
