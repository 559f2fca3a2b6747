-- ===== src/Splits/Exactness.antt =====
-- The exact strategy and the sum of the given amounts (packages/domain/src/split-strategies.ts).
use splitsaathi.Common.{
  Bool, Bool-cases, List, err, false, if◌then◌else◌, inl, inr, map, ok, refl, true, ◌∙◌, ◌≡◌, ◌≢◌,
}
use splitsaathi.Common.Int.{eqb_ℤ, eqb_ℤ_iff, pos, sum_by, sum_onto, sum_onto-eq-sum_by, zero-+ℤ, ℤ}
use splitsaathi.Rounding.{Doubles}
use splitsaathi.Splits.{SplitParticipant, SplitResult, exact_split, given_row, sum_differs}

abbrev pub split_amount : SplitResult → ℤ
split_amount result = result.amount_minor

module _ (d : Doubles) where
  -- The amounts that are given, with 0 for one that is absent, summed.
  abbrev pub given_sum : List (SplitParticipant d) → ℤ
  given_sum participants = sum_by split_amount (map (given_row d) participants)

  given_sum_lem :
      (participants : List (SplitParticipant d))
      → sum_onto split_amount (pos 0) (map (given_row d) participants) ≡ given_sum participants
  given_sum_lem participants =
      sum_onto-eq-sum_by split_amount (pos 0) (map (given_row d) participants)
      ∙ zero-+ℤ (given_sum participants)

  exact_split-eq :
      (total : ℤ) (participants : List (SplitParticipant d)) (same : Bool)
      → eqb_ℤ (given_sum participants) total ≡ same
      → exact_split d total participants ≡ (
          if same
          then ok (map (given_row d) participants)
          else err (sum_differs total (given_sum participants)))
  unfolding exact_split
  exact_split-eq total participants true h = rw (given_sum_lem participants, h) refl
  exact_split-eq total participants false h = rw (given_sum_lem participants, h) refl

  -- The exact strategy returns the given amounts, 0 for one that is absent, exactly when they sum to
  -- the total, and otherwise it refuses with the two sums.
  pub exact_split_lem :
      (total : ℤ) (participants : List (SplitParticipant d))
      → (given_sum participants ≡ total
          → exact_split d total participants ≡ ok (map (given_row d) participants))
        × (given_sum participants ≢ total
            → exact_split d total participants ≡ err (sum_differs total (given_sum participants)))
  exact_split_lem total participants = (
    λ same.
        exact_split-eq total participants true ((eqb_ℤ_iff (given_sum participants) total).1 same),
    λ other.
        exact_split-eq total participants false
          (elim (Bool-cases (eqb_ℤ (given_sum participants) total)) [
            | inl same ↦ absurd (other ((eqb_ℤ_iff (given_sum participants) total).0 same))
            | inr differs ↦ differs
          ]),
  )
