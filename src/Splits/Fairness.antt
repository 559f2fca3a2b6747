-- ===== src/Splits/Fairness.antt =====
-- How the equal strategy divides a total (packages/domain/src/split-strategies.ts, lines 21-41).
use Prim.Native.Nat.{◌/◌, ◌<◌}
use splitsaathi.Common.{
  All, List, [], ap, arith, length, length-map, map, ok, refl, subst, sym, ℕ, ◌*◌, ◌+◌, ◌/◌, ◌<◌,
  ◌^◌, ◌∙◌, ◌∷◌, ◌≡◌, ◌≤◌,
}
use splitsaathi.Common.Int.{abs, sum_by, ℤ, ◌+ℤ◌}
use splitsaathi.Common.Keys.{Text}
use splitsaathi.Rounding.{AllocationResult, Doubles, allocate, signed}
use splitsaathi.Rounding.Exact.{IsExact, IsShares, allocate-conserves, weights_sum, whole}
use splitsaathi.Rounding.Distinct.{IsAbsent, IsDistinct}
use splitsaathi.Rounding.Conservation.{amount_of}
use splitsaathi.Splits.{SplitParticipant, SplitResult, equal_split, split_result, split_results}
use splitsaathi.Splits.Exactness.{split_amount}

module _ (d : Doubles) where
  -- Each participant gets the n-th part of the total, rounded down, or one unit more, with the sign of
  -- the total.
  abbrev pub IsEven : ℤ → ℕ → List (SplitParticipant d) → List SplitResult → Type 0
  IsEven total n [] [] = Unit
  IsEven total n [] (row ∷ rows) = ⊥
  IsEven total n (participant ∷ participants) [] = ⊥
  IsEven total n (participant ∷ participants) (row ∷ rows) =
      (row.participant_id ≡ participant.participant_id)
      × ((extra : ℕ) × (extra ≤ 1) × (row.amount_minor ≡ signed total (abs total / n + extra)))
      × IsEven total n participants rows

  abbrev equal_weight : SplitParticipant d → Text × ℕ
  equal_weight participant = (participant.participant_id, 1)

  equal_weights_sum :
      (participants : List (SplitParticipant d))
      → weights_sum (map equal_weight participants) ≡ length participants
  equal_weights_sum [] = refl
  equal_weights_sum (participant ∷ participants) = omega (arith, equal_weights_sum participants)

  equal_inputs :
      (participants : List (SplitParticipant d))
      → map (whole d) (map equal_weight participants)
        ≡ map
            (λ participant. record {
              id = participant.participant_id;
              weight_numerator = d.of_integer 1;
              weight_denominator = d.of_integer 1;
            })
            participants
  equal_inputs [] = refl
  equal_inputs (participant ∷ participants) =
      ap (λ rest. whole d (equal_weight participant) ∷ rest) (equal_inputs participants)

  equal_weights-IsAbsent :
      (i : Text) (participants : List (SplitParticipant d))
      → IsAbsent (λ participant. participant.participant_id) i participants
      → IsAbsent (λ input. input.0) i (map equal_weight participants)
  equal_weights-IsAbsent i [] absent = tt
  equal_weights-IsAbsent i (participant ∷ participants) (here, later) =
      (here, equal_weights-IsAbsent i participants later)

  equal_weights-IsDistinct :
      (participants : List (SplitParticipant d))
      → IsDistinct (λ participant. participant.participant_id) participants
      → IsDistinct (λ input. input.0) (map equal_weight participants)
  equal_weights-IsDistinct [] distinct = tt
  equal_weights-IsDistinct (participant ∷ participants) (here, later) = (
    equal_weights-IsAbsent participant.participant_id participants here,
    equal_weights-IsDistinct participants later,
  )

  equal_weights-All :
      (participants : List (SplitParticipant d))
      → All (λ input. 0 < input.1) (map equal_weight participants)
  equal_weights-All [] = tt
  equal_weights-All (participant ∷ participants) = (omega arith, equal_weights-All participants)

  even :
      (total : ℤ) (n : ℕ) (participants : List (SplitParticipant d))
      (results : List AllocationResult)
      → IsShares total n (map equal_weight participants) results
      → IsEven total n participants (map split_result results)
  even total n [] [] shares = tt
  even total n [] (result ∷ results) shares = shares
  even total n (participant ∷ participants) [] shares = shares
  even total n (participant ∷ participants) (result ∷ results)
        (id, (extra, le, amount, residual), rest) =
      (
        id,
        (extra, le, amount ∙ ap (λ m. signed total (m / n + extra)) (omega arith)),
        even total n participants results rest,
      )

  split_results-sum :
      (results : List AllocationResult)
      → sum_by split_amount (map split_result results) ≡ sum_by amount_of results
  split_results-sum [] = refl
  split_results-sum (result ∷ results) =
      ap (λ rest. result.amount_minor +ℤ rest) (split_results-sum results)

  -- If arithmetic is exact on whole numbers below 2^53, as `IsExact` says: among one participant or
  -- more with distinct ids, and with the total, their number and the product below 2^53, the equal
  -- strategy returns a row for each in their order: the total divided by their number, rounded down,
  -- or one unit more; and the rows sum to the total.
  pub equal_split-IsEven :
      (laws : IsExact d) (total : ℤ) (participants : List (SplitParticipant d))
      → 0 < length participants
      → IsDistinct (λ participant. participant.participant_id) participants
      → abs total < 2 ^ 53
      → length participants < 2 ^ 53
      → abs total * length participants < 2 ^ 53
      → (rows : List SplitResult) × (equal_split d total participants ≡ ok rows)
        × (sum_by split_amount rows ≡ total)
        × IsEven total (length participants) participants rows
  unfolding equal_split
  equal_split-IsEven laws total participants many distinct a_small n_small small =
      let inputs = map equal_weight participants in
      let n : weights_sum inputs ≡ length participants = equal_weights_sum participants in
      let (results, run, sum, shares) =
        allocate-conserves d laws total inputs
          (omega (arith, length-map equal_weight participants, many))
          (equal_weights-All participants) (equal_weights-IsDistinct participants distinct) a_small
          (omega (arith, n, n_small)) (rw n small) in
      (
        map split_result results,
        ap (λ given. split_results (allocate d total given)) (sym (equal_inputs participants))
            ∙ ap split_results run,
        split_results-sum results ∙ sum,
        even total (length participants) participants results
            (subst (λ m. IsShares total m inputs results) n shares),
      )
