-- ===== src/Splits.antt =====
-- The strategies that split a total: packages/domain/src/split-strategies.ts.
pub mod Exactness
pub mod Fairness
mod Tests
use splitsaathi.Common.{List, Option, Result, err, map, not, ok, or_default, suc, throw_if, ◌>>◌}
use splitsaathi.Common.Int.{eqb_ℤ, negsuc, pos, sum_onto, ℤ}
use splitsaathi.Common.Keys.{Text}
use splitsaathi.Rounding.{AllocationError, AllocationResult, Doubles, allocate, allocation}

-- `SplitType`.
pub data SplitType : Type 0 where
  equal exact percent weight itemized : SplitType

-- `SplitResult`.
pub record SplitResult : Type 0 where
  pub participant_id : Text
  pub amount_minor : ℤ
  pub rounding_delta_minor : ℤ

-- What the strategies throw: an error of the allocator, or exact amounts that sum to another total.
pub data SplitError : Type 0 where
  allocation_failed : AllocationError → SplitError
  sum_differs : ℤ → ℤ → SplitError

-- The last `map` of the strategies that call the allocator.
abbrev pub split_result : AllocationResult → SplitResult
split_result allocation = record {
  participant_id = allocation.id;
  amount_minor = allocation.amount_minor;
  rounding_delta_minor = allocation.residual_minor;
}

abbrev pub split_results :
    Result AllocationError (List AllocationResult) → Result SplitError (List SplitResult)
split_results allocated = elim allocated [
  | ok allocations ↦ ok (map split_result allocations)
  | err why ↦ err (allocation_failed why)
]

module _ (d : Doubles) where
  open d use {Number, of_integer, sub}

  -- `SplitParticipant`.
  pub record SplitParticipant : Type 0 where
    pub participant_id : Text
    pub share_type : SplitType
    pub amount_minor : Option ℤ
    pub weight_numerator : Option Number
    pub weight_denominator : Option Number

  -- `EqualSplitStrategy.calculate`.
  unfoldable pub equal_split : ℤ → List SplitParticipant → Result SplitError (List SplitResult)
  equal_split total participants = split_results (
      allocate d total (
        map
          (λ participant. record {
            id = participant.participant_id;
            weight_numerator = of_integer 1;
            weight_denominator = of_integer 1;
          })
          participants))

  -- The rows of `ExactAmountSplitStrategy.calculate`.
  abbrev pub given_row : SplitParticipant → SplitResult
  given_row participant = record {
    participant_id = participant.participant_id;
    amount_minor = or_default (pos 0) participant.amount_minor;
    rounding_delta_minor = pos 0;
  }

  -- `ExactAmountSplitStrategy.calculate`.
  unfoldable pub exact_split : ℤ → List SplitParticipant → Result SplitError (List SplitResult)
  unfolding sum_onto
  exact_split total participants = do
    let rows = map given_row participants
    let sum = sum_onto (λ row. row.amount_minor) (pos 0) rows
    throw_if (not (eqb_ℤ sum total)) (sum_differs total sum)
    ok rows

  -- `WeightedShareSplitStrategy.calculate`.
  unfoldable pub weighted_split : ℤ → List SplitParticipant → Result SplitError (List SplitResult)
  weighted_split total participants = split_results (
      allocate d total (
        map
          (λ participant. record {
            id = participant.participant_id;
            weight_numerator = or_default (of_integer 1) participant.weight_numerator;
            weight_denominator = or_default (of_integer 1) participant.weight_denominator;
          })
          participants))

  -- An amount as a number: `-n` is `0 - n`.
  abbrev pub of_int : ℤ → Number
  of_int (pos n) = of_integer n
  of_int (negsuc n) = sub (of_integer 0) (of_integer (suc n))
