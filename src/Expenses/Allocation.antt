-- ===== src/Expenses/Allocation.antt =====
-- `ExpenseAllocationService`: apps/api/src/modules/expenses/expense-allocation.service.ts.
use Prim.Native.Nat.{max}
use splitsaathi.Common.{
  Bool, List, Result, [], all, any, err, filter, find, if◌then◌else◌, is_empty, length, map,
  nat_beq, none, not, ok, or_default, set_onto, some, throw_if, ℕ, ◌&&◌, ◌++◌, ◌>>=◌, ◌>>◌, ◌||◌,
  ◌∷◌,
}
use splitsaathi.Common.Int.{abs, eqb_ℤ, neg, pos, sum_onto, ℤ, ◌+ℤ◌}
use splitsaathi.Common.Keys.{Text, codes, text_eq, ◌==◌}
use splitsaathi.Common.Dict.{Dict, get, set, values}
use splitsaathi.Rounding.{
  AllocationError, AllocationResult, Doubles, WeightedInput, allocate, allocation,
}
use splitsaathi.Splits.{
  SplitError, SplitParticipant, SplitResult, SplitType, allocation_failed, equal, equal_split,
  exact, exact_split, itemized, of_int, percent, weight, weighted_split,
}
use splitsaathi.Expenses.{
  BillAdjustmentRow, ExpenseAllocationResult, ExpenseError, ExpenseLineItemRow, ExpenseShareRow,
  RoundingResidual, itemized_sum_differs, no_line_items, no_participant_shares, split_failed,
}

abbrev type_number : SplitType → ℕ
type_number equal = 0
type_number exact = 1
type_number percent = 2
type_number weight = 3
type_number itemized = 4

-- `left === right` on share types.
abbrev pub same_type : SplitType → SplitType → Bool
same_type left right = nat_beq (type_number left) (type_number right)

-- The Map of share totals and the list of residuals, which the loops of `calculateItemized` change.
pub record Itemization : Type 0 where
  pub share_totals : Dict Text ℤ
  pub residuals : List RoundingResidual

abbrev pub zero_totals : List Text → Itemization
zero_totals ids = record { share_totals = map (λ id. (id, pos 0)) ids; residuals = [] }

abbrev pub share_total : Itemization → Text → ℤ
share_total state id = or_default (pos 0) (get id state.share_totals)

-- One round of the loops over allocations.
abbrev pub add_allocation : Text → Text → Itemization → AllocationResult → Itemization
add_allocation currency reason state allocation = record {
  share_totals =
      set allocation.id (share_total state allocation.id +ℤ allocation.amount_minor)
        state.share_totals;
  residuals =
      if not (eqb_ℤ allocation.residual_minor (pos 0))
      then state.residuals
        ++ record {
          participant_id = allocation.id;
          currency_code = currency;
          residual_minor = allocation.residual_minor;
          reason = reason;
        }
          ∷ []
      else state.residuals;
}

unfoldable pub add_allocations : Text → Text → Itemization → List AllocationResult → Itemization
add_allocations currency reason state [] = state
add_allocations currency reason state (allocation ∷ allocations) =
    add_allocations currency reason (add_allocation currency reason state allocation) allocations

-- `roundingAllocator.allocate`, whose error passes through.
abbrev pub allocated :
    Result AllocationError (List AllocationResult) → Result ExpenseError (List AllocationResult)
allocated result = elim result [
  | ok allocations ↦ ok allocations
  | err why ↦ err (split_failed (allocation_failed why))
]

abbrev pub split_done :
    Result SplitError (List SplitResult) → Result ExpenseError (List SplitResult)
split_done result = elim result [ ok rows ↦ ok rows | err why ↦ err (split_failed why) ]

module _ (d : Doubles) where
  open d use {of_integer}

  -- An input of weight `n`.
  abbrev pub weighing : (Text → ℕ) → Text → WeightedInput d
  weighing n id = record {
    id = id;
    weight_numerator = of_integer (n id);
    weight_denominator = of_integer 1;
  }

  -- The loop over the line items.
  unfoldable pub add_line_items :
      Text → Itemization → List ExpenseLineItemRow → Result ExpenseError Itemization
  unfolding add_allocations
  add_line_items currency state [] = ok state
  add_line_items currency state (item ∷ items) = do
    allocations ←
        allocated (allocate d item.amount_minor (map (weighing (λ id. 1)) item.participant_ids))
    add_line_items currency
        (add_allocations currency (codes "rounding on line item " ++ item.label) state allocations)
        items

  -- `signedMinor` of an adjustment.
  abbrev pub signed_minor : BillAdjustmentRow → ℤ
  signed_minor adjustment =
      if adjustment.adjustment_type == codes "discount"
      then neg (pos (abs adjustment.amount_minor))
      else adjustment.amount_minor

  -- `idsForAdjustment`.
  abbrev pub adjustment_ids : List Text → Itemization → List Text
  adjustment_ids participant_ids state =
      let basis_ids = filter (λ id. not (eqb_ℤ (share_total state id) (pos 0))) participant_ids in
      if not (is_empty basis_ids) then basis_ids else participant_ids

  -- The loop over the adjustments of the bill.
  unfoldable pub add_adjustments :
      Text → List Text → Itemization → List BillAdjustmentRow → Result ExpenseError Itemization
  unfolding add_allocations
  add_adjustments currency participant_ids state [] = ok state
  add_adjustments currency participant_ids state (adjustment ∷ adjustments) = do
    let ids = adjustment_ids participant_ids state
    allocations ← allocated (
        allocate d (signed_minor adjustment) (
          if adjustment.allocation_basis == codes "equal"
          then map (weighing (λ id. 1)) ids
          else map (weighing (λ id. max 1 (abs (share_total state id)))) ids))
    add_adjustments currency participant_ids
        (add_allocations currency (codes "rounding on adjustment " ++ adjustment.label) state
          allocations)
        adjustments

  -- `participantIdsFromShares`.
  abbrev pub participant_ids_from_shares :
      List (SplitParticipant d) → Result ExpenseError (List Text)
  participant_ids_from_shares shares = do
    let ids = set_onto (λ a b. a == b) [] (map (λ share. share.participant_id) shares)
    throw_if (is_empty ids) no_participant_shares
    ok ids

  -- A share that `calculateItemized` returns.
  abbrev pub itemized_share : Itemization → Text → ExpenseShareRow
  itemized_share state id = record {
    participant_id = id;
    amount_minor = share_total state id;
    share_type = itemized;
    rounding_delta_minor =
        sum_onto (λ residual. residual.residual_minor) (pos 0)
          (filter (λ residual. residual.participant_id == id) state.residuals);
  }

  -- `calculateItemized`.
  unfoldable pub calculate_itemized :
      ℤ
      → Text
      → List (SplitParticipant d)
      → List ExpenseLineItemRow
      → List BillAdjustmentRow
      → Result ExpenseError ExpenseAllocationResult
  calculate_itemized total currency shares line_items adjustments = do
    throw_if (is_empty line_items) no_line_items
    ids ← participant_ids_from_shares shares
    after_items ← add_line_items currency (zero_totals ids) line_items
    state ← add_adjustments currency ids after_items adjustments
    let calculated_total = sum_onto (λ amount. amount) (pos 0) (values state.share_totals)
    throw_if (not (eqb_ℤ calculated_total total)) (itemized_sum_differs total calculated_total)
    ok (record { shares = map (itemized_share state) ids; rounding_residuals = state.residuals })

  -- The shares that `calculate` hands to the weighted strategy.
  abbrev pub weighted_share : SplitParticipant d → SplitParticipant d
  weighted_share share = record share {
    share_type = weight;
    weight_numerator = some (elim share.weight_numerator [
      | some numerator ↦ numerator
      | none ↦ elim share.amount_minor [ some n ↦ of_int d n | none ↦ of_integer 1 ]
    ]);
    weight_denominator = some (or_default (of_integer 1) share.weight_denominator);
  }

  -- The choice of the strategy in `calculate`.
  unfoldable pub split_by_type :
      ℤ → List (SplitParticipant d) → Result SplitError (List SplitResult)
  split_by_type total shares =
      let types = set_onto same_type [] (map (λ share. share.share_type) shares) in
      if nat_beq (length types) 1 && any (same_type equal) types
      then equal_split d total shares
      else if nat_beq (length types) 1 && any (same_type exact) types
      then exact_split d total shares
      else if all (λ type. same_type type weight || same_type type percent) types
      then weighted_split d total (map weighted_share shares)
      else exact_split d total shares

  -- A share that `calculate` returns.
  abbrev pub expense_share : List (SplitParticipant d) → SplitResult → ExpenseShareRow
  expense_share shares result = record {
    participant_id = result.participant_id;
    amount_minor = result.amount_minor;
    share_type = elim (find (λ share. share.participant_id == result.participant_id) shares) [
      | some share ↦ share.share_type
      | none ↦ exact
    ];
    rounding_delta_minor = result.rounding_delta_minor;
  }

  -- A residual that `calculate` returns.
  abbrev pub split_residual : Text → SplitResult → RoundingResidual
  split_residual currency result = record {
    participant_id = result.participant_id;
    currency_code = currency;
    residual_minor = result.rounding_delta_minor;
    reason = codes "deterministic split rounding";
  }

  -- `calculate`. The total is an integer here, so that the guard `requireIntegerAmount` holds.
  unfoldable pub calculate :
      ℤ
      → Text
      → List (SplitParticipant d)
      → List ExpenseLineItemRow
      → List BillAdjustmentRow
      → Result ExpenseError ExpenseAllocationResult
  calculate total currency shares line_items adjustments =
      if any (λ share. same_type share.share_type itemized) shares || not (is_empty line_items)
      then calculate_itemized total currency shares line_items adjustments
      else do
        results ← split_done (split_by_type total shares)
        ok (record {
          shares = map (expense_share shares) results;
          rounding_residuals =
              map (split_residual currency)
                (filter (λ result. not (eqb_ℤ result.rounding_delta_minor (pos 0))) results);
        })
