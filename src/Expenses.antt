-- ===== src/Expenses.antt =====
-- Expenses: apps/api/src/modules/expenses.
pub mod Allocation
pub mod Commands
pub mod Service
pub mod Totals
pub mod Balancing
pub mod Checked
pub mod Projection
pub mod Lifecycle
mod Tests
pub mod Samples
mod LifeTests
use splitsaathi.Common.{List}
use splitsaathi.Common.Int.{ℤ}
use splitsaathi.Common.Keys.{Text}
use splitsaathi.Splits.{SplitError, SplitType}

-- `ExpensePayerRow`.
pub record ExpensePayerRow : Type 0 where
  pub participant_id : Text
  pub amount_minor : ℤ

-- `ExpenseShareRow`.
pub record ExpenseShareRow : Type 0 where
  pub participant_id : Text
  pub amount_minor : ℤ
  pub share_type : SplitType
  pub rounding_delta_minor : ℤ

-- `ExpenseLineItemRow`.
pub record ExpenseLineItemRow : Type 0 where
  pub label : Text
  pub amount_minor : ℤ
  pub participant_ids : List Text

-- `BillAdjustmentRow`.
pub record BillAdjustmentRow : Type 0 where
  pub adjustment_type : Text
  pub label : Text
  pub amount_minor : ℤ
  pub allocation_basis : Text

-- A row of `roundingResiduals`.
pub record RoundingResidual : Type 0 where
  pub participant_id : Text
  pub currency_code : Text
  pub residual_minor : ℤ
  pub reason : Text

-- `ExpenseAllocationResult`.
pub record ExpenseAllocationResult : Type 0 where
  pub shares : List ExpenseShareRow
  pub rounding_residuals : List RoundingResidual

-- What `materializeSnapshot` and `calculate` throw, each with the numbers of its message.
pub data ExpenseError : Type 0 where
  split_failed : SplitError → ExpenseError
  no_line_items no_participant_shares payer_not_positive : ExpenseError
  itemized_sum_differs shares_differ : ℤ → ℤ → ExpenseError
