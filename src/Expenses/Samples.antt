-- ===== src/Expenses/Samples.antt =====
-- Sample expenses, for tests (apps/api/src/modules/expenses).
use splitsaathi.Common.{[], none, ok, refl, set_onto, some, ◌∷◌, ◌≡◌}
use splitsaathi.Common.Int.{pos, ℤ, ◌+ℤ◌, ◌-ℤ◌}
use splitsaathi.Common.Keys.{Text, codes, text_beq}
use splitsaathi.Common.Texts.{trim}
use splitsaathi.Common.Sort.{sort}
use splitsaathi.Rounding.{allocate, stable_hash}
use splitsaathi.Rounding.Fractions.{fractions}
use splitsaathi.Splits.{SplitParticipant, equal, equal_split}
use splitsaathi.Expenses.{ExpenseShareRow}
use splitsaathi.Expenses.Commands.{ExpenseSnapshot}
use splitsaathi.Expenses.Service.{CreateExpenseCommand, materialize_snapshot}
use splitsaathi.Expenses.Allocation.{split_by_type}

abbrev pub share_of : Text → SplitParticipant fractions
share_of id = record {
  participant_id = id;
  share_type = equal;
  amount_minor = none;
  weight_numerator = none;
  weight_denominator = none;
}

abbrev pub dinner_command : CreateExpenseCommand fractions
dinner_command = record {
  idempotency_key = codes "k";
  actor_id = codes "a";
  group_id = codes "g";
  expense_id = some (codes "e");
  description = codes "dinner";
  category = none;
  notes = some (codes "  ");
  expense_date = codes "d";
  currency_code = none;
  payers = record { participant_id = codes "a"; amount_minor = pos 5 } ∷ [];
  shares = share_of (codes "a") ∷ share_of (codes "b") ∷ [];
  line_items = none;
  bill_adjustments = none;
  reason = none;
}

abbrev pub dinner_share : Text → ℤ → ℤ → ExpenseShareRow
dinner_share id amount delta = record {
  participant_id = id;
  amount_minor = amount;
  share_type = equal;
  rounding_delta_minor = delta;
}

abbrev pub dinner : ExpenseSnapshot
dinner = record {
  expense_id = codes "e";
  group_id = codes "g";
  description = codes "dinner";
  category = none;
  notes = none;
  expense_date = codes "d";
  currency_code = codes "INR";
  total_amount_minor = pos 5;
  payers = record { participant_id = codes "a"; amount_minor = pos 5 } ∷ [];
  shares = dinner_share (codes "a") (pos 3) (pos 1) ∷ dinner_share (codes "b") (pos 2) (pos 0) ∷ [];
  line_items = [];
  bill_adjustments = [];
}

pub dinner_run : materialize_snapshot fractions (codes "e") dinner_command ≡ ok dinner
unfolding materialize_snapshot split_by_type set_onto equal_split allocate sort stable_hash text_beq
    ◌+ℤ◌ ◌-ℤ◌ trim
dinner_run = refl

-- A larger dinner.
abbrev pub feast : ExpenseSnapshot
feast = record dinner {
  total_amount_minor = pos 8;
  payers = record { participant_id = codes "b"; amount_minor = pos 8 } ∷ [];
  shares = dinner_share (codes "a") (pos 4) (pos 0) ∷ dinner_share (codes "b") (pos 4) (pos 0) ∷ [];
}

abbrev pub feast_command : CreateExpenseCommand fractions
feast_command = record dinner_command {
  payers = record { participant_id = codes "b"; amount_minor = pos 8 } ∷ [];
}

pub feast_run : materialize_snapshot fractions (codes "e") feast_command ≡ ok feast
unfolding materialize_snapshot split_by_type set_onto equal_split allocate sort stable_hash text_beq
    ◌+ℤ◌ ◌-ℤ◌ trim
feast_run = refl
