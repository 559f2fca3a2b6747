-- ===== src/Expenses/Tests.antt =====
-- Tests of the expenses (apps/api/src/modules/expenses).
use splitsaathi.Common.{Bool, refl, ◌&&◌, ◌++◌, ◌≡◌}
use splitsaathi.Common.Int.{pos, ◌+ℤ◌}
use splitsaathi.Common.Keys.{Text, codes, text_eq, ◌==◌}
use splitsaathi.Rounding.Fractions.{fractions}
use splitsaathi.Expenses.Commands.{revise_postings, snapshot_postings, void_postings}
use splitsaathi.Expenses.Service.{VoidExpenseCommand, create_input, revise_input, void_input}
use splitsaathi.Expenses.Totals.{IsSettled, materialize_snapshot-IsSettled}
use splitsaathi.Expenses.Balancing.{revise_postings-sum, sum_of, void_postings-sum}
use splitsaathi.Expenses.Samples.{dinner, dinner_command, dinner_run, feast}
use splitsaathi.Expenses.Checked.{IsChecked, commands-IsChecked}

dinner-IsSettled : IsSettled dinner
dinner-IsSettled =
    (materialize_snapshot-IsSettled fractions (codes "e") dinner_command dinner dinner_run).0

materialize_snapshot-IsSettled_example :
    IsSettled dinner × (dinner.expense_id ≡ codes "e") × (dinner.group_id ≡ dinner_command.group_id)
materialize_snapshot-IsSettled_example =
    materialize_snapshot-IsSettled fractions (codes "e") dinner_command dinner dinner_run

-- The participant b, in rupees.
abbrev of_b : Text → Text → Bool
of_b participant currency = participant == codes "b" && currency == codes "INR"

void_postings_test : sum_of of_b (snapshot_postings dinner ++ void_postings dinner) ≡ pos 0
void_postings_test = void_postings-sum of_b dinner

revise_postings_test :
    sum_of of_b (snapshot_postings dinner ++ revise_postings dinner feast)
    ≡ sum_of of_b (snapshot_postings feast)
revise_postings_test = revise_postings-sum of_b dinner feast

abbrev void_dinner : VoidExpenseCommand fractions
void_dinner = record {
  idempotency_key = codes "v";
  actor_id = codes "a";
  group_id = codes "g";
  expense_id = codes "e";
  expected_version = 1;
  reason = codes "r";
}

feast-IsSettled : IsSettled feast
unfolding ◌+ℤ◌
feast-IsSettled = ((refl, tt), refl, refl)

commands-IsChecked_example :
    IsChecked (create_input fractions dinner_command dinner)
    × IsChecked (
        revise_input fractions
          (record { fields = dinner_command; expense_id = codes "e"; expected_version = 1 })
          feast
          dinner)
    × IsChecked (void_input fractions void_dinner feast)
commands-IsChecked_example =
    commands-IsChecked fractions (codes "e") dinner_command feast dinner 1 void_dinner dinner_run
      feast-IsSettled
