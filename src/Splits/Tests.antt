-- ===== src/Splits/Tests.antt =====
-- Tests of the split strategies (packages/domain/src/split-strategies.ts).
use splitsaathi.Rounding.Distinct.{IsDistinct}
use splitsaathi.Common.{List, Option, [], arith, err, map, none, ok, some, ◌∷◌, ◌≡◌, ◌≢◌}
use splitsaathi.Common.Int.{pos, sum_by, ℤ}
use splitsaathi.Common.Keys.{Text, codes}
use splitsaathi.Rounding.Fractions.{fractions, fractions-IsExact}
use splitsaathi.Splits.{
  SplitParticipant, SplitResult, equal, equal_split, exact_split, given_row, sum_differs,
}
use splitsaathi.Splits.Exactness.{exact_split_lem, given_sum, split_amount}
use splitsaathi.Splits.Fairness.{IsEven, equal_split-IsEven}

abbrev person : Option ℤ → Text → SplitParticipant fractions
person amount id = record {
  participant_id = id;
  share_type = equal;
  amount_minor = amount;
  weight_numerator = none;
  weight_denominator = none;
}

abbrev people : List (SplitParticipant fractions)
people = person none (codes "a") ∷ person none (codes "b") ∷ person none (codes "c") ∷ []

abbrev amounts : List (SplitParticipant fractions)
amounts =
    person (some (pos 4)) (codes "a")
    ∷ person none (codes "b")
    ∷ person (some (pos 6)) (codes "c")
    ∷ []

exact_split_test :
    (given_sum fractions amounts ≡ pos 10
      → exact_split fractions (pos 10) amounts ≡ ok (map (given_row fractions) amounts))
    × (given_sum fractions amounts ≢ pos 10
        → exact_split fractions (pos 10) amounts
          ≡ err (sum_differs (pos 10) (given_sum fractions amounts)))
exact_split_test = exact_split_lem fractions (pos 10) amounts

people-IsDistinct : IsDistinct (λ participant. participant.participant_id) people
people-IsDistinct = ground arith

equal_split-IsEven_example :
    (rows : List SplitResult) × (equal_split fractions (pos 10) people ≡ ok rows)
    × (sum_by split_amount rows ≡ pos 10)
    × IsEven fractions (pos 10) 3 people rows
equal_split-IsEven_example =
    equal_split-IsEven fractions fractions-IsExact (pos 10) people (omega arith) people-IsDistinct
      (omega arith) (omega arith) (omega arith)
