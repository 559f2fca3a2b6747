-- ===== src/Optimizer/Tests.antt =====
-- Tests of the suggestions (packages/domain/src/settlement-optimizer.ts).
use splitsaathi.Optimizer.Matchings.{match_sides-ends}
use splitsaathi.Common.{
  Bool, Bool-cases, List, [], arith, if◌then◌else◌, inl, inr, length, map, refl, set_onto, ◌&&◌,
  ◌∷◌, ◌≡◌, ◌≤◌, ◌⊎◌,
}
use splitsaathi.Common.Int.{int_laws, negsuc, pos, sum_by, ℤ}
use splitsaathi.Common.Keys.{Text, codes, text_beq, text_eq, ◌==◌}
use splitsaathi.Common.Sort.{sort}
use splitsaathi.Common.Texts.{trim}
use splitsaathi.Optimizer.{NetBalance, Side, build_settlement_explanation, match_sides, suggest}
use splitsaathi.Optimizer.Groups.{net_of}
use splitsaathi.Optimizer.Settling.{net_received, suggest-settles}
use splitsaathi.Optimizer.Counts.{IsPositive, suggest-bounds}

abbrev balance_of : Text → ℤ → NetBalance
balance_of id amount = record {
  participant_id = id;
  amount_minor = amount;
  currency_code = codes "INR";
}

-- a is owed 7, b owes 5, c owes 2.
abbrev trip : List NetBalance
trip =
    balance_of (codes "a") (pos 7)
    ∷ balance_of (codes "b") (negsuc 4)
    ∷ balance_of (codes "c") (negsuc 1)
    ∷ []

suggest_test : map (λ s. s.amount_minor) (suggest trip []) ≡ 5 ∷ 2 ∷ []
unfolding suggest sort text_beq
suggest_test = refl

explanation_test :
    build_settlement_explanation (codes "a") (codes "b") (
      record { description = codes " tea "; participant_ids = codes "a" ∷ codes "b" ∷ [] }
      ∷ record { description = codes "cab"; participant_ids = codes "b" ∷ codes "a" ∷ [] }
      ∷ record { description = codes "bed"; participant_ids = codes "b" ∷ [] }
      ∷ [])
    ≡ codes "Someone owes this amount to settle tea and cab."
unfolding build_settlement_explanation trim text_beq set_onto
explanation_test = refl

trip-IsZeroSum :
    (c : Text)
    → sum_by (λ row. if c == row.currency_code then row.amount_minor else pos 0) trip ≡ pos 0
trip-IsZeroSum c = elim (Bool-cases (c == codes "INR")) [
  | inl here ↦ rw here (omega int_laws)
  | inr elsewhere ↦ rw elsewhere (omega int_laws)
]

-- What c receives in rupees.
abbrev of_c : Text → Text → Bool
of_c id currency = id == codes "c" && currency == codes "INR"

suggest-settles_example : net_received of_c (suggest trip []) ≡ sum_by (net_of of_c) trip
suggest-settles_example = suggest-settles trip [] of_c trip-IsZeroSum

suggest-bounds_example : IsPositive (suggest trip []) × (length (suggest trip []) ≤ 3)
suggest-bounds_example = suggest-bounds trip []

abbrev creditor_a : List Side
creditor_a = record { participant_id = codes "a"; left = 7 } ∷ []

abbrev debtors_b_c : List Side
debtors_b_c =
    record { participant_id = codes "b"; left = 5 }
    ∷ record { participant_id = codes "c"; left = 2 }
    ∷ []

match_sides-ends_example :
    ((match_sides [] (codes "INR") 3 debtors_b_c creditor_a []).debtors ≡ [])
    ⊎ ((match_sides [] (codes "INR") 3 debtors_b_c creditor_a []).creditors ≡ [])
match_sides-ends_example =
    match_sides-ends [] (codes "INR") 3 debtors_b_c creditor_a [] (omega arith)
