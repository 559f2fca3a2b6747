-- ===== src/Optimizer/Settling.antt =====
-- The suggestions and the balances (packages/domain/src/settlement-optimizer.ts).
use splitsaathi.Common.{
  All, Bool, Bool-cases, List, [], ap, arith, if◌then◌else◌, inl, inr, length, none, or_default,
  refl, some, sym, true, ◌+◌, ◌∙◌, ◌∷◌, ◌≡◌,
}
use splitsaathi.Common.Int.{int_laws, neg_part, pos, pos_part, sum_by, ℤ, ◌+ℤ◌, ◌-ℤ◌}
use splitsaathi.Common.Keys.{Text, text_beq_iff, text_eq, ◌==◌}
use splitsaathi.Optimizer.{
  Matching, NetBalance, SettlementExpenseHint, SettlementSuggestion, creditors_of, debtors_of,
  group_rows, match_sides, suggest, suggest_groups,
}
use splitsaathi.Optimizer.Rounds.{left_sum, paid_sum, received_sum}
use splitsaathi.Optimizer.Matchings.{match_sides-ends, match_sides-paid, match_sides-received}
use splitsaathi.Optimizer.Sides.{balance_sum, everyone, left_sum-le, sides_sum}
use splitsaathi.Common.Dict.{Dict, IsKeyed, get, sum_values}
use splitsaathi.Optimizer.Groups.{
  IsFiled, amounts, group_rows-IsFiled, group_rows-IsKeyed, group_rows-amounts, group_rows-sum,
  net_of, rows_at,
}

-- What all pay is what all receive.
all_paid :
    (suggestions : List SettlementSuggestion)
    → paid_sum (λ id c. true) suggestions ≡ received_sum (λ id c. true) suggestions
all_paid [] = refl
all_paid (s ∷ suggestions) = ap (λ rest. s.amount_minor + rest) (all_paid suggestions)

-- What the chosen participants receive, less what they pay.
abbrev pub net_received : (Text → Text → Bool) → List SettlementSuggestion → ℤ
net_received chosen suggestions =
    pos (received_sum chosen suggestions) -ℤ pos (paid_sum chosen suggestions)

module _ (hints : List SettlementExpenseHint) (currency : Text)
    (suggestions : List SettlementSuggestion) (rows : List NetBalance) where
  -- The end of the loop on the rows of a currency.
  abbrev pub settled : Matching
  settled =
      match_sides hints currency (length (debtors_of rows) + length (creditors_of rows))
        (debtors_of rows) (creditors_of rows) suggestions

  -- If the amounts sum to zero, nothing is left on either side.
  settled_all :
      balance_sum everyone rows ≡ pos 0
      → (left_sum everyone settled.debtors ≡ 0) × (left_sum everyone settled.creditors ≡ 0)
  settled_all balanced =
      let fuel = length (debtors_of rows) + length (creditors_of rows) in
      let paid =
        match_sides-paid hints currency (λ id c. true) fuel (debtors_of rows) (creditors_of rows)
          suggestions in
      let received =
        match_sides-received hints currency (λ id c. true) fuel (debtors_of rows)
          (creditors_of rows) suggestions in
      let owed : pos (left_sum everyone (creditors_of rows))
          ≡ pos (left_sum everyone (debtors_of rows)) =
        sides_sum everyone rows ∙ rw balanced (omega int_laws) in
      let same : left_sum everyone settled.debtors ≡ left_sum everyone settled.creditors = omega (
        arith,
        paid,
        received,
        all_paid suggestions,
        all_paid settled.suggestions,
        ap pos_part owed,
      ) in
      elim (match_sides-ends hints currency fuel (debtors_of rows) (creditors_of rows) suggestions
        (omega arith)) [
          | inl no_debtors ↦
              let none_left = ap (left_sum everyone) no_debtors in (none_left, sym same ∙ none_left)
          | inr no_creditors ↦
              let none_left = ap (left_sum everyone) no_creditors in (same ∙ none_left, none_left)
        ]

  -- Then every choice of participants gets from these suggestions what its balances are.
  settled_net :
      (chosen : Text → Text → Bool)
      → balance_sum everyone rows ≡ pos 0
      → net_received chosen settled.suggestions
        ≡ net_received chosen suggestions +ℤ balance_sum (λ id. chosen id currency) rows
  settled_net chosen balanced =
      let fuel = length (debtors_of rows) + length (creditors_of rows) in
      let here = λ (id : Text). chosen id currency in
      let (no_debtors, no_creditors) = settled_all balanced in
      let owed = sides_sum here rows in
      omega (
        int_laws,
        match_sides-paid hints currency chosen fuel (debtors_of rows) (creditors_of rows)
            suggestions,
        match_sides-received hints currency chosen fuel (debtors_of rows) (creditors_of rows)
            suggestions,
        no_debtors,
        no_creditors,
        left_sum-le here settled.debtors,
        left_sum-le here settled.creditors,
        ap pos_part owed,
        ap neg_part owed,
      )

-- The amounts of every currency sum to zero.
abbrev IsEvened : Dict Text (List NetBalance) → Type 0
IsEvened groups = (c : Text) → amounts (rows_at c groups) ≡ pos 0

IsEvened-head :
    (c : Text) (rows : List NetBalance) (groups : Dict Text (List NetBalance))
    → IsEvened ((c, rows) ∷ groups)
    → amounts rows ≡ pos 0
IsEvened-head c rows groups evened =
    sym (
      ap (λ t. amounts (or_default [] (if t then some rows else get c groups)))
        ((text_beq_iff c c).1 refl))
    ∙ evened c

IsEvened-tail :
    (k : Text) (rows : List NetBalance) (groups : Dict Text (List NetBalance))
    → get k groups ≡ none
    → IsEvened ((k, rows) ∷ groups)
    → IsEvened groups
IsEvened-tail k rows groups new evened c = elim (Bool-cases (c == k)) [
  | inl same ↦
      ap (λ found. amounts (or_default [] found))
        (ap (λ j. get j groups) ((text_beq_iff c k).0 same) ∙ new)
  | inr other ↦
      sym (ap (λ t. amounts (or_default [] (if t then some rows else get c groups))) other)
      ∙ evened c
]

filed_sum :
    (chosen : Text → Text → Bool) (c : Text) (rows : List NetBalance)
    → All (λ row. row.currency_code ≡ c) rows
    → balance_sum (λ id. chosen id c) rows ≡ sum_by (net_of chosen) rows
filed_sum chosen c [] filed = refl
filed_sum chosen c (row ∷ rows) (here, later) = rw (here, filed_sum chosen c rows later) refl

suggest_groups-net :
    (hints : List SettlementExpenseHint) (chosen : Text → Text → Bool)
    (suggestions : List SettlementSuggestion) (groups : Dict Text (List NetBalance))
    → IsKeyed groups
    → IsFiled groups
    → IsEvened groups
    → net_received chosen (suggest_groups hints suggestions groups)
      ≡ net_received chosen suggestions +ℤ sum_values (sum_by (net_of chosen)) groups
unfolding suggest_groups
suggest_groups-net hints chosen suggestions [] keyed filed evened = omega int_laws
suggest_groups-net hints chosen suggestions ((c, rows) ∷ groups) keyed filed evened =
    suggest_groups-net hints chosen (settled hints c suggestions rows).suggestions groups keyed.1
      filed.1 (IsEvened-tail c rows groups keyed.0 evened)
    ∙ rw
        (
          settled_net hints c suggestions rows chosen (IsEvened-head c rows groups evened),
          filed_sum chosen c rows filed.0,
        )
        (omega int_laws)

-- If the balances sum to zero in every currency, then for every choice of participants and currencies
-- what they receive by the suggestions less what they pay is the sum of their balances: carrying the
-- suggestions out settles everyone.
pub suggest-settles :
    (balances : List NetBalance) (hints : List SettlementExpenseHint) (chosen : Text → Text → Bool)
    → ((c : Text)
        → sum_by (λ row. if c == row.currency_code then row.amount_minor else pos 0) balances
          ≡ pos 0)
    → net_received chosen (suggest balances hints) ≡ sum_by (net_of chosen) balances
unfolding suggest
suggest-settles balances hints chosen zero_sum =
    suggest_groups-net hints chosen [] (group_rows [] balances) (group_rows-IsKeyed [] balances tt)
      (group_rows-IsFiled [] balances tt)
      (λ c. group_rows-amounts c [] balances ∙ rw (zero_sum c) (omega int_laws))
    ∙ rw (group_rows-sum chosen [] balances) (omega int_laws)
