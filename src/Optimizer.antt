-- ===== src/Optimizer.antt =====
-- The suggestion of settlements: packages/domain/src/settlement-optimizer.ts.
pub mod Rounds
pub mod Matchings
pub mod Sides
pub mod Groups
pub mod Settling
pub mod Counts
mod Tests
use Prim.Native.Nat.{min}
use splitsaathi.Common.{
  Bool, List, [], any, filter, if◌then◌else◌, is_empty, leb, length, map, nat_beq, not, or_default,
  set_onto, suc, zero, ℕ, ◌&&◌, ◌++◌, ◌+◌, ◌-◌, ◌∷◌,
}
use splitsaathi.Common.Int.{abs, eqb_ℤ, ltb_ℤ, pos, ℤ}
use splitsaathi.Common.Keys.{Text, codes, text_eq, ◌==◌}
use splitsaathi.Common.Texts.{join, trim}
use splitsaathi.Common.Dict.{Dict, get, set}
use splitsaathi.Common.Sort.{sort}

-- `NetBalance`.
pub record NetBalance : Type 0 where
  pub participant_id : Text
  pub amount_minor : ℤ
  pub currency_code : Text

-- `SettlementSuggestion`; its amount is never negative.
pub record SettlementSuggestion : Type 0 where
  pub payer_participant_id : Text
  pub payee_participant_id : Text
  pub amount_minor : ℕ
  pub currency_code : Text
  pub explanation : Text

-- `SettlementExpenseHint`.
pub record SettlementExpenseHint : Type 0 where
  pub description : Text
  pub participant_ids : List Text

-- The cases of `formatExpenseNames` on the unique names: none, one, two, and more, where `front`
-- is all but the last.
abbrev pub format_unique : List Text → Text
format_unique [] = codes "shared group expenses"
format_unique (name ∷ []) = name
format_unique (first ∷ second ∷ []) = first ++ codes " and " ++ second
format_unique (first ∷ second ∷ third ∷ rest) =
    join (codes ", ") (all_but_last (first ∷ second ∷ third ∷ rest))
    ++ codes ", and "
    ++ last_of third rest
  where
    last_of : Text → List Text → Text
    last_of name [] = name
    last_of name (next ∷ names) = last_of next names

    all_but_last : List Text → List Text
    all_but_last [] = []
    all_but_last (name ∷ []) = []
    all_but_last (name ∷ next ∷ names) = name ∷ all_but_last (next ∷ names)

-- `formatExpenseNames`.
unfoldable pub format_expense_names : List Text → Text
unfolding set_onto trim
format_expense_names names =
    format_unique
      (set_onto (λ a b. a == b) [] (filter (λ name. not (is_empty name)) (map trim names)))

-- `xs.slice(0, n)`
unfoldable pub first_of {ℓ} : {A : Type ℓ} → ℕ → List A → List A
first_of zero xs = []
first_of (suc n) [] = []
first_of (suc n) (x ∷ xs) = x ∷ first_of n xs

-- `buildSettlementExplanation`.
unfoldable pub build_settlement_explanation : Text → Text → List SettlementExpenseHint → Text
unfolding first_of format_expense_names
build_settlement_explanation payer payee hints =
    let related =
      filter
        (λ hint.
          any (λ id. payer == id) hint.participant_ids
          && any (λ id. payee == id) hint.participant_ids)
        hints in
    codes "Someone owes this amount to settle "
    ++ format_expense_names (first_of 3 (map (λ hint. hint.description) related))
    ++ codes "."

-- A debtor or a creditor, with what is left of the amount.
pub record Side : Type 0 where
  pub participant_id : Text
  pub left : ℕ

-- The state of the loop: the debtors and creditors from their indexes on, and the suggestions.
pub record Matching : Type 0 where
  pub debtors : List Side
  pub creditors : List Side
  pub suggestions : List SettlementSuggestion

-- The head after `amount` is taken from it: the index moves on when nothing is left.
abbrev pub advance : ℕ → Side → List Side → List Side
advance amount side sides =
    if nat_beq (side.left - amount) 0
    then sides
    else record { participant_id = side.participant_id; left = side.left - amount } ∷ sides

-- The suggestion of one round.
abbrev pub suggestion : List SettlementExpenseHint → Text → Side → Side → SettlementSuggestion
suggestion hints currency debtor creditor = record {
  payer_participant_id = debtor.participant_id;
  payee_participant_id = creditor.participant_id;
  amount_minor = min debtor.left creditor.left;
  currency_code = currency;
  explanation = build_settlement_explanation debtor.participant_id creditor.participant_id hints;
}

-- The loop of `suggest`, for as many rounds as there is fuel.
unfoldable pub match_sides :
    List SettlementExpenseHint
    → Text
    → ℕ
    → List Side
    → List Side
    → List SettlementSuggestion
    → Matching
match_sides hints currency zero debtors creditors suggestions = record {
  debtors = debtors;
  creditors = creditors;
  suggestions = suggestions;
}
match_sides hints currency (suc fuel) [] creditors suggestions = record {
  debtors = [];
  creditors = creditors;
  suggestions = suggestions;
}
match_sides hints currency (suc fuel) (debtor ∷ debtors) [] suggestions = record {
  debtors = debtor ∷ debtors;
  creditors = [];
  suggestions = suggestions;
}
match_sides hints currency (suc fuel) (debtor ∷ debtors) (creditor ∷ creditors) suggestions =
    let amount = min debtor.left creditor.left in
    match_sides hints currency fuel (advance amount debtor debtors)
      (advance amount creditor creditors)
      (suggestions ++ suggestion hints currency debtor creditor ∷ [])

-- A row with the absolute value of its amount, and the order of the sort: larger amounts first.
abbrev pub side_of : NetBalance → Side
side_of row = record { participant_id = row.participant_id; left = abs row.amount_minor }

abbrev pub side_le : Side → Side → Bool
side_le left right = leb right.left left.left

unfoldable pub debtors_of : List NetBalance → List Side
debtors_of rows = sort side_le (map side_of (filter (λ row. ltb_ℤ row.amount_minor (pos 0)) rows))

unfoldable pub creditors_of : List NetBalance → List Side
creditors_of rows = sort side_le (map side_of (filter (λ row. ltb_ℤ (pos 0) row.amount_minor) rows))

-- The first loop of `suggest`: the rows by currency, without those that are zero.
unfoldable pub group_rows :
    Dict Text (List NetBalance) → List NetBalance → Dict Text (List NetBalance)
group_rows groups [] = groups
group_rows groups (row ∷ rows) =
    group_rows
      (if eqb_ℤ row.amount_minor (pos 0)
        then groups
        else set row.currency_code (or_default [] (get row.currency_code groups) ++ row ∷ [])
            groups)
      rows

-- The second loop; the fuel is the number of debtors and creditors.
unfoldable pub suggest_groups :
    List SettlementExpenseHint
    → List SettlementSuggestion
    → Dict Text (List NetBalance)
    → List SettlementSuggestion
unfolding match_sides debtors_of creditors_of
suggest_groups hints suggestions [] = suggestions
suggest_groups hints suggestions ((currency, rows) ∷ groups) =
    let debtors = debtors_of rows in
    let creditors = creditors_of rows in
    let fuel = length debtors + length creditors in
    suggest_groups hints (match_sides hints currency fuel debtors creditors suggestions).suggestions
      groups

-- `suggest`.
unfoldable pub suggest : List NetBalance → List SettlementExpenseHint → List SettlementSuggestion
unfolding suggest_groups group_rows
suggest balances hints = suggest_groups hints [] (group_rows [] balances)
