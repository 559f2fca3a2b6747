-- ===== src/Optimizer/Counts.antt =====
-- The amounts and the number of the suggestions (packages/domain/src/settlement-optimizer.ts).
use Prim.Native.Nat.{min, ◌<◌}
use splitsaathi.Common.{
  All, All-append, Bool-cases, List, [], arith, filter, inl, inr, length, length-append, map,
  nat_beq, suc, zero, ℕ, ◌++◌, ◌+◌, ◌-◌, ◌<◌, ◌∷◌, ◌≡◌, ◌≤◌,
}
use splitsaathi.Common.Keys.{Text, text_eq, ◌==◌}
use splitsaathi.Optimizer.{
  NetBalance, SettlementExpenseHint, SettlementSuggestion, Side, advance, creditors_of, debtors_of,
  group_rows, match_sides, side_le, side_of, suggest, suggest_groups, suggestion,
}
use splitsaathi.Optimizer.Rounds.{rounds_down}
use splitsaathi.Common.Int.{eqb_ℤ, ltb_ℤ, pos}
use splitsaathi.Common.Dict.{Dict, set}
use splitsaathi.Common.Sort.{sort-All, sort-length}
use splitsaathi.Optimizer.Groups.{file_row, rows_at}

-- Something is left of each side.
abbrev IsOpen : List Side → Type 0
IsOpen sides = All (λ side. 0 < side.left) sides

-- Each suggestion has a positive amount.
abbrev pub IsPositive : List SettlementSuggestion → Type 0
IsPositive suggestions = All (λ s. 0 < s.amount_minor) suggestions

advance-IsOpen :
    (amount : ℕ) (side : Side) (sides : List Side)
    → IsOpen sides
    → IsOpen (advance amount side sides)
advance-IsOpen amount side sides positive = elim (Bool-cases (nat_beq (side.left - amount) 0)) [
  | inl closed ↦ rw closed positive
  | inr still ↦ rw still (ground arith, positive)
]

module _ (hints : List SettlementExpenseHint) (currency : Text) where
  match_sides-IsPositive :
      (fuel : ℕ) (debtors creditors : List Side) (suggestions : List SettlementSuggestion)
      → IsOpen debtors
      → IsOpen creditors
      → IsPositive suggestions
      → IsPositive (match_sides hints currency fuel debtors creditors suggestions).suggestions
  unfolding match_sides
  match_sides-IsPositive zero debtors creditors suggestions ds cs positive = positive
  match_sides-IsPositive (suc fuel) [] creditors suggestions ds cs positive = positive
  match_sides-IsPositive (suc fuel) (debtor ∷ debtors) [] suggestions ds cs positive = positive
  match_sides-IsPositive (suc fuel) (debtor ∷ debtors) (creditor ∷ creditors) suggestions ds cs
        positive =
      let amount = min debtor.left creditor.left in
      match_sides-IsPositive fuel (advance amount debtor debtors)
        (advance amount creditor creditors)
        (suggestions ++ suggestion hints currency debtor creditor ∷ [])
        (advance-IsOpen amount debtor debtors ds.1) (advance-IsOpen amount creditor creditors cs.1)
        (All-append (λ s. 0 < s.amount_minor) suggestions
          (suggestion hints currency debtor creditor ∷ []) positive (omega (arith, ds.0, cs.0), tt))

  match_sides-length :
      (fuel : ℕ) (debtors creditors : List Side) (suggestions : List SettlementSuggestion)
      → length (match_sides hints currency fuel debtors creditors suggestions).suggestions
        ≤ length suggestions + (length debtors + length creditors)
  unfolding match_sides
  match_sides-length zero debtors creditors suggestions = omega arith
  match_sides-length (suc fuel) [] creditors suggestions = omega arith
  match_sides-length (suc fuel) (debtor ∷ debtors) [] suggestions = omega arith
  match_sides-length (suc fuel) (debtor ∷ debtors) (creditor ∷ creditors) suggestions =
      let amount = min debtor.left creditor.left in
      omega (
        arith,
        match_sides-length fuel (advance amount debtor debtors) (advance amount creditor creditors)
            (suggestions ++ suggestion hints currency debtor creditor ∷ []),
        length-append suggestions (suggestion hints currency debtor creditor ∷ []),
        rounds_down debtor creditor debtors creditors,
      )

sides-IsOpen : (rows : List NetBalance) → IsOpen (debtors_of rows) × IsOpen (creditors_of rows)
unfolding debtors_of creditors_of
sides-IsOpen rows = (
  sort-All side_le (λ side. 0 < side.left) _ (debtors rows),
  sort-All side_le (λ side. 0 < side.left) _ (creditors rows),
)
  where
    debtors :
        (rows : List NetBalance)
        → IsOpen (map side_of (filter (λ row. ltb_ℤ row.amount_minor (pos 0)) rows))
    debtors [] = tt
    debtors (row ∷ rows) = elim (Bool-cases (ltb_ℤ row.amount_minor (pos 0))) [
      | inl debt ↦ rw debt (ground arith, debtors rows)
      | inr other ↦ rw other (debtors rows)
    ]

    creditors :
        (rows : List NetBalance)
        → IsOpen (map side_of (filter (λ row. ltb_ℤ (pos 0) row.amount_minor) rows))
    creditors [] = tt
    creditors (row ∷ rows) = elim (Bool-cases (ltb_ℤ (pos 0) row.amount_minor)) [
      | inl credit ↦ rw credit (ground arith, creditors rows)
      | inr other ↦ rw other (creditors rows)
    ]

-- A row is a debtor or a creditor, not both.
sides-length :
    (rows : List NetBalance) → length (debtors_of rows) + length (creditors_of rows) ≤ length rows
unfolding debtors_of creditors_of
sides-length rows = omega (
  arith,
  counted rows,
  sort-length side_le (map side_of (filter (λ row. ltb_ℤ row.amount_minor (pos 0)) rows)),
  sort-length side_le (map side_of (filter (λ row. ltb_ℤ (pos 0) row.amount_minor) rows)),
)
  where
    counted :
        (rows : List NetBalance)
        → length (map side_of (filter (λ row. ltb_ℤ row.amount_minor (pos 0)) rows))
            + length (map side_of (filter (λ row. ltb_ℤ (pos 0) row.amount_minor) rows))
          ≤ length rows
    counted [] = omega arith
    counted (row ∷ rows) = grind (arith, counted rows)

-- The number of rows in all groups.
abbrev rows_count : Dict Text (List NetBalance) → ℕ
rows_count [] = 0
rows_count ((c, rows) ∷ groups) = length rows + rows_count groups

rows_count-set :
    (c : Text) (rows : List NetBalance) (groups : Dict Text (List NetBalance))
    → rows_count (set c rows groups) + length (rows_at c groups) ≡ rows_count groups + length rows
rows_count-set c rows [] = omega arith
rows_count-set c rows ((k, old) ∷ groups) = elim (Bool-cases (c == k)) [
  | inl same ↦ rw same (omega arith)
  | inr other ↦ rw other (omega (arith, rows_count-set c rows groups))
]

rows_count-group_rows :
    (groups : Dict Text (List NetBalance)) (rows : List NetBalance)
    → rows_count (group_rows groups rows) ≤ rows_count groups + length rows
unfolding group_rows
rows_count-group_rows groups [] = omega arith
rows_count-group_rows groups (row ∷ rows) =
    let one_more : rows_count (file_row groups row) ≤ suc (rows_count groups) =
      elim (Bool-cases (eqb_ℤ row.amount_minor (pos 0))) [
        | inl zero_amount ↦ rw zero_amount (omega arith)
        | inr nonzero ↦ rw nonzero (
            omega (
              arith,
              rows_count-set row.currency_code (rows_at row.currency_code groups ++ row ∷ [])
                  groups,
              length-append (rows_at row.currency_code groups) (row ∷ []),
            ))
      ] in
    omega (arith, rows_count-group_rows (file_row groups row) rows, one_more)

suggest_groups-bounds :
    (hints : List SettlementExpenseHint) (suggestions : List SettlementSuggestion)
    (groups : Dict Text (List NetBalance))
    → IsPositive suggestions
    → IsPositive (suggest_groups hints suggestions groups)
      × (length (suggest_groups hints suggestions groups) ≤ length suggestions + rows_count groups)
unfolding suggest_groups
suggest_groups-bounds hints suggestions [] positive = (positive, omega arith)
suggest_groups-bounds hints suggestions ((c, rows) ∷ groups) positive =
    let fuel = length (debtors_of rows) + length (creditors_of rows) in
    let next =
      (match_sides hints c fuel (debtors_of rows) (creditors_of rows) suggestions).suggestions in
    let (ds, cs) = sides-IsOpen rows in
    let (later, few) = suggest_groups-bounds hints next groups (
      match_sides-IsPositive hints c fuel (debtors_of rows) (creditors_of rows) suggestions ds cs
        positive) in
    (
      later,
      omega (
        arith,
        few,
        match_sides-length hints c fuel (debtors_of rows) (creditors_of rows) suggestions,
        sides-length rows,
      ),
    )

-- Every suggestion moves a positive amount, and there are at most as many as balances.
pub suggest-bounds :
    (balances : List NetBalance) (hints : List SettlementExpenseHint)
    → IsPositive (suggest balances hints) × (length (suggest balances hints) ≤ length balances)
unfolding suggest
suggest-bounds balances hints =
    let (positive, few) = suggest_groups-bounds hints [] (group_rows [] balances) tt in
    (positive, omega (arith, few, rows_count-group_rows [] balances))
