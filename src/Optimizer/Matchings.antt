-- ===== src/Optimizer/Matchings.antt =====
-- What the loop over debtors and creditors computes
-- (packages/domain/src/settlement-optimizer.ts, lines 69-86).
use Prim.Native.Nat.{min}
use splitsaathi.Common.{
  Bool, List, [], arith, inl, inr, length, refl, suc, zero, ℕ, ◌++◌, ◌+◌, ◌∙◌, ◌∷◌, ◌≡◌, ◌≤◌, ◌⊎◌,
}
use splitsaathi.Common.Keys.{Text}
use splitsaathi.Optimizer.{
  SettlementExpenseHint, SettlementSuggestion, Side, advance, match_sides, suggestion,
}
use splitsaathi.Optimizer.Rounds.{
  left_sum, left_sum-advance, paid_sum, paid_sum-append, received_sum, received_sum-append,
  rounds_down,
}

module _ (hints : List SettlementExpenseHint) (currency : Text) where
  -- With fuel for every debtor and creditor, the loop ends with no debtor or no creditor left.
  pub match_sides-ends :
      (fuel : ℕ) (debtors creditors : List Side) (suggestions : List SettlementSuggestion)
      → length debtors + length creditors ≤ fuel
      → let end = match_sides hints currency fuel debtors creditors suggestions in
        (end.debtors ≡ []) ⊎ (end.creditors ≡ [])
  unfolding match_sides
  match_sides-ends zero [] creditors suggestions enough = inl refl
  match_sides-ends zero (debtor ∷ debtors) creditors suggestions enough =
      absurd (omega (arith, enough))
  match_sides-ends (suc fuel) [] creditors suggestions enough = inl refl
  match_sides-ends (suc fuel) (debtor ∷ debtors) [] suggestions enough = inr refl
  match_sides-ends (suc fuel) (debtor ∷ debtors) (creditor ∷ creditors) suggestions enough =
      match_sides-ends fuel _ _ _
        (omega (arith, rounds_down debtor creditor debtors creditors, enough))

  module _ (chosen : Text → Text → Bool) where
    abbrev here : Text → Bool
    here id = chosen id currency

    -- What the chosen debtors pay is what is missing from their amounts.
    pub match_sides-paid :
        (fuel : ℕ) (debtors creditors : List Side) (suggestions : List SettlementSuggestion)
        → let end = match_sides hints currency fuel debtors creditors suggestions in
          paid_sum chosen end.suggestions + left_sum here end.debtors
          ≡ paid_sum chosen suggestions + left_sum here debtors
    unfolding match_sides
    match_sides-paid zero debtors creditors suggestions = refl
    match_sides-paid (suc fuel) [] creditors suggestions = refl
    match_sides-paid (suc fuel) (debtor ∷ debtors) [] suggestions = refl
    match_sides-paid (suc fuel) (debtor ∷ debtors) (creditor ∷ creditors) suggestions =
        let amount = min debtor.left creditor.left in
        match_sides-paid fuel (advance amount debtor debtors) (advance amount creditor creditors)
          (suggestions ++ suggestion hints currency debtor creditor ∷ [])
        ∙ omega (
          arith,
          paid_sum-append chosen suggestions (suggestion hints currency debtor creditor),
          left_sum-advance here amount debtor debtors (omega arith),
        )

    -- And what the chosen creditors receive is what is missing from theirs.
    pub match_sides-received :
        (fuel : ℕ) (debtors creditors : List Side) (suggestions : List SettlementSuggestion)
        → let end = match_sides hints currency fuel debtors creditors suggestions in
          received_sum chosen end.suggestions + left_sum here end.creditors
          ≡ received_sum chosen suggestions + left_sum here creditors
    unfolding match_sides
    match_sides-received zero debtors creditors suggestions = refl
    match_sides-received (suc fuel) [] creditors suggestions = refl
    match_sides-received (suc fuel) (debtor ∷ debtors) [] suggestions = refl
    match_sides-received (suc fuel) (debtor ∷ debtors) (creditor ∷ creditors) suggestions =
        let amount = min debtor.left creditor.left in
        match_sides-received fuel (advance amount debtor debtors)
          (advance amount creditor creditors)
          (suggestions ++ suggestion hints currency debtor creditor ∷ [])
        ∙ omega (
          arith,
          received_sum-append chosen suggestions (suggestion hints currency debtor creditor),
          left_sum-advance here amount creditor creditors (omega arith),
        )
