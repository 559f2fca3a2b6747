-- ===== src/Suggestions.antt =====
-- `SettlementSuggestionService`:
-- apps/api/src/modules/settlements/settlement-suggestion.service.ts.
pub mod Group
mod Tests
use splitsaathi.Common.{Bool, List, [], false, filter, map, set_onto, true, ◌++◌}
use splitsaathi.Common.Keys.{Text, text_eq, ◌==◌}
use splitsaathi.Balances.{BalanceRow, Balances, list_group_balances}
use splitsaathi.Expenses.Commands.{ExpenseProjectionRow, active, voided}
use splitsaathi.Expenses.Projection.{ExpenseProjection, list_group_expenses}
use splitsaathi.Optimizer.{NetBalance, SettlementExpenseHint, SettlementSuggestion, suggest}

abbrev is_active : ExpenseProjectionRow → Bool
is_active row = elim row.status [ active ↦ true | voided ↦ false ]

-- The hints: the active expenses of a group, each with its payers and those who share in it.
abbrev pub expense_hint : ExpenseProjectionRow → SettlementExpenseHint
expense_hint row = record {
  description = row.snapshot.description;
  participant_ids =
      set_onto (λ a b. a == b) []
        (map (λ payer. payer.participant_id) row.snapshot.payers
          ++ map (λ share. share.participant_id) row.snapshot.shares);
}

abbrev pub expense_hints : List ExpenseProjectionRow → List SettlementExpenseHint
expense_hints rows = map expense_hint (filter is_active rows)

-- The balance of a row, as the optimizer takes it.
abbrev pub net_balance : BalanceRow → NetBalance
net_balance row = record {
  participant_id = row.participant_id;
  amount_minor = row.amount_minor;
  currency_code = row.currency_code;
}

-- `suggestForGroup`; `earlier` and `not_after` compare texts in the locale.
unfoldable pub suggest_for_group :
    (Text → Text → Bool)
    → (Text → Text → Bool)
    → Text
    → Balances
    → ExpenseProjection
    → List SettlementSuggestion
unfolding suggest list_group_balances list_group_expenses set_onto
suggest_for_group earlier not_after group balances expenses =
    suggest (map net_balance (list_group_balances earlier group true balances))
      (expense_hints (list_group_expenses not_after expenses group))
