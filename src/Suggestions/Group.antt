-- ===== src/Suggestions/Group.antt =====
-- The suggestions for a group on the ledger (settlement-suggestion.service.ts with
-- apps/api/src/modules/ledger/balance.projector.ts).
use splitsaathi.Common.{
  All, Bool, List, [], ap, if◌then◌else◌, map, none, refl, true, ◌∙◌, ◌∷◌, ◌≡◌,
}
use splitsaathi.Common.Int.{pos, sum_by, ℤ, ◌+ℤ◌}
use splitsaathi.Common.Keys.{Text, text_eq, ◌==◌}
use splitsaathi.Common.Tally.{first_nonzero_iff, sum_at}
use splitsaathi.Balances.{BalanceRow, Balances, assert_zero_sum, list_group_balances}
use splitsaathi.Balances.ZeroSum.{IsPlainEvent}
use splitsaathi.EventStore.{Hashed, not_after}
use splitsaathi.Ledger.{LedgerState}
use splitsaathi.Ledger.Runs.{Reach, Reach-zero_sum, balance_projector}
use splitsaathi.Expenses.Projection.{ExpenseProjection, list_group_expenses}
use splitsaathi.Optimizer.{NetBalance}
use splitsaathi.Optimizer.Groups.{net_of}
use splitsaathi.Optimizer.Settling.{net_received, suggest-settles}
use splitsaathi.Suggestions.{expense_hints, net_balance, suggest_for_group}

sum_by-map :
    (f : NetBalance → ℤ) (rows : List BalanceRow)
    → sum_by f (map net_balance rows) ≡ sum_by (λ row. f (net_balance row)) rows
sum_by-map f [] = refl
sum_by-map f (row ∷ rows) = ap (λ rest. f (net_balance row) +ℤ rest) (sum_by-map f rows)

-- The rows that `assertZeroSum` does not report sum to zero in each currency.
even_rows :
    (earlier : Text → Text → Bool) (group : Text) (balances : Balances)
    → assert_zero_sum earlier group balances ≡ none
    → (c : Text)
    → sum_by
        (λ row. if c == row.currency_code then row.amount_minor else pos 0)
        (map net_balance (list_group_balances earlier group true balances))
      ≡ pos 0
unfolding assert_zero_sum sum_at
even_rows earlier group balances silent c =
    let rows = list_group_balances earlier group true balances in
    sum_by-map (λ row. if c == row.currency_code then row.amount_minor else pos 0) rows
    ∙ (first_nonzero_iff {A = BalanceRow} (λ row. row.currency_code) (λ row. row.amount_minor)
          rows).0
        silent c

-- What the balances of a group come to, for the participants and currencies that are chosen.
abbrev pub chosen_balance : (Text → Text → Bool) → (Text → Text → Bool) → Text → Balances → ℤ
chosen_balance earlier chosen group balances =
    sum_by (λ row. if chosen row.participant_id row.currency_code then row.amount_minor else pos 0)
      (list_group_balances earlier group true balances)

-- In every ledger reached, whatever was appended, and for any group: carrying the suggestions out
-- brings the chosen participants, in the chosen currencies, exactly what their balances are, if the
-- ids of groups and participants have no colon.
pub suggest_for_group-settles :
    {P Q : Type 0} (hash_payload : Hashed P Q → Text) (earlier not_after : Text → Text → Bool)
    (ledger : LedgerState (balance_projector {P = P})) (group : Text) (expenses : ExpenseProjection)
    (chosen : Text → Text → Bool)
    → Reach balance_projector hash_payload ledger
    → All IsPlainEvent ledger.store.events
    → net_received chosen (suggest_for_group earlier not_after group ledger.projection expenses)
      ≡ chosen_balance earlier chosen group ledger.projection
unfolding suggest_for_group
suggest_for_group-settles hash_payload earlier not_after ledger group expenses chosen reach plain =
    let rows = list_group_balances earlier group true ledger.projection in
    suggest-settles (map net_balance rows)
      (expense_hints (list_group_expenses not_after expenses group)) chosen
      (even_rows earlier group ledger.projection
        (Reach-zero_sum hash_payload earlier ledger group reach plain))
    ∙ sum_by-map (net_of chosen) rows
