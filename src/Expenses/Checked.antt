-- ===== src/Expenses/Checked.antt =====
-- The events of the expense commands and the checks of the event store
-- (apps/api/src/modules/expenses/expense-command.service.ts, lines 61-186).
use splitsaathi.EventStore.Checks.{check_events-accepts}
use splitsaathi.Common.{ok, refl, ℕ, ◌≡◌}
use splitsaathi.Common.Keys.{Text}
use splitsaathi.Rounding.{Doubles}
use splitsaathi.Events.{AppendEventsInput}
use splitsaathi.EventStore.{check_events}
use splitsaathi.Expenses.Commands.{ExpensePayload, ExpenseSnapshot}
use splitsaathi.Expenses.Service.{
  CreateExpenseCommand, VoidExpenseCommand, create_input, materialize_snapshot, revise_input,
  void_input,
}
use splitsaathi.Expenses.Totals.{IsSettled, materialize_snapshot-IsSettled}
use splitsaathi.Expenses.Balancing.{
  revise_postings-IsBalanced, snapshot_postings-IsBalanced, void_postings-IsBalanced,
}

abbrev pub IsChecked : {Q : Type 0} → AppendEventsInput ExpensePayload Q → Type 0
IsChecked input = check_events input.aggregate_type input.aggregate_id input.events ≡ ok tt

module _ (d : Doubles) where
  -- A materialized snapshot is posted by `createExpense`, replaces a settled one by `reviseExpense`, and
  -- a settled one is voided by `voidExpense`, with events that the checks of `append` accept.
  pub commands-IsChecked :
      (id : Text) (command : CreateExpenseCommand d) (existing expense : ExpenseSnapshot)
      (expected : ℕ) (void : VoidExpenseCommand d)
      → materialize_snapshot d id command ≡ ok expense
      → IsSettled existing
      → IsChecked (create_input d command expense)
        × IsChecked (
            revise_input d
              (record { fields = command; expense_id = id; expected_version = expected })
              existing
              expense)
        × IsChecked (void_input d void existing)
  commands-IsChecked id command existing expense expected void run settled =
      let (new, same_id, same_group) = materialize_snapshot-IsSettled d id command expense run in
      (
        check_events-accepts _ _ _ ((refl, refl, snapshot_postings-IsBalanced expense new), tt),
        check_events-accepts _ _ _
            ((refl, refl, revise_postings-IsBalanced existing expense settled new), tt),
        check_events-accepts _ _ _ ((refl, refl, void_postings-IsBalanced existing settled), tt),
      )
