-- ===== src/Recurring/Generating.antt =====
-- What a call of generateDue that returns has done
-- (apps/api/src/modules/recurring/recurring-expense.service.ts, lines 65-118).
use splitsaathi.Common.{List, Option, [], if◌then◌else◌, ok, ℕ, ◌∷◌, ◌≡◌}
use splitsaathi.Common.Keys.{Text}
use splitsaathi.Events.{DomainEvent}
use splitsaathi.EventStore.{Hashed}
use splitsaathi.Ledger.{LedgerState, Projector}
use splitsaathi.Recurring.{Date, GenerateRecurringExpensesCommand, RecurringScheduleRow}
use splitsaathi.Recurring.Projection.{RecurringPayload}
use splitsaathi.Recurring.Service.{ExpenseMaker, HashedRecurring, append_occurrence, colon, is_due}

module _ {Template : Type 0} (projector : Projector (RecurringPayload Template))
    (list_active : projector.State → List (RecurringScheduleRow Template))
    (get_row : projector.State → Text → Option (RecurringScheduleRow Template))
    (hash_payload : Hashed (RecurringPayload Template) (HashedRecurring Template) → Text)
    (now : Text) (random_uuid : ℕ → Text) (show_date : Date → Text)
    (expenses : ExpenseMaker Template) (command : GenerateRecurringExpensesCommand) where
  abbrev State : Type 0
  State = expenses.State × LedgerState projector

  -- From the one state, the expense was created with the template, the group and the date of the
  -- schedule; the occurrence with it, which moves the schedule on by its cadence, was then appended to
  -- the ledger; and these two lead to the other state.
  abbrev pub HasOccurred : RecurringScheduleRow Template → Text → State → State → Type 0
  HasOccurred schedule expense_id (made, ledger) next =
      (expenses.create schedule.template
          (colon command.idempotency_key
            (colon schedule.recurring_schedule_id (show_date schedule.next_run_date)))
          command.actor_id schedule.group_id schedule.next_run_date made
        ≡ (ok expense_id, next.0))
      × (events : List (DomainEvent (RecurringPayload Template))) × (append_occurrence projector
            list_active get_row hash_payload now random_uuid show_date expenses command schedule
            expense_id ledger
          ≡ ok (events, next.1))

  -- Each schedule that is due has occurred once, in order, each from the state that the one before it has
  -- led to, and has one pair; nothing is done for the others.
  abbrev pub AreGenerated :
      List (RecurringScheduleRow Template) → List (Text × Text) → State → State → Type 0
  AreGenerated [] pairs state last = (pairs ≡ []) × (last ≡ state)
  AreGenerated (schedule ∷ schedules) pairs state last =
      let later =
        (expense_id : Text) × (rest : List (Text × Text)) × (next : State) × (pairs
          ≡ (schedule.recurring_schedule_id, expense_id) ∷ rest)
        × HasOccurred schedule expense_id state next
        × AreGenerated schedules rest next last in
      let passed_over = AreGenerated schedules pairs state last in
      if is_due command.as_of_date schedule then later else passed_over
