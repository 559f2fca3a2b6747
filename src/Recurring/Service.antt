-- ===== src/Recurring/Service.antt =====
-- `RecurringExpenseService`: apps/api/src/modules/recurring/recurring-expense.service.ts.
use splitsaathi.Common.{
  Bool, List, Option, Result, [], err, false, none, not, ok, or_default, some, true, ℕ, ◌++◌, ◌>>=◌,
  ◌∷◌,
}
use splitsaathi.Common.Keys.{Text, codes}
use splitsaathi.Events.{
  DomainEvent, EventType, NewDomainEvent, recurring_expense_generated, recurring_schedule_created,
  version,
}
use splitsaathi.EventStore.{Hashed, StoreError, get_version}
use splitsaathi.Ledger.{LedgerState, Projector, append_and_project}
use splitsaathi.Recurring.{
  CreateRecurringScheduleCommand, Date, GenerateRecurringExpensesCommand, RecurringScheduleRow,
  add_cadence, is_later,
}
use splitsaathi.Recurring.Projection.{
  OccurrencePayload, RecurringPayload, occurrence_payload, schedule_payload,
}

-- What the commands throw. The message of a refused expense is that of the expenses.
pub data RecurringError : Type 0 where
  expense_refused : Text → RecurringError
  schedule_not_appended : StoreError → RecurringError
  schedule_not_projected : Text → RecurringError

-- The payloads whose hashes are recorded.
pub data HashedRecurring (Template : Type 0) : Type 0 where
  schedule_command : CreateRecurringScheduleCommand Template → HashedRecurring Template
  occurrence : Text → Date → Text → HashedRecurring Template

-- `ExpenseCommandService.createExpense` for a template, with its key, actor, group and date: the id of
-- the expense, or the message of the error, and the state after it.
pub record ExpenseMaker (Template : Type 0) : Type 1 where
  pub State : Type 0
  pub create : Template → Text → Text → Text → Date → State → Result Text Text × State

abbrev pub recurring_appended : {A : Type 0} → Result StoreError A → Result RecurringError A
recurring_appended result = elim result [ ok a ↦ ok a | err why ↦ err (schedule_not_appended why) ]

-- An event of a schedule.
abbrev pub schedule_event :
    {Template : Type 0}
    → EventType
    → Text
    → Text
    → Text
    → RecurringPayload Template
    → NewDomainEvent (RecurringPayload Template)
schedule_event type id group_id actor_id payload = record {
  type = type;
  aggregate_type = codes "recurring_schedule";
  aggregate_id = id;
  group_id = some group_id;
  actor_id = some actor_id;
  payload = payload;
  postings = none;
}

-- `schedule.nextRunDate > asOf` does not hold.
abbrev pub is_due : {Template : Type 0} → Date → RecurringScheduleRow Template → Bool
is_due as_of schedule = not (is_later schedule.next_run_date as_of)

-- The payload of an occurrence: the schedule moves on by its cadence.
abbrev pub occurrence_of :
    {Template : Type 0} → RecurringScheduleRow Template → Text → OccurrencePayload
occurrence_of schedule expense_id = record {
  recurring_schedule_id = schedule.recurring_schedule_id;
  occurrence_date = schedule.next_run_date;
  expense_id = expense_id;
  next_run_date = add_cadence schedule.next_run_date schedule.cadence;
}

-- `${a}:${b}`
abbrev pub colon : Text → Text → Text
colon a b = a ++ (codes ":" ++ b)

-- `events[0].aggregateId`, or the id of the call.
abbrev first_schedule_id : {P : Type 0} → Text → List (DomainEvent P) → Text
first_schedule_id id [] = id
first_schedule_id id (event ∷ events) = event.aggregate_id

module _ {Template : Type 0} (projector : Projector (RecurringPayload Template))
    (list_active : projector.State → List (RecurringScheduleRow Template))
    (get_row : projector.State → Text → Option (RecurringScheduleRow Template))
    (hash_payload : Hashed (RecurringPayload Template) (HashedRecurring Template) → Text)
    (now : Text) (random_uuid : ℕ → Text) (show_date : Date → Text) where
  -- `createSchedule`.
  unfoldable pub create_schedule :
      Text
      → CreateRecurringScheduleCommand Template
      → LedgerState projector
      → Result RecurringError (
          Result RecurringError (RecurringScheduleRow Template)
          × List (DomainEvent (RecurringPayload Template))
          × LedgerState projector)
  create_schedule new_id command ledger = do
    let id = or_default new_id command.recurring_schedule_id
    (events, next) ← recurring_appended (
        append_and_project projector hash_payload now random_uuid
          (record {
            aggregate_type = codes "recurring_schedule";
            aggregate_id = id;
            expected_version = version 0;
            events =
                schedule_event recurring_schedule_created id command.group_id command.actor_id (
                  schedule_payload (record {
                    recurring_schedule_id = id;
                    group_id = command.group_id;
                    cadence = command.cadence;
                    start_date = command.start_date;
                    next_run_date = command.start_date;
                    template = command.template;
                  }))
                ∷ [];
            idempotency_key = some command.idempotency_key;
            idempotency_payload = some (schedule_command command);
          })
          ledger)
    let first = first_schedule_id id events
    ok (
      elim (get_row next.projection first) [
        | some schedule ↦ ok schedule
        | none ↦ err (schedule_not_projected first)
      ],
      events,
      next,
    )

  module _ (expenses : ExpenseMaker Template) (command : GenerateRecurringExpensesCommand) where
    -- The append of an occurrence whose expense was created.
    unfoldable pub append_occurrence :
        RecurringScheduleRow Template
        → Text
        → LedgerState projector
        → Result RecurringError
            (List (DomainEvent (RecurringPayload Template)) × LedgerState projector)
    append_occurrence schedule expense_id ledger =
        let id = schedule.recurring_schedule_id in
        recurring_appended (
          append_and_project projector hash_payload now random_uuid
            (record {
              aggregate_type = codes "recurring_schedule";
              aggregate_id = id;
              expected_version = version (get_version (codes "recurring_schedule") id ledger.store);
              events =
                  schedule_event recurring_expense_generated id schedule.group_id command.actor_id
                    (occurrence_payload (occurrence_of schedule expense_id))
                  ∷ [];
              idempotency_key = some (
                  colon command.idempotency_key
                    (colon (codes "occurrence") (colon id (show_date schedule.next_run_date))));
              idempotency_payload = some (occurrence id schedule.next_run_date expense_id);
            })
            ledger)

    abbrev pub Generating : Type 0
    Generating = expenses.State × LedgerState projector

    -- The rest of the body of the loop, after `createExpense`.
    unfoldable pub record_occurrence :
        RecurringScheduleRow Template
        → Result Text Text × expenses.State
        → LedgerState projector
        → Result RecurringError (Text × Text) × Generating
    unfolding append_occurrence
    record_occurrence schedule (err why, made) ledger = (err (expense_refused why), (made, ledger))
    record_occurrence schedule (ok expense_id, made) ledger =
        elim (append_occurrence schedule expense_id ledger) [
          | err why ↦ (err why, (made, ledger))
          | ok (events, next) ↦ (ok (schedule.recurring_schedule_id, expense_id), (made, next))
        ]

    -- The body of the loop, for a schedule that is due.
    unfoldable pub generate_one :
        RecurringScheduleRow Template
        → Generating
        → Result RecurringError (Text × Text) × Generating
    unfolding record_occurrence
    generate_one schedule (made, ledger) =
        record_occurrence schedule
          (expenses.create schedule.template
            (colon command.idempotency_key
              (colon schedule.recurring_schedule_id (show_date schedule.next_run_date)))
            command.actor_id schedule.group_id schedule.next_run_date made)
          ledger

    -- The loop. An error ends it, with the state that was reached.
    unfoldable pub generate_all :
        List (RecurringScheduleRow Template)
        → List (Text × Text)
        → Generating
        → Result RecurringError (List (Text × Text)) × Generating
    unfolding generate_one is_later
    generate_all [] generated state = (ok generated, state)
    generate_all (schedule ∷ schedules) generated state =
        elim (is_due command.as_of_date schedule) [
          | false ↦ generate_all schedules generated state
          | true ↦
              let (outcome, next) = generate_one schedule state in
              elim outcome [
                | err why ↦ (err why, next)
                | ok pair ↦ generate_all schedules (generated ++ pair ∷ []) next
              ]
        ]

    -- `generateDue`, less the events that it returns.
    unfoldable pub generate_due :
        Generating → Result RecurringError (List (Text × Text)) × Generating
    unfolding generate_all
    generate_due (made, ledger) = generate_all (list_active ledger.projection) [] (made, ledger)
