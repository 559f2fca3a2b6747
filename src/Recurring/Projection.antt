-- ===== src/Recurring/Projection.antt =====
-- `RecurringProjector`: apps/api/src/modules/recurring/recurring.projector.ts.
use splitsaathi.Common.{
  Bool, List, Option, Result, [], err, false, filter, none, ok, or_default, some, true, ◌++◌, ◌∷◌,
}
use splitsaathi.Common.Keys.{Text, codes, text_eq, ◌==◌}
use splitsaathi.Common.Dict.{Dict, get, set, values}
use splitsaathi.Events.{
  DomainEvent, EventType, recurring_expense_generated, recurring_schedule_created,
}
use splitsaathi.Recurring.{
  Date, RecurringCadence, RecurringScheduleRow, ScheduleStatus, active, paused,
}

-- The payload of `RecurringScheduleCreated`.
pub record SchedulePayload (Template : Type 0) : Type 0 where
  pub recurring_schedule_id : Text
  pub group_id : Text
  pub cadence : RecurringCadence
  pub start_date : Date
  pub next_run_date : Date
  pub template : Template

-- The payload of `RecurringExpenseGenerated`.
pub record OccurrencePayload : Type 0 where
  pub recurring_schedule_id : Text
  pub occurrence_date : Date
  pub expense_id : Text
  pub next_run_date : Date

pub data RecurringPayload (Template : Type 0) : Type 0 where
  schedule_payload : SchedulePayload Template → RecurringPayload Template
  occurrence_payload : OccurrencePayload → RecurringPayload Template

-- What `apply` throws.
pub data MissingSchedule : Type 0 where
  missing_schedule : Text → MissingSchedule

-- `schedule.status === 'active'`
abbrev pub is_active_status : ScheduleStatus → Bool
is_active_status active = true
is_active_status paused = false

module _ {Template : Type 0} where
  abbrev pub created_row :
      DomainEvent (RecurringPayload Template)
      → SchedulePayload Template
      → RecurringScheduleRow Template
  created_row event payload = record {
    recurring_schedule_id = payload.recurring_schedule_id;
    group_id = payload.group_id;
    cadence = payload.cadence;
    start_date = payload.start_date;
    next_run_date = payload.next_run_date;
    status = active;
    template = payload.template;
    created_by = or_default (codes "system") event.actor_id;
    created_at = event.occurred_at;
    updated_at = event.occurred_at;
    generated_expense_ids = [];
  }

  -- A schedule after an occurrence.
  unfoldable pub occurred :
      DomainEvent (RecurringPayload Template)
      → OccurrencePayload
      → RecurringScheduleRow Template
      → RecurringScheduleRow Template
  occurred event payload row = record row {
    generated_expense_ids = row.generated_expense_ids ++ payload.expense_id ∷ [];
    next_run_date = payload.next_run_date;
    updated_at = event.occurred_at;
  }

  unfoldable pub occur_at :
      DomainEvent (RecurringPayload Template)
      → OccurrencePayload
      → Option (RecurringScheduleRow Template)
      → Dict Text (RecurringScheduleRow Template)
      → Result MissingSchedule (Dict Text (RecurringScheduleRow Template))
  unfolding occurred
  occur_at event payload none schedules = err (missing_schedule payload.recurring_schedule_id)
  occur_at event payload (some row) schedules =
      ok (set payload.recurring_schedule_id (occurred event payload row) schedules)

  -- `apply`, by the type and the payload.
  unfoldable pub apply_payload :
      DomainEvent (RecurringPayload Template)
      → EventType
      → RecurringPayload Template
      → Dict Text (RecurringScheduleRow Template)
      → Result MissingSchedule (Dict Text (RecurringScheduleRow Template))
  unfolding occur_at
  apply_payload event recurring_schedule_created (schedule_payload payload) schedules =
      ok (set payload.recurring_schedule_id (created_row event payload) schedules)
  apply_payload event recurring_expense_generated (occurrence_payload payload) schedules =
      occur_at event payload (get payload.recurring_schedule_id schedules) schedules
  apply_payload event _ _ schedules = ok schedules

  unfoldable pub apply :
      Dict Text (RecurringScheduleRow Template)
      → DomainEvent (RecurringPayload Template)
      → Result MissingSchedule (Dict Text (RecurringScheduleRow Template))
  unfolding apply_payload
  apply schedules event = apply_payload event event.type event.payload schedules

  -- `listActiveSchedules` and `listGroupSchedules`.
  unfoldable pub list_active_schedules :
      Dict Text (RecurringScheduleRow Template) → List (RecurringScheduleRow Template)
  list_active_schedules schedules = filter (λ row. is_active_status row.status) (values schedules)

  unfoldable pub list_group_schedules :
      Text → Dict Text (RecurringScheduleRow Template) → List (RecurringScheduleRow Template)
  list_group_schedules group schedules = filter (λ row. row.group_id == group) (values schedules)

  -- `getSchedule`.
  abbrev pub get_schedule :
      Text → Dict Text (RecurringScheduleRow Template) → Option (RecurringScheduleRow Template)
  get_schedule id schedules = get id schedules
