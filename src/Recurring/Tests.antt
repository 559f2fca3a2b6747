-- ===== src/Recurring/Tests.antt =====
-- Tests of the recurring expenses (apps/api/src/modules/recurring).
use splitsaathi.Postings.{create}
use splitsaathi.Common.Tally.{add_totals, first_nonzero}
use splitsaathi.Common.Dict.{Dict}
use splitsaathi.Common.{[], err, ok, refl, ℕ, ◌+◌, ◌∷◌, ◌≡◌}
use splitsaathi.Common.Keys.{Text, codes, text_beq}
use splitsaathi.Events.{DomainEvent}
use splitsaathi.EventStore.{
  append, append_new, append_stored, check_events, earlier_record, empty_store,
  get_last_global_position, get_version, idempotency_key, stored_events, stream_key,
}
use splitsaathi.Ledger.{LedgerState, Projector, append_and_project, project}
use splitsaathi.Recurring.{
  Date, GenerateRecurringExpensesCommand, RecurringScheduleRow, active, add_cadence, days_in_month,
  monthly, weekly,
}
use splitsaathi.Recurring.Projection.{RecurringPayload, apply, get_schedule, list_active_schedules}
use splitsaathi.Recurring.Service.{ExpenseMaker, generate_due}

abbrev day_of : ℕ → ℕ → ℕ → Date
day_of year month day = record { year = year; month = month; day = day }

weekly_test : add_cadence (day_of 2024 12 28) weekly ≡ day_of 2025 1 4
unfolding add_cadence days_in_month
weekly_test = refl

-- A monthly schedule that starts on the 31st of January has no run in February, and runs on the third
-- from then on.
monthly_test : add_cadence (day_of 2025 1 31) monthly ≡ day_of 2025 3 3
unfolding add_cadence days_in_month
monthly_test = refl

abbrev rent : RecurringScheduleRow ℕ
rent = record {
  recurring_schedule_id = codes "r";
  group_id = codes "g";
  cadence = monthly;
  start_date = day_of 2025 1 1;
  next_run_date = day_of 2025 1 1;
  status = active;
  template = 7;
  created_by = codes "a";
  created_at = codes "t";
  updated_at = codes "t";
  generated_expense_ids = [];
}

abbrev some_id : ℕ → Text
some_id n = n ∷ []

-- The projector, which leaves the schedules as they are at an event that it refuses.
abbrev apply_or_keep :
    Dict Text (RecurringScheduleRow ℕ)
    → DomainEvent (RecurringPayload ℕ)
    → Dict Text (RecurringScheduleRow ℕ)
apply_or_keep schedules event = elim (apply schedules event) [
  | ok next ↦ next
  | err why ↦ schedules
]

abbrev projector : Projector (RecurringPayload ℕ)
projector = record { State = Dict Text (RecurringScheduleRow ℕ); apply = apply_or_keep; reset = [] }

-- Expenses with numbers as ids.
abbrev numbered : ExpenseMaker ℕ
numbered = record { State = ℕ; create = λ t key actor group date n. (ok (n ∷ []), n + 1) }

abbrev rent_ledger : LedgerState projector
rent_ledger = record { store = empty_store; projection = (codes "r", rent) ∷ [] }

abbrev fifth_of_january : GenerateRecurringExpensesCommand
fifth_of_january = record {
  idempotency_key = codes "k";
  actor_id = codes "a";
  as_of_date = day_of 2025 1 5;
}

generate_test :
    (generate_due projector list_active_schedules
      (λ s id. get_schedule id s)
      (λ p. codes "h")
      (codes "u")
      some_id
      (λ d. codes "d")
      numbered
      fifth_of_january
      (4, rent_ledger)).0
    ≡ ok ((codes "r", 4 ∷ []) ∷ [])
unfolding generate_due append_and_project append append_new append_stored stored_events
    earlier_record idempotency_key stream_key check_events create text_beq project
    get_last_global_position first_nonzero add_totals list_active_schedules get_version
generate_test = refl

abbrev rent_after : ℕ × LedgerState projector
unfolding generate_due append_and_project append append_new append_stored stored_events
    earlier_record idempotency_key stream_key check_events create text_beq project
    get_last_global_position first_nonzero add_totals list_active_schedules get_version
rent_after =
    (generate_due projector list_active_schedules (λ s id. get_schedule id s) (λ p. codes "h")
      (codes "u") some_id (λ d. codes "d") numbered fifth_of_january (4, rent_ledger)).1
