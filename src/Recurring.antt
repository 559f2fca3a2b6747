-- ===== src/Recurring.antt =====
-- Recurring expenses: apps/api/src/modules/recurring/recurring.types.ts, and addCadence of
-- apps/api/src/modules/recurring/recurring-expense.service.ts.
pub mod Projection
pub mod Service
pub mod Generating
mod Tests
use splitsaathi.Common.{
  Bool, List, Option, if◌then◌else◌, leb, ltb, nat_beq, not, ℕ, ◌%◌, ◌&&◌, ◌+◌, ◌-◌, ◌||◌,
}
use splitsaathi.Common.Keys.{Text}

-- A date, which the source writes as a text of the form YYYY-MM-DD. The order of such texts is that of
-- the years, months and days.
pub record Date : Type 0 where
  pub year : ℕ
  pub month : ℕ
  pub day : ℕ

abbrev pub divides : ℕ → ℕ → Bool
divides k n = nat_beq (n % k) 0

abbrev pub is_leap : ℕ → Bool
is_leap year = divides 4 year && (not (divides 100 year) || divides 400 year)

unfoldable pub days_in_month : ℕ → ℕ → ℕ
days_in_month year month =
    if nat_beq month 2
    then (if is_leap year then 29 else 28)
    else if nat_beq month 4 || nat_beq month 6 || nat_beq month 9 || nat_beq month 11
    then 30
    else 31

abbrev pub month_after : ℕ → ℕ → ℕ → Date
month_after year month day =
    if nat_beq month 12
    then record { year = year + 1; month = 1; day = day }
    else record { year = year; month = month + 1; day = day }

-- What a Date makes of a day past the end of its month. One month is all that the steps below go past.
unfoldable pub carry : Date → Date
carry date =
    let days = days_in_month date.year date.month in
    if leb date.day days then date else month_after date.year date.month (date.day - days)

-- `RecurringCadence`.
pub data RecurringCadence : Type 0 where
  weekly monthly : RecurringCadence

-- `addCadence`, for a date that can be read.
unfoldable pub add_cadence : Date → RecurringCadence → Date
unfolding carry
add_cadence date weekly = carry (record date { day = date.day + 7 })
add_cadence date monthly = carry (month_after date.year date.month date.day)

-- `a > b` on the texts of dates.
unfoldable pub is_later : Date → Date → Bool
is_later a b =
    ltb b.year a.year
    || nat_beq b.year a.year && (ltb b.month a.month || nat_beq b.month a.month && ltb b.day a.day)

pub data ScheduleStatus : Type 0 where
  active paused : ScheduleStatus

-- `RecurringScheduleRow`. The template is that of an expense.
pub record RecurringScheduleRow (Template : Type 0) : Type 0 where
  pub recurring_schedule_id : Text
  pub group_id : Text
  pub cadence : RecurringCadence
  pub start_date : Date
  pub next_run_date : Date
  pub status : ScheduleStatus
  pub template : Template
  pub created_by : Text
  pub created_at : Text
  pub updated_at : Text
  pub generated_expense_ids : List Text

-- `CreateRecurringScheduleCommand`.
pub record CreateRecurringScheduleCommand (Template : Type 0) : Type 0 where
  pub idempotency_key : Text
  pub actor_id : Text
  pub group_id : Text
  pub recurring_schedule_id : Option Text
  pub cadence : RecurringCadence
  pub start_date : Date
  pub template : Template

-- `GenerateRecurringExpensesCommand`.
pub record GenerateRecurringExpensesCommand : Type 0 where
  pub idempotency_key : Text
  pub actor_id : Text
  pub as_of_date : Date
