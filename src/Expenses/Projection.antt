-- ===== src/Expenses/Projection.antt =====
-- `ExpenseProjector`: apps/api/src/modules/ledger/expense.projector.ts.
use splitsaathi.Common.{
  Bool, List, Option, Result, [], err, false, filter, if◌then◌else◌, none, ok, or_default, some,
  true, ℕ, ◌++◌, ◌∷◌,
}
use splitsaathi.Common.Keys.{Text, codes, text_eq, ◌==◌}
use splitsaathi.Common.Dict.{Dict, get, set, values}
use splitsaathi.Common.Sort.{sort}
use splitsaathi.Events.{DomainEvent, EventType, expense_adjusted, expense_created, expense_voided}
use splitsaathi.Expenses.Commands.{
  ExpensePayload, ExpenseProjectionRow, ExpenseSnapshot, active, snapshot_payload, void_payload,
  voided,
}

-- `ExpenseVersionRow`, without the descriptions of the changes.
pub record ExpenseVersionRow : Type 0 where
  pub expense_id : Text
  pub group_id : Text
  pub event_id : Text
  pub event_type : EventType
  pub version : ℕ
  pub actor_id : Option Text
  pub occurred_at : Text
  pub reason : Option Text
  pub before : Option ExpenseProjectionRow
  pub after : ExpenseProjectionRow

-- The Map and the list of the projector.
pub record ExpenseProjection : Type 0 where
  pub expenses : Dict Text ExpenseProjectionRow
  pub versions : List ExpenseVersionRow

-- What `apply` throws.
pub data MissingExpense : Type 0 where
  missing_expense : Text → MissingExpense

-- The row and the version are written.
abbrev pub record_row :
    DomainEvent ExpensePayload
    → Option Text
    → Option ExpenseProjectionRow
    → ExpenseProjectionRow
    → ExpenseProjection
    → ExpenseProjection
record_row event reason before row projection = record {
  expenses = set row.snapshot.expense_id row projection.expenses;
  versions =
      projection.versions
      ++ record {
        expense_id = row.snapshot.expense_id;
        group_id = row.snapshot.group_id;
        event_id = event.event_id;
        event_type = event.type;
        version = event.aggregate_version;
        actor_id = event.actor_id;
        occurred_at = event.occurred_at;
        reason = reason;
        before = before;
        after = row;
      }
        ∷ [];
}

-- The rows that the three types of events leave.
abbrev pub created_row : DomainEvent ExpensePayload → ExpenseSnapshot → ExpenseProjectionRow
created_row event snapshot = record {
  snapshot = snapshot;
  status = active;
  version = event.aggregate_version;
  created_by = or_default (codes "system") event.actor_id;
  updated_by = or_default (codes "system") event.actor_id;
  created_at = event.occurred_at;
  updated_at = event.occurred_at;
  voided_at = none;
  void_reason = none;
}

abbrev pub adjusted_row :
    DomainEvent ExpensePayload → ExpenseSnapshot → ExpenseProjectionRow → ExpenseProjectionRow
adjusted_row event snapshot existing = record existing {
  snapshot = snapshot;
  status = active;
  version = event.aggregate_version;
  updated_by = or_default existing.updated_by event.actor_id;
  updated_at = event.occurred_at;
}

abbrev pub voided_row :
    DomainEvent ExpensePayload → Text → ExpenseProjectionRow → ExpenseProjectionRow
voided_row event reason existing = record existing {
  status = voided;
  version = event.aggregate_version;
  updated_by = or_default existing.updated_by event.actor_id;
  updated_at = event.occurred_at;
  voided_at = some event.occurred_at;
  void_reason = some reason;
}

-- The branches of `apply` that need the row that is there.
unfoldable pub adjust :
    ExpenseProjection
    → DomainEvent ExpensePayload
    → ExpenseSnapshot
    → Option Text
    → Option ExpenseProjectionRow
    → Result MissingExpense ExpenseProjection
adjust projection event snapshot reason none = err (missing_expense snapshot.expense_id)
adjust projection event snapshot reason (some existing) =
    ok (record_row event reason (some existing) (adjusted_row event snapshot existing) projection)

unfoldable pub void_row :
    ExpenseProjection
    → DomainEvent ExpensePayload
    → Text
    → Text
    → Option ExpenseProjectionRow
    → Result MissingExpense ExpenseProjection
void_row projection event id reason none = err (missing_expense id)
void_row projection event id reason (some existing) =
    ok
      (record_row event (some reason) (some existing) (voided_row event reason existing) projection)

-- The three branches of `apply`, for the payload that the type of the event comes with.
unfoldable pub apply_payload :
    ExpenseProjection
    → DomainEvent ExpensePayload
    → EventType
    → ExpensePayload
    → Result MissingExpense ExpenseProjection
unfolding adjust void_row
apply_payload projection event expense_created (snapshot_payload snapshot reason) =
    ok (record_row event reason none (created_row event snapshot) projection)
apply_payload projection event expense_adjusted (snapshot_payload snapshot reason) =
    adjust projection event snapshot reason (get snapshot.expense_id projection.expenses)
apply_payload projection event expense_voided (void_payload id group reason) =
    void_row projection event id reason (get id projection.expenses)
apply_payload projection event _ _ = ok projection

-- `apply`.
unfoldable pub apply :
    ExpenseProjection → DomainEvent ExpensePayload → Result MissingExpense ExpenseProjection
unfolding apply_payload
apply projection event = apply_payload projection event event.type event.payload

-- `getExpense`, `listExpenseHistory`, `listGroupExpenses` and `reset`; `not_after a b` is
-- `a.localeCompare(b) <= 0`, and texts that compare equal both ways are told apart by the update.
abbrev pub get_expense : ExpenseProjection → Text → Option ExpenseProjectionRow
get_expense projection id = get id projection.expenses

abbrev pub list_expense_history : ExpenseProjection → Text → List ExpenseVersionRow
list_expense_history projection id =
    filter (λ version. version.expense_id == id) projection.versions

unfoldable pub list_group_expenses :
    (Text → Text → Bool) → ExpenseProjection → Text → List ExpenseProjectionRow
list_group_expenses not_after projection group =
    sort
      (λ left right.
        if not_after right.snapshot.expense_date left.snapshot.expense_date
        then (if not_after left.snapshot.expense_date right.snapshot.expense_date
            then not_after right.updated_at left.updated_at
            else true)
        else false)
      (filter (λ row. row.snapshot.group_id == group) (values projection.expenses))

abbrev pub reset : ExpenseProjection
reset = record { expenses = []; versions = [] }
