-- ===== src/Expenses/Service.antt =====
-- The commands of `ExpenseCommandService`, on the ledger:
-- apps/api/src/modules/expenses/expense-command.service.ts.
use splitsaathi.Postings.{LedgerPosting}
use splitsaathi.Common.{
  List, Option, Result, [], not, ok, or_default, some, throw_if, ℕ, ◌>>=◌, ◌>>◌, ◌∷◌,
}
use splitsaathi.Common.Int.{eqb_ℤ, pos, sum_onto}
use splitsaathi.Common.Keys.{Text, codes}
use splitsaathi.Rounding.{Doubles, allocation}
use splitsaathi.Splits.{SplitParticipant}
use splitsaathi.Events.{
  AppendEventsInput, DomainEvent, EventType, NewDomainEvent, expense_adjusted, expense_created,
  expense_voided, version,
}
use splitsaathi.Expenses.{
  BillAdjustmentRow, ExpenseError, ExpenseLineItemRow, ExpensePayerRow, shares_differ,
}
use splitsaathi.Expenses.Allocation.{calculate}
use splitsaathi.Expenses.Commands.{
  CommandError, ExpensePayload, ExpenseProjectionRow, ExpenseSnapshot, active_expense, appended,
  first_aggregate_id, materialized, projected_expense, revise_postings, snapshot_payload,
  snapshot_postings, sum_amounts, trimmed, void_payload, void_postings,
}
use splitsaathi.EventStore.{Hashed}
use splitsaathi.Ledger.{LedgerState, Projector, append_and_project}

module _ (d : Doubles) where
  -- `CreateExpenseCommand`, and `ReviseExpenseCommand` with the id and version beside it.
  pub record CreateExpenseCommand : Type 0 where
    pub idempotency_key : Text
    pub actor_id : Text
    pub group_id : Text
    pub expense_id : Option Text
    pub description : Text
    pub category : Option Text
    pub notes : Option Text
    pub expense_date : Text
    pub currency_code : Option Text
    pub payers : List ExpensePayerRow
    pub shares : List (SplitParticipant d)
    pub line_items : Option (List ExpenseLineItemRow)
    pub bill_adjustments : Option (List BillAdjustmentRow)
    pub reason : Option Text

  pub record ReviseExpenseCommand : Type 0 where
    pub fields : CreateExpenseCommand
    pub expense_id : Text
    pub expected_version : ℕ

  -- `VoidExpenseCommand`.
  pub record VoidExpenseCommand : Type 0 where
    pub idempotency_key : Text
    pub actor_id : Text
    pub group_id : Text
    pub expense_id : Text
    pub expected_version : ℕ
    pub reason : Text

  -- What is hashed for the idempotency record.
  pub data ExpenseCommand : Type 0 where
    create_command : CreateExpenseCommand → ExpenseCommand
    revise_command : ReviseExpenseCommand → ExpenseCommand
    void_command : VoidExpenseCommand → ExpenseCommand

  -- `materializeSnapshot`.
  unfoldable pub materialize_snapshot :
      Text → CreateExpenseCommand → Result ExpenseError ExpenseSnapshot
  unfolding sum_amounts calculate sum_onto trimmed
  materialize_snapshot expense_id command = do
    let currency_code = or_default (codes "INR") command.currency_code
    total ← sum_amounts (pos 0) command.payers
    allocation ←
        calculate d total currency_code command.shares (or_default [] command.line_items)
          (or_default [] command.bill_adjustments)
    let share_sum = sum_onto (λ share. share.amount_minor) (pos 0) allocation.shares
    throw_if (not (eqb_ℤ share_sum total)) (shares_differ total share_sum)
    ok (record {
      expense_id = expense_id;
      group_id = command.group_id;
      description = command.description;
      category = command.category;
      notes = trimmed command.notes;
      expense_date = command.expense_date;
      currency_code = currency_code;
      total_amount_minor = total;
      payers = command.payers;
      shares = allocation.shares;
      line_items = or_default [] command.line_items;
      bill_adjustments = or_default [] command.bill_adjustments;
    })

  -- The event that a command appends.
  abbrev expense_event :
      EventType
      → Text
      → Text
      → Text
      → ExpensePayload
      → List LedgerPosting
      → NewDomainEvent ExpensePayload
  expense_event type expense_id group_id actor_id payload postings = record {
    type = type;
    aggregate_type = codes "expense";
    aggregate_id = expense_id;
    group_id = some group_id;
    actor_id = some actor_id;
    payload = payload;
    postings = some postings;
  }

  abbrev expense_input :
      Text
      → ℕ
      → Text
      → ExpenseCommand
      → NewDomainEvent ExpensePayload
      → AppendEventsInput ExpensePayload ExpenseCommand
  expense_input expense_id expected key command event = record {
    aggregate_type = codes "expense";
    aggregate_id = expense_id;
    expected_version = version expected;
    events = event ∷ [];
    idempotency_key = some key;
    idempotency_payload = some command;
  }

  -- The events of the three commands.
  abbrev pub created_event : CreateExpenseCommand → ExpenseSnapshot → NewDomainEvent ExpensePayload
  created_event command expense =
      expense_event expense_created expense.expense_id expense.group_id command.actor_id
        (snapshot_payload expense command.reason) (snapshot_postings expense)

  abbrev pub revised_event :
      ReviseExpenseCommand → ExpenseSnapshot → ExpenseSnapshot → NewDomainEvent ExpensePayload
  revised_event command existing expense =
      expense_event expense_adjusted command.expense_id expense.group_id command.fields.actor_id
        (snapshot_payload expense command.fields.reason) (revise_postings existing expense)

  abbrev pub voided_event : VoidExpenseCommand → ExpenseSnapshot → NewDomainEvent ExpensePayload
  voided_event command existing =
      expense_event expense_voided command.expense_id command.group_id command.actor_id
        (void_payload command.expense_id command.group_id command.reason) (void_postings existing)

  -- The inputs of `appendAndProject` in the three commands.
  abbrev pub create_input :
      CreateExpenseCommand → ExpenseSnapshot → AppendEventsInput ExpensePayload ExpenseCommand
  create_input command expense =
      expense_input expense.expense_id 0 command.idempotency_key (create_command command)
        (created_event command expense)

  abbrev pub revise_input :
      ReviseExpenseCommand
      → ExpenseSnapshot
      → ExpenseSnapshot
      → AppendEventsInput ExpensePayload ExpenseCommand
  revise_input command existing expense =
      expense_input command.expense_id command.expected_version command.fields.idempotency_key
        (revise_command command) (revised_event command existing expense)

  abbrev pub void_input :
      VoidExpenseCommand → ExpenseSnapshot → AppendEventsInput ExpensePayload ExpenseCommand
  void_input command existing =
      expense_input command.expense_id command.expected_version command.idempotency_key
        (void_command command) (voided_event command existing)

-- The ledger with its projection of the expenses, the clock, and the ids that are drawn.
module _ (d : Doubles) (projector : Projector ExpensePayload)
    (get_expense : projector.State → Text → Option ExpenseProjectionRow)
    (hash_payload : Hashed ExpensePayload (ExpenseCommand d) → Text) (now : Text)
    (random_uuid : ℕ → Text) where
  -- `createExpense`, with the id that is drawn if the command has none. The ledger is appended to also
  -- when the expense is then not found in the projection.
  unfoldable pub create_expense :
      Text
      → CreateExpenseCommand d
      → LedgerState projector
      → Result CommandError (
          Result CommandError ExpenseProjectionRow
          × List (DomainEvent ExpensePayload)
          × LedgerState projector)
  create_expense new_id command ledger = do
    expense ← materialized (materialize_snapshot d (or_default new_id command.expense_id) command)
    (events, next) ← appended (
        append_and_project projector hash_payload now random_uuid (create_input d command expense)
          ledger)
    let id = first_aggregate_id expense.expense_id events
    ok (projected_expense id (get_expense next.projection id), events, next)

  -- `reviseExpense`.
  unfoldable pub revise_expense :
      ReviseExpenseCommand d
      → LedgerState projector
      → Result CommandError (
          Result CommandError ExpenseProjectionRow
          × List (DomainEvent ExpensePayload)
          × LedgerState projector)
  revise_expense command ledger = do
    existing ← active_expense command.expense_id (get_expense ledger.projection command.expense_id)
    expense ← materialized (materialize_snapshot d command.expense_id command.fields)
    (events, next) ← appended (
        append_and_project projector hash_payload now random_uuid
          (revise_input d command existing expense) ledger)
    ok (
      projected_expense command.expense_id (get_expense next.projection command.expense_id),
      events,
      next,
    )

  -- `voidExpense`.
  unfoldable pub void_expense :
      VoidExpenseCommand d
      → LedgerState projector
      → Result CommandError (List (DomainEvent ExpensePayload) × LedgerState projector)
  void_expense command ledger = do
    existing ← active_expense command.expense_id (get_expense ledger.projection command.expense_id)
    appended (
        append_and_project projector hash_payload now random_uuid (void_input d command existing)
          ledger)
