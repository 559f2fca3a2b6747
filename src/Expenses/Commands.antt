-- ===== src/Expenses/Commands.antt =====
-- `ExpenseCommandService`: apps/api/src/modules/expenses/expense-command.service.ts.
use splitsaathi.Common.Texts.{trim}
use splitsaathi.Common.{
  List, Option, Result, [], err, if◌then◌else◌, is_empty, map, none, ok, some, throw_if, ℕ, ◌++◌,
  ◌>>◌, ◌∷◌,
}
use splitsaathi.Common.Int.{leb_ℤ, neg, pos, ℤ, ◌+ℤ◌}
use splitsaathi.Common.Keys.{Text, codes}
use splitsaathi.EventStore.{StoreError}
use splitsaathi.Postings.{LedgerPosting}
use splitsaathi.Expenses.{
  BillAdjustmentRow, ExpenseError, ExpenseLineItemRow, ExpensePayerRow, ExpenseShareRow,
  payer_not_positive,
}
use splitsaathi.Events.{DomainEvent}

-- `ExpenseSnapshot`.
pub record ExpenseSnapshot : Type 0 where
  pub expense_id : Text
  pub group_id : Text
  pub description : Text
  pub category : Option Text
  pub notes : Option Text
  pub expense_date : Text
  pub currency_code : Text
  pub total_amount_minor : ℤ
  pub payers : List ExpensePayerRow
  pub shares : List ExpenseShareRow
  pub line_items : List ExpenseLineItemRow
  pub bill_adjustments : List BillAdjustmentRow

-- `'active' | 'voided'`.
pub data ExpenseStatus : Type 0 where
  active voided : ExpenseStatus

-- `ExpenseProjectionRow`: a snapshot with the fields that the projector adds.
pub record ExpenseProjectionRow : Type 0 where
  pub snapshot : ExpenseSnapshot
  pub status : ExpenseStatus
  pub version : ℕ
  pub created_by : Text
  pub updated_by : Text
  pub created_at : Text
  pub updated_at : Text
  pub voided_at : Option Text
  pub void_reason : Option Text

-- The payloads of the events of expenses, and that of another event.
pub data ExpensePayload : Type 0 where
  snapshot_payload : ExpenseSnapshot → Option Text → ExpensePayload
  void_payload : Text → Text → Text → ExpensePayload
  other_payload : ExpensePayload

-- What a command throws.
pub data CommandError : Type 0 where
  not_materialized : ExpenseError → CommandError
  not_active not_projected : Text → CommandError
  not_appended : StoreError → CommandError

-- The loop of `sumAmounts`. Amounts are integers here.
unfoldable pub sum_amounts : ℤ → List ExpensePayerRow → Result ExpenseError ℤ
sum_amounts sum [] = ok sum
sum_amounts sum (row ∷ rows) = do
  throw_if (leb_ℤ row.amount_minor (pos 0)) payer_not_positive
  sum_amounts (sum +ℤ row.amount_minor) rows

-- The postings of payers and of shares in `snapshotPostings`.
abbrev pub payer_posting : ExpenseSnapshot → ExpensePayerRow → LedgerPosting
payer_posting snapshot payer = record {
  participant_id = payer.participant_id;
  currency_code = snapshot.currency_code;
  signed_amount_minor = payer.amount_minor;
  posting_type = codes "expense_paid";
  source_type = codes "expense";
  source_id = snapshot.expense_id;
}

abbrev pub share_posting : ExpenseSnapshot → ExpenseShareRow → LedgerPosting
share_posting snapshot share = record {
  participant_id = share.participant_id;
  currency_code = snapshot.currency_code;
  signed_amount_minor = neg share.amount_minor;
  posting_type = codes "expense_share";
  source_type = codes "expense";
  source_id = snapshot.expense_id;
}

-- `snapshotPostings`.
unfoldable pub snapshot_postings : ExpenseSnapshot → List LedgerPosting
snapshot_postings snapshot =
    map (payer_posting snapshot) snapshot.payers ++ map (share_posting snapshot) snapshot.shares

-- `reversePostings`.
abbrev pub reverse_posting : Text → LedgerPosting → LedgerPosting
reverse_posting posting_type posting = record posting {
  signed_amount_minor = neg posting.signed_amount_minor;
  posting_type = posting_type;
}

unfoldable pub reverse_postings : List LedgerPosting → Text → List LedgerPosting
reverse_postings postings posting_type = map (reverse_posting posting_type) postings

-- The postings of `reviseExpense`: those of the snapshot that was there, reversed, and the new ones.
abbrev pub repost : LedgerPosting → LedgerPosting
repost posting = record posting { posting_type = codes "expense_adjustment_repost" }

unfoldable pub revise_postings : ExpenseSnapshot → ExpenseSnapshot → List LedgerPosting
unfolding reverse_postings snapshot_postings
revise_postings existing expense =
    reverse_postings (snapshot_postings existing) (codes "expense_adjustment_reversal")
    ++ map repost (snapshot_postings expense)

-- The postings of `voidExpense`.
unfoldable pub void_postings : ExpenseSnapshot → List LedgerPosting
unfolding reverse_postings snapshot_postings
void_postings existing =
    reverse_postings (snapshot_postings existing) (codes "expense_void_reversal")

-- `notes?.trim() || undefined`.
unfoldable pub trimmed : Option Text → Option Text
trimmed none = none
trimmed (some notes) = let text = trim notes in if is_empty text then none else some text

-- Errors of the parts, thrown on by the commands.
abbrev pub materialized : {A : Type 0} → Result ExpenseError A → Result CommandError A
materialized result = elim result [ ok a ↦ ok a | err why ↦ err (not_materialized why) ]

abbrev pub appended : {A : Type 0} → Result StoreError A → Result CommandError A
appended result = elim result [ ok a ↦ ok a | err why ↦ err (not_appended why) ]

-- `if (!existing || existing.status === 'voided') throw …`
unfoldable pub active_expense :
    Text → Option ExpenseProjectionRow → Result CommandError ExpenseSnapshot
active_expense id none = err (not_active id)
active_expense id (some row) = elim row.status [
  | active ↦ ok row.snapshot
  | voided ↦ err (not_active id)
]

-- `if (!projected) throw …`
abbrev pub projected_expense :
    Text → Option ExpenseProjectionRow → Result CommandError ExpenseProjectionRow
projected_expense id found = elim found [ some row ↦ ok row | none ↦ err (not_projected id) ]

-- The id of the first of the events (`events[0].aggregateId`).
abbrev pub first_aggregate_id : Text → List (DomainEvent ExpensePayload) → Text
first_aggregate_id id [] = id
first_aggregate_id id (event ∷ events) = event.aggregate_id
