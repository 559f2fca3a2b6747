-- ===== src/Imports.antt =====
-- Imports of expenses: apps/api/src/modules/imports-exports/imports-exports.types.ts.
pub mod Rows
pub mod Bank
pub mod Projection
pub mod Files
pub mod Committing
pub mod Reading
pub mod InPlace
pub mod Settled
mod Tests
use splitsaathi.Common.{List, Option, ℕ}
use splitsaathi.Common.Int.{ℤ}
use splitsaathi.Common.Keys.{Text}
use splitsaathi.Common.Dict.{Dict}
use splitsaathi.Money.{MoneyError}

pub data ImportStatus : Type 0 where
  parsed committed failed : ImportStatus

pub data ShareType : Type 0 where
  equal exact : ShareType

-- A payer and a share of an imported expense. An amount that is no number is `none`.
pub record ImportedPayer : Type 0 where
  pub participant_id : Text
  pub amount_minor : Option ℤ

pub record ImportedShare : Type 0 where
  pub participant_id : Text
  pub share_type : ShareType
  pub amount_minor : Option ℤ

-- The command of an expense, less its key and its actor.
pub record ImportedExpense : Type 0 where
  pub group_id : Text
  pub description : Text
  pub category : Text
  pub expense_date : Text
  pub currency_code : Text
  pub payers : List ImportedPayer
  pub shares : List ImportedShare

-- Why an item failed: an amount that cannot be read, a row with the number that lacks something, or the
-- message of an error of the expenses.
pub data ImportError : Type 0 where
  bad_amount : MoneyError → ImportError
  missing_in_row : ℕ → ImportError
  not_a_debit : ℕ → ImportError
  not_parsed : ImportError
  message : Text → ImportError

-- `ImportItemRow`.
pub record ImportItemRow : Type 0 where
  pub item_id : Text
  pub import_job_id : Text
  pub status : ImportStatus
  pub raw : Dict Text Text
  pub expense_command : Option ImportedExpense
  pub committed_expense_id : Option Text
  pub error : Option ImportError

-- `ImportJobRow`.
pub record ImportJobRow : Type 0 where
  pub import_job_id : Text
  pub group_id : Text
  pub status : ImportStatus
  pub created_by : Text
  pub created_at : Text
  pub updated_at : Text
  pub items : List ImportItemRow

-- `CreateSplitwiseCsvImportCommand` and `CreateBankCsvImportCommand`.
pub record CreateSplitwiseCsvImportCommand : Type 0 where
  pub idempotency_key : Text
  pub actor_id : Text
  pub group_id : Text
  pub csv : Text
  pub participant_name_to_id : Dict Text Text
  pub default_currency_code : Option Text

pub record CreateBankCsvImportCommand : Type 0 where
  pub idempotency_key : Text
  pub actor_id : Text
  pub group_id : Text
  pub csv : Text
  pub account_participant_id : Text
  pub counterparty_participant_id : Option Text
  pub default_currency_code : Option Text

-- `CommitImportCommand`.
pub record CommitImportCommand : Type 0 where
  pub idempotency_key : Text
  pub actor_id : Text
  pub import_job_id : Text

-- `CreateExportCommand['exportType']` and `ExportJobRow`, whose status is always `ready`.
pub data ExportType : Type 0 where
  expenses_csv balances_csv full_group_csv group_pdf tally_csv : ExportType
  settlement_certificate data_portability_json : ExportType

pub data ContentType : Type 0 where
  text_csv application_pdf application_json text_plain : ContentType

pub record ExportJobRow : Type 0 where
  pub export_job_id : Text
  pub group_id : Text
  pub export_type : ExportType
  pub content_type : ContentType
  pub data_text : Text
  pub created_by : Text
  pub created_at : Text
