-- ===== src/Imports/Files.antt =====
-- The files that are imported: apps/api/src/modules/imports-exports/splitwise-import.service.ts, lines
-- 35-41 and 74-80.
use splitsaathi.Common.{List, Result, [], err, map, ok, ℕ, ◌+◌, ◌∷◌}
use splitsaathi.Common.Keys.{Text}
use splitsaathi.Csv.{parse_csv}
use splitsaathi.EventStore.{StoreError}
use splitsaathi.Imports.{CreateBankCsvImportCommand, CreateSplitwiseCsvImportCommand, ImportItemRow}
use splitsaathi.Imports.Rows.{normalize_header, row_to_item}
use splitsaathi.Imports.Bank.{bank_row_to_item}

-- What the commands throw.
pub data ImportFailure : Type 0 where
  too_few_rows job_not_projected : ImportFailure
  job_not_found : Text → ImportFailure
  import_not_appended : StoreError → ImportFailure

-- `rows.slice(1).map((cells, index) => …)`, from an index on.
unfoldable pub items_from :
    (List Text → ℕ → ImportItemRow) → ℕ → List (List Text) → List ImportItemRow
items_from to_item index [] = []
items_from to_item index (cells ∷ rows) = to_item cells index ∷ items_from to_item (index + 1) rows

-- The items of a file, for what makes an item of the headers, the cells and the index.
unfoldable pub items_of :
    (Text → Text)
    → (List Text → List Text → ℕ → ImportItemRow)
    → List (List Text)
    → Result ImportFailure (List ImportItemRow)
unfolding items_from normalize_header
items_of to_lower_case to_item [] = err too_few_rows
items_of to_lower_case to_item (header ∷ []) = err too_few_rows
items_of to_lower_case to_item (header ∷ row ∷ rows) =
    ok (items_from (to_item (map (normalize_header to_lower_case) header)) 0 (row ∷ rows))

-- `randomUUID()` for the item of each index is the platform's.
module _ (to_lower_case : Text → Text) (item_uuid : ℕ → Text) (job_id : Text) where
  -- The items of `createImport` and of `createBankCsvImport`.
  unfoldable pub splitwise_items :
      CreateSplitwiseCsvImportCommand → Result ImportFailure (List ImportItemRow)
  unfolding items_of row_to_item parse_csv
  splitwise_items command =
      items_of to_lower_case
        (λ headers cells index.
          row_to_item (item_uuid index) job_id command.group_id command.default_currency_code
            command.participant_name_to_id headers cells index)
        (parse_csv command.csv)

  unfoldable pub bank_items : CreateBankCsvImportCommand → Result ImportFailure (List ImportItemRow)
  unfolding items_of bank_row_to_item parse_csv
  bank_items command =
      items_of to_lower_case
        (λ headers cells index.
          bank_row_to_item to_lower_case (item_uuid index) job_id command.group_id
            command.default_currency_code command.account_participant_id
            command.counterparty_participant_id headers cells index)
        (parse_csv command.csv)
