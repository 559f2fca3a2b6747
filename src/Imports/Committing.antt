-- ===== src/Imports/Committing.antt =====
-- `SplitwiseImportService`: apps/api/src/modules/imports-exports/splitwise-import.service.ts, lines
-- 34-176.
use splitsaathi.Common.{
  List, Option, Result, [], err, filter, none, ok, or_default, some, ℕ, ◌++◌, ◌>>=◌, ◌∷◌,
}
use splitsaathi.Common.Keys.{Text, codes}
use splitsaathi.Events.{
  DomainEvent, EventType, NewDomainEvent, import_item_committed, import_job_created, version,
}
use splitsaathi.EventStore.{Hashed, StoreError, get_version}
use splitsaathi.Ledger.{LedgerState, Projector, append_and_project}
use splitsaathi.Imports.{
  CommitImportCommand, CreateBankCsvImportCommand, CreateSplitwiseCsvImportCommand, ImportError,
  ImportItemRow, ImportJobRow, ImportedExpense, message, not_parsed,
}
use splitsaathi.Imports.Files.{
  ImportFailure, bank_items, import_not_appended, job_not_found, job_not_projected, splitwise_items,
}
use splitsaathi.Imports.Projection.{
  ImportPayload, ItemPayload, is_parsed, item_payload, job_payload,
}

-- The commands whose hashes are recorded.
pub data HashedImport : Type 0 where
  splitwise_csv : CreateSplitwiseCsvImportCommand → HashedImport
  bank_csv : CreateBankCsvImportCommand → HashedImport
  commit : CommitImportCommand → HashedImport

-- `ExpenseCommandService.createExpense`, with the actor and the key: the id of the expense, or the
-- message of the error, and the state after it.
pub record ImportExpenses : Type 1 where
  pub State : Type 0
  pub create_expense : ImportedExpense → Text → Text → State → Result Text Text × State

abbrev pub import_appended : {A : Type 0} → Result StoreError A → Result ImportFailure A
import_appended result = elim result [ ok a ↦ ok a | err why ↦ err (import_not_appended why) ]

-- An event of an import.
abbrev pub import_event :
    EventType → Text → Text → Text → ImportPayload → NewDomainEvent ImportPayload
import_event type job_id group_id actor_id payload = record {
  type = type;
  aggregate_type = codes "import_job";
  aggregate_id = job_id;
  group_id = some group_id;
  actor_id = some actor_id;
  payload = payload;
  postings = none;
}

-- The event of a new import.
abbrev pub job_event : Text → Text → Text → List ImportItemRow → NewDomainEvent ImportPayload
job_event job_id group_id actor_id items =
    import_event import_job_created job_id group_id actor_id
      (job_payload (record { import_job_id = job_id; group_id = group_id; items = items }))

-- `job.items.filter((candidate) => candidate.status === 'parsed')`
unfoldable pub parsed_items : List ImportItemRow → List ImportItemRow
parsed_items items = filter (λ item. is_parsed item.status) items

-- The payload for the outcome of an item.
abbrev pub outcome_payload : Text → Text → Result ImportError Text → ItemPayload
outcome_payload job_id item_id (ok expense_id) = record {
  import_job_id = job_id;
  item_id = item_id;
  expense_id = some expense_id;
  error = none;
}
outcome_payload job_id item_id (err why) = record {
  import_job_id = job_id;
  item_id = item_id;
  expense_id = none;
  error = some why;
}

module _ (expenses : ImportExpenses) (command : CommitImportCommand) (group_id : Text) where
  -- The `try` of the loop.
  unfoldable pub try_item :
      ImportItemRow → expenses.State → Result ImportError Text × expenses.State
  try_item item made = elim item.expense_command [
    | none ↦ (err (or_default not_parsed item.error), made)
    | some expense ↦
        let (outcome, next) =
          expenses.create_expense expense command.actor_id
            (command.idempotency_key ++ (codes ":" ++ item.item_id)) made in
        (elim outcome [ ok id ↦ ok id | err why ↦ err (message why) ], next)
  ]

  -- The event of an item.
  abbrev pub item_event : ImportItemRow → Result ImportError Text → NewDomainEvent ImportPayload
  item_event item outcome =
      import_event import_item_committed command.import_job_id group_id command.actor_id
        (item_payload (outcome_payload command.import_job_id item.item_id outcome))

  -- The loop.
  unfoldable pub commit_items :
      List ImportItemRow → expenses.State → List (NewDomainEvent ImportPayload) × expenses.State
  unfolding try_item
  commit_items [] made = ([], made)
  commit_items (item ∷ items) made =
      let (outcome, next) = try_item item made in
      let (events, last) = commit_items items next in (item_event item outcome ∷ events, last)

-- The projector, as one that does not throw, and what reads its jobs.
module _ (projector : Projector ImportPayload)
    (get_job : Text → projector.State → Option ImportJobRow)
    (hash_payload : Hashed ImportPayload HashedImport → Text) (now : Text)
    (random_uuid : ℕ → Text) where
  -- `events[0].aggregateId`, or the id of the call.
  abbrev first_job_id : Text → List (DomainEvent ImportPayload) → Text
  first_job_id id [] = id
  first_job_id id (event ∷ events) = event.aggregate_id

  abbrev Answer : Type 0
  Answer =
      Result ImportFailure ImportJobRow × List (DomainEvent ImportPayload) × LedgerState projector

  abbrev projected_job : Text → LedgerState projector → Result ImportFailure ImportJobRow
  projected_job id ledger = elim (get_job id ledger.projection) [
    | none ↦ err job_not_projected
    | some job ↦ ok job
  ]

  -- What `createImport` and `createBankCsvImport` do with their items.
  unfoldable pub append_import :
      Text
      → Text
      → Text
      → Text
      → HashedImport
      → List ImportItemRow
      → LedgerState projector
      → Result ImportFailure Answer
  append_import job_id group_id actor_id key payload items ledger = do
    (events, next) ← import_appended (
        append_and_project projector hash_payload now random_uuid
          (record {
            aggregate_type = codes "import_job";
            aggregate_id = job_id;
            expected_version = version 0;
            events = job_event job_id group_id actor_id items ∷ [];
            idempotency_key = some key;
            idempotency_payload = some payload;
          })
          ledger)
    ok (projected_job (first_job_id job_id events) next, events, next)

  -- `createImport`.
  unfoldable pub create_import :
      (Text → Text)
      → (ℕ → Text)
      → Text
      → CreateSplitwiseCsvImportCommand
      → LedgerState projector
      → Result ImportFailure Answer
  unfolding splitwise_items append_import
  create_import to_lower_case item_uuid job_id command ledger = do
    items ← splitwise_items to_lower_case item_uuid job_id command
    append_import job_id command.group_id command.actor_id command.idempotency_key
        (splitwise_csv command) items ledger

  -- `createBankCsvImport`.
  unfoldable pub create_bank_csv_import :
      (Text → Text)
      → (ℕ → Text)
      → Text
      → CreateBankCsvImportCommand
      → LedgerState projector
      → Result ImportFailure Answer
  unfolding bank_items append_import
  create_bank_csv_import to_lower_case item_uuid job_id command ledger = do
    items ← bank_items to_lower_case item_uuid job_id command
    append_import job_id command.group_id command.actor_id command.idempotency_key
        (bank_csv command) items ledger

  -- The end of `commitImport`, with the events of the loop.
  unfoldable pub append_commit :
      CommitImportCommand
      → List (NewDomainEvent ImportPayload)
      → LedgerState projector
      → Result ImportFailure Answer
  append_commit command commit_events ledger = do
    (events, next) ← import_appended (
        append_and_project projector hash_payload now random_uuid
          (record {
            aggregate_type = codes "import_job";
            aggregate_id = command.import_job_id;
            expected_version =
                version (get_version (codes "import_job") command.import_job_id ledger.store);
            events = commit_events;
            idempotency_key = some command.idempotency_key;
            idempotency_payload = some (commit command);
          })
          ledger)
    ok (projected_job command.import_job_id next, events, next)

  -- `commitImport`, less the events of the expenses. The expenses stay when the append fails.
  unfoldable pub commit_import :
      (expenses : ImportExpenses)
      → CommitImportCommand
      → expenses.State
      → LedgerState projector
      → Result ImportFailure Answer × expenses.State
  unfolding commit_items parsed_items append_commit
  commit_import expenses command made ledger =
      elim (get_job command.import_job_id ledger.projection) [
        | none ↦ (err (job_not_found command.import_job_id), made)
        | some job ↦
            let (commit_events, last) =
              commit_items expenses command job.group_id (parsed_items job.items) made in
            (append_commit command commit_events ledger, last)
      ]
