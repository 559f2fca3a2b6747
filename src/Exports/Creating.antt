-- ===== src/Exports/Creating.antt =====
-- `createExport`: apps/api/src/modules/imports-exports/csv-export.service.ts, lines 15-52.
use splitsaathi.Common.{List, Option, Result, [], err, none, ok, or_default, some, ℕ, ◌>>=◌, ◌∷◌}
use splitsaathi.Common.Keys.{Text, codes}
use splitsaathi.Balances.{BalanceRow}
use splitsaathi.Expenses.Commands.{ExpenseProjectionRow}
use splitsaathi.Events.{DomainEvent, NewDomainEvent, export_job_created, version}
use splitsaathi.EventStore.{Hashed, StoreError}
use splitsaathi.Ledger.{LedgerState, Projector, append_and_project}
use splitsaathi.Imports.{ContentType, ExportJobRow, ExportType}
use splitsaathi.Imports.Projection.{ImportPayload, export_payload}
use splitsaathi.Exports.{render_export}

-- `CreateExportCommand`.
pub record CreateExportCommand : Type 0 where
  pub idempotency_key : Text
  pub actor_id : Text
  pub group_id : Text
  pub export_job_id : Option Text
  pub export_type : ExportType

-- What it throws.
pub data ExportFailure : Type 0 where
  export_not_appended : StoreError → ExportFailure
  export_not_projected : Text → ExportFailure

-- The payload, for the file that is rendered.
abbrev pub export_row : Text → Text → CreateExportCommand → ContentType × Text → ExportJobRow
export_row id now command (content_type, data_text) = record {
  export_job_id = id;
  group_id = command.group_id;
  export_type = command.export_type;
  content_type = content_type;
  data_text = data_text;
  created_by = command.actor_id;
  created_at = now;
}

abbrev pub export_event : Text → CreateExportCommand → ExportJobRow → NewDomainEvent ImportPayload
export_event id command row = record {
  type = export_job_created;
  aggregate_type = codes "export_job";
  aggregate_id = id;
  group_id = some command.group_id;
  actor_id = some command.actor_id;
  payload = export_payload row;
  postings = none;
}

abbrev pub export_appended : {A : Type 0} → Result StoreError A → Result ExportFailure A
export_appended result = elim result [ ok a ↦ ok a | err why ↦ err (export_not_appended why) ]

-- `events[0].aggregateId`, or the id of the call.
abbrev pub first_export_id : Text → List (DomainEvent ImportPayload) → Text
first_export_id id [] = id
first_export_id id (event ∷ events) = event.aggregate_id

-- What the service reads of the projections, and the platform's parts.
module _ (projector : Projector ImportPayload)
    (group_expenses : Text → projector.State → List ExpenseProjectionRow)
    (group_balances : Text → projector.State → List BalanceRow)
    (get_job : Text → projector.State → Option ExportJobRow)
    (hash_payload : Hashed ImportPayload CreateExportCommand → Text) (now : Text)
    (random_uuid : ℕ → Text) (byte_length : Text → ℕ) (base64 : Text → Text)
    (to_json : List ExpenseProjectionRow → List BalanceRow → Text) where
  -- `createExport`.
  unfoldable pub create_export :
      Text
      → CreateExportCommand
      → LedgerState projector
      → Result ExportFailure (
          Result ExportFailure ExportJobRow
          × List (DomainEvent ImportPayload)
          × LedgerState projector)
  unfolding render_export
  create_export new_id command ledger = do
    let id = or_default new_id command.export_job_id
    let rendered =
        render_export byte_length base64 to_json command.export_type command.group_id now
          (group_expenses command.group_id ledger.projection)
          (group_balances command.group_id ledger.projection)
    (events, next) ← export_appended (
        append_and_project projector hash_payload now random_uuid
          (record {
            aggregate_type = codes "export_job";
            aggregate_id = id;
            expected_version = version 0;
            events = export_event id command (export_row id now command rendered) ∷ [];
            idempotency_key = some command.idempotency_key;
            idempotency_payload = some command;
          })
          ledger)
    let first = first_export_id id events
    ok (
      elim (get_job first next.projection) [
        | some job ↦ ok job
        | none ↦ err (export_not_projected first)
      ],
      events,
      next,
    )
