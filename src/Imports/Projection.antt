-- ===== src/Imports/Projection.antt =====
-- `ImportsExportsProjector`: apps/api/src/modules/imports-exports/imports-exports.projector.ts.
use mathlib.Core.Option
use splitsaathi.Common.{
  Bool, List, Option, Result, [], any, err, false, if◌then◌else◌, map_ok, none, ok, or_default,
  some, true, ◌>>=◌, ◌∷◌,
}
use splitsaathi.Common.Keys.{Text, codes, text_eq, ◌==◌}
use splitsaathi.Common.Dict.{Dict, get, set}
use splitsaathi.Events.{
  DomainEvent, EventType, export_job_created, import_item_committed, import_job_created,
}
use splitsaathi.Imports.{
  ExportJobRow, ImportError, ImportItemRow, ImportJobRow, ImportStatus, committed, failed, message,
  parsed,
}

-- The payload of `ImportJobCreated`.
pub record JobPayload : Type 0 where
  pub import_job_id : Text
  pub group_id : Text
  pub items : List ImportItemRow

-- The payload of `ImportItemCommitted`.
pub record ItemPayload : Type 0 where
  pub import_job_id : Text
  pub item_id : Text
  pub expense_id : Option Text
  pub error : Option ImportError

pub data ImportPayload : Type 0 where
  job_payload : JobPayload → ImportPayload
  item_payload : ItemPayload → ImportPayload
  export_payload : ExportJobRow → ImportPayload

-- What `apply` throws.
pub data MissingImport : Type 0 where
  missing_job : Text → MissingImport
  missing_item : Text → MissingImport

-- The state of the projector.
pub record ImportsExports : Type 0 where
  pub import_jobs : Dict Text ImportJobRow
  pub export_jobs : Dict Text ExportJobRow

-- `reset`.
abbrev pub no_jobs : ImportsExports
no_jobs = record { import_jobs = []; export_jobs = [] }

-- `payload.error` counts unless it is the empty text.
abbrev pub is_error : Option ImportError → Bool
is_error none = false
is_error (some (message [])) = false
is_error (some _) = true

abbrev pub is_failed : ImportStatus → Bool
is_failed failed = true
is_failed committed = false
is_failed parsed = false

abbrev pub is_parsed : ImportStatus → Bool
is_parsed parsed = true
is_parsed committed = false
is_parsed failed = false

-- The writes to the item.
abbrev pub settle_item : ItemPayload → ImportItemRow → ImportItemRow
settle_item payload item = record item {
  status = if is_error payload.error then failed else committed;
  error = payload.error;
  committed_expense_id = payload.expense_id;
}

-- `job.items.find(…)`, and the writes to the item that it finds.
unfoldable pub settle_found : ItemPayload → List ImportItemRow → Option (List ImportItemRow)
settle_found payload [] = none
settle_found payload (item ∷ items) =
    let rest = settle_found payload items in
    if item.item_id == payload.item_id
    then some (settle_item payload item ∷ items)
    else Option.map (λ later. item ∷ later) rest

-- A job after the writes to an item of it.
abbrev pub settled_job : Text → List ImportItemRow → ImportJobRow → ImportJobRow
settled_job now items job = record job {
  items = items;
  status = if any (λ item. is_failed item.status) items then failed else committed;
  updated_at = now;
}

unfoldable pub settle_job : Text → ItemPayload → ImportJobRow → Result MissingImport ImportJobRow
unfolding settle_found
settle_job now payload job = elim (settle_found payload job.items) [
  | none ↦ err (missing_item payload.item_id)
  | some items ↦ ok (settled_job now items job)
]

abbrev pub created_job : DomainEvent ImportPayload → JobPayload → ImportJobRow
created_job event payload = record {
  import_job_id = payload.import_job_id;
  group_id = payload.group_id;
  status = parsed;
  created_by = or_default (codes "system") event.actor_id;
  created_at = event.occurred_at;
  updated_at = event.occurred_at;
  items = payload.items;
}

abbrev pub put_job : Text → ImportJobRow → ImportsExports → ImportsExports
put_job id job state = record state { import_jobs = set id job state.import_jobs }

-- The branch of `ImportItemCommitted`.
unfoldable pub commit_item :
    DomainEvent ImportPayload → ItemPayload → ImportsExports → Result MissingImport ImportsExports
unfolding settle_job
commit_item event payload state = elim (get payload.import_job_id state.import_jobs) [
  | none ↦ err (missing_job payload.import_job_id)
  | some job ↦
      map_ok (λ settled. put_job payload.import_job_id settled state)
        (settle_job event.occurred_at payload job)
]

-- `apply`, by the type and the payload.
unfoldable pub apply_payload :
    DomainEvent ImportPayload
    → EventType
    → ImportPayload
    → ImportsExports
    → Result MissingImport ImportsExports
unfolding commit_item
apply_payload event import_job_created (job_payload payload) state =
    ok (put_job payload.import_job_id (created_job event payload) state)
apply_payload event import_item_committed (item_payload payload) state =
    commit_item event payload state
apply_payload event export_job_created (export_payload payload) state = ok (record state {
  export_jobs =
      set payload.export_job_id
        (record payload {
          created_by = or_default payload.created_by event.actor_id;
          created_at = event.occurred_at;
        })
        state.export_jobs;
})
apply_payload event _ _ state = ok state

unfoldable pub apply :
    ImportsExports → DomainEvent ImportPayload → Result MissingImport ImportsExports
unfolding apply_payload
apply state event = apply_payload event event.type event.payload state

-- `ProjectionRunner.apply`. The error of the projector ends it.
unfoldable pub apply_all :
    ImportsExports → List (DomainEvent ImportPayload) → Result MissingImport ImportsExports
unfolding apply
apply_all state [] = ok state
apply_all state (event ∷ events) = do next ← apply state event; apply_all next events

-- `getImportJob` and `getExportJob`.
abbrev pub get_import_job : Text → ImportsExports → Option ImportJobRow
get_import_job id state = get id state.import_jobs

abbrev pub get_export_job : Text → ImportsExports → Option ExportJobRow
get_export_job id state = get id state.export_jobs
