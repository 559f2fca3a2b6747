-- ===== src/Outbox.antt =====
-- The outbox of the mobile app: apps/mobile/src/offline/outbox.ts, on its table.
pub mod Keeping
pub mod Flushing
mod Tests
use splitsaathi.Common.{
  Bool, List, Option, [], any, false, filter, if◌then◌else◌, length, map, none, not, or_default,
  some, true, ℕ, ◌++◌, ◌∷◌,
}
use splitsaathi.Common.Keys.{Text, codes, text_eq, ◌==◌}
use splitsaathi.OfflineSync.{
  OfflineCommand, OfflineCommandResult, ResultStatus, accepted, conflict, refused,
}

pub data OutboxStatus : Type 0 where
  queued syncing failed : OutboxStatus

-- `OutboxCommandRecord`. The payload is kept as JSON text there.
pub record OutboxRow (C : Type 0) : Type 0 where
  pub id : Text
  pub client_mutation_id : Text
  pub idempotency_key : Text
  pub command_type : Text
  pub payload : C
  pub expected_aggregate_version : Option ℕ
  pub created_at : Text
  pub status : OutboxStatus
  pub last_error : Option Text

-- `row.status === "queued" || row.status === "failed"`
abbrev pub is_pending_status : OutboxStatus → Bool
is_pending_status queued = true
is_pending_status syncing = false
is_pending_status failed = true

-- `status !== "accepted"`
abbrev pub is_accepted : ResultStatus → Bool
is_accepted accepted = true
is_accepted conflict = false
is_accepted refused = false

abbrev pub accepted_results : List OfflineCommandResult → List OfflineCommandResult
accepted_results results = filter (λ result. is_accepted result.status) results

abbrev pub rejected_results : List OfflineCommandResult → List OfflineCommandResult
rejected_results results = filter (λ result. not (is_accepted result.status)) results

abbrev pub result_status_text : ResultStatus → Text
result_status_text accepted = codes "accepted"
result_status_text conflict = codes "conflict"
result_status_text refused = codes "failed"

-- `rejection.error ?? rejection.status`
abbrev pub rejection_text : OfflineCommandResult → Text
rejection_text result = or_default (result_status_text result.status) result.error

module _ {C : Type 0} where
  -- `createOutboxRecord`, with its new ids and the time.
  abbrev pub new_row : Text → Text → Text → Text → Text → C → Option ℕ → OutboxRow C
  new_row id client_mutation_id idempotency_key now command_type payload expected = record {
    id = id;
    client_mutation_id = client_mutation_id;
    idempotency_key = idempotency_key;
    command_type = command_type;
    payload = payload;
    expected_aggregate_version = expected;
    created_at = now;
    status = queued;
    last_error = none;
  }

  -- `enqueueCommand`.
  unfoldable pub enqueue : OutboxRow C → List (OutboxRow C) → List (OutboxRow C)
  enqueue row rows = rows ++ row ∷ []

  abbrev pub is_pending : OutboxRow C → Bool
  is_pending row = is_pending_status row.status

  -- `update … set status = ? where id = ?`, for each of the rows.
  unfoldable pub mark :
      List (OutboxRow C) → (OutboxRow C → OutboxRow C) → List (OutboxRow C) → List (OutboxRow C)
  mark pending change rows =
      map (λ row. if any (λ p. p.id == row.id) pending then change row else row) rows

  abbrev pub to_syncing : OutboxRow C → OutboxRow C
  to_syncing row = record row { status = syncing }

  abbrev pub to_failed : Text → OutboxRow C → OutboxRow C
  to_failed message row = record row { status = failed; last_error = some message }

  -- The command of a row.
  abbrev pub command_of : OutboxRow C → OfflineCommand C
  command_of row = record {
    client_mutation_id = row.client_mutation_id;
    idempotency_key = row.idempotency_key;
    command_type = row.command_type;
    payload = row.payload;
  }

  -- `delete … where client_mutation_id = ?`, for each accepted result.
  unfoldable pub delete_accepted :
      List OfflineCommandResult → List (OutboxRow C) → List (OutboxRow C)
  delete_accepted results rows =
      filter (λ row. not (any (λ r. r.client_mutation_id == row.client_mutation_id) results)) rows

  -- `update … where client_mutation_id = ?`, for each rejected result in turn.
  unfoldable pub fail_rejected : List OfflineCommandResult → List (OutboxRow C) → List (OutboxRow C)
  fail_rejected [] rows = rows
  fail_rejected (result ∷ results) rows = fail_rejected results (
      map
        (λ row.
          if result.client_mutation_id == row.client_mutation_id
          then to_failed (rejection_text result) row
          else row)
        rows)

  -- What `flushOutbox` does with the results of the batch.
  unfoldable pub finish_flush : List OfflineCommandResult → List (OutboxRow C) → List (OutboxRow C)
  unfolding delete_accepted fail_rejected
  finish_flush results rows =
      fail_rejected (rejected_results results) (delete_accepted (accepted_results results) rows)

  -- The `catch` of `flushOutbox`.
  unfoldable pub fail_flush : Text → List (OutboxRow C) → List (OutboxRow C) → List (OutboxRow C)
  unfolding mark
  fail_flush message pending rows = mark pending (to_failed message) rows

  -- `listOutbox`: `select … order by created_at asc`, of which the database keeps the rows.
  module _ (ordered : List (OutboxRow C) → List (OutboxRow C)) where
    -- The rows that a flush sends.
    unfoldable pub pending_rows : List (OutboxRow C) → List (OutboxRow C)
    pending_rows rows = filter is_pending (ordered rows)

    -- The start of a flush: the table, and the commands of the batch.
    unfoldable pub start_flush : List (OutboxRow C) → List (OutboxRow C) × List (OfflineCommand C)
    unfolding pending_rows mark
    start_flush rows =
        let pending = pending_rows rows in (mark pending to_syncing rows, map command_of pending)

-- `getOutboxStatus`.
pub record OutboxCounts : Type 0 where
  pub queued_rows : ℕ
  pub syncing_rows : ℕ
  pub failed_rows : ℕ
  pub total : ℕ

abbrev is_queued : OutboxStatus → Bool
is_queued queued = true
is_queued syncing = false
is_queued failed = false

abbrev is_syncing : OutboxStatus → Bool
is_syncing queued = false
is_syncing syncing = true
is_syncing failed = false

abbrev is_failed : OutboxStatus → Bool
is_failed queued = false
is_failed syncing = false
is_failed failed = true

unfoldable pub outbox_counts : {C : Type 0} → List (OutboxRow C) → OutboxCounts
outbox_counts rows = record {
  queued_rows = length (filter (λ row. is_queued row.status) rows);
  syncing_rows = length (filter (λ row. is_syncing row.status) rows);
  failed_rows = length (filter (λ row. is_failed row.status) rows);
  total = length rows;
}
