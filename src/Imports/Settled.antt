-- ===== src/Imports/Settled.antt =====
-- What the projector makes of a commit of an import
-- (apps/api/src/modules/imports-exports/splitwise-import.service.ts, lines 113-176, and
-- apps/api/src/modules/imports-exports/imports-exports.projector.ts).
use mathlib.Core.Option
use splitsaathi.Common.{Bool, List, any, false, if◌then◌else◌, is_empty, true, ℕ}
use splitsaathi.Common.Keys.{Text, text_eq}
use splitsaathi.Events.{DomainEvent, NewDomainEvent}
use splitsaathi.EventStore.{stored_events}
use splitsaathi.Imports.{CommitImportCommand, ImportJobRow, ImportStatus, committed, failed, parsed}
use splitsaathi.Imports.Projection.{ImportPayload}
use splitsaathi.Imports.Committing.{ImportExpenses, parsed_items}
use splitsaathi.Imports.InPlace.{in_place}

-- The status is `failed`.
abbrev pub has_failed : ImportStatus → Bool
has_failed parsed = false
has_failed committed = false
has_failed failed = true

module _ (expenses : ImportExpenses) (command : CommitImportCommand) (group_id : Text) where
  -- The job after the events of a commit. A job without a parsed item has no events.
  abbrev pub committed_job : Text → expenses.State → ImportJobRow → ImportJobRow
  committed_job now made job = if is_empty (parsed_items job.items) then job else record job {
    items = in_place expenses command group_id job.items made;
    status =
        if any (λ item. has_failed item.status) (in_place expenses command group_id job.items made)
        then failed
        else committed;
    updated_at = now;
  }

  module _ (now : Text) (random_uuid : ℕ → Text) (actual_version count : ℕ) where
    abbrev stored : ℕ → List (NewDomainEvent ImportPayload) → List (DomainEvent ImportPayload)
    stored index events = stored_events now random_uuid actual_version count index events
