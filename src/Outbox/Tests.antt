-- ===== src/Outbox/Tests.antt =====
-- Tests of the outbox (apps/mobile/src/offline/outbox.ts).
use splitsaathi.Common.{
  All, Bool, List, Result, [], err, false, map, none, ok, refl, some, true, ℕ, ◌++◌, ◌∷◌, ◌≡◌,
}
use splitsaathi.Common.Keys.{Text, codes, text_beq}
use splitsaathi.Events.{DomainEvent}
use splitsaathi.EventStore.{Store, empty_store, idempotency_conflict}
use splitsaathi.OfflineSync.{OfflineCommand, RouteError, Services, execute_batch, from_store, sync}
use splitsaathi.Outbox.{
  OutboxRow, enqueue, fail_flush, failed, finish_flush, new_row, outbox_counts, rejected_results,
  start_flush, to_failed,
}
use splitsaathi.Outbox.Keeping.{
  Device, IsKept, Reach, Reach-IsKept, entering, installed, killed, next, starting,
}
use splitsaathi.Outbox.Flushing.{IsRefused, flush_settles}

-- Commands whose payload says whether the server takes them.
abbrev row_of : Text → Bool → OutboxRow Bool
row_of id good = new_row id id (codes "key-" ++ id) (codes "t") (codes "expense.create") good none

abbrev in_order : List (OutboxRow Bool) → List (OutboxRow Bool)
in_order rows = rows

abbrev take_good :
    OfflineCommand Bool → Store ℕ → Result RouteError (List (DomainEvent ℕ)) × Store ℕ
take_good command store = (
  elim command.payload [
    | true ↦ ok []
    | false ↦ err (from_store (idempotency_conflict command.idempotency_key))
  ],
  store,
)

abbrev server : Services Bool ℕ
server = record { State = Store ℕ; store = λ s. s; route = take_good; message = λ why. codes "no" }

abbrev waiting : List (OutboxRow Bool)
waiting = row_of (codes "1") true ∷ row_of (codes "2") false ∷ []

flush_test :
    finish_flush
      (execute_batch server (start_flush in_order waiting).1 none empty_store).0.results
      (start_flush in_order waiting).0
    ≡ record (row_of (codes "2") false) { status = failed; last_error = some (codes "no") } ∷ []
unfolding finish_flush execute_batch start_flush text_beq
flush_test = refl

flush_settles_example :
    let results =
      (execute_batch server (start_flush in_order waiting).1 none empty_store).0.results in
    All
      (IsRefused (rejected_results results))
      (finish_flush results (start_flush in_order waiting).0)
flush_settles_example =
    flush_settles in_order (λ p rows. refl) waiting server none empty_store (refl, (refl, tt))

-- The app is killed during its first flush.
abbrev interrupted : Device Bool
interrupted = record {
  rows = (start_flush in_order (enqueue (row_of (codes "1") true) [])).0;
  sent = [];
  entered = row_of (codes "1") true ∷ [];
  accepted_ids = [];
}

interrupted-Reach : Reach in_order interrupted
interrupted-Reach =
    next (next (next installed (entering _ (row_of (codes "1") true))) (starting _)) (killed _)

Reach-IsKept_example : All (IsKept interrupted.rows []) interrupted.entered
Reach-IsKept_example = Reach-IsKept in_order interrupted-Reach

-- The next flush sends nothing, and leaves the row as it is.
stuck_test : start_flush in_order interrupted.rows ≡ (interrupted.rows, [])
unfolding start_flush enqueue text_beq
stuck_test = refl

counts_test : (outbox_counts interrupted.rows).syncing_rows ≡ 1
unfolding outbox_counts start_flush enqueue text_beq
counts_test = refl

failed_test :
    fail_flush (codes "offline") waiting waiting ≡ map (to_failed (codes "offline")) waiting
unfolding fail_flush text_beq
failed_test = refl

sync_test : sync server 0 empty_store ≡ ([], 0)
unfolding sync
sync_test = refl
