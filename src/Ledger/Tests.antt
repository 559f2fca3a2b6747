-- ===== src/Ledger/Tests.antt =====
-- The theorems about the ledger at a ledger that was reached by calls
-- (apps/api/src/modules/ledger/ledger.service.ts).
use splitsaathi.Common.{none, ok, refl, ℕ, ◌≡◌}
use splitsaathi.Common.Keys.{codes, text_beq}
use splitsaathi.Balances.{assert_zero_sum}
use splitsaathi.Ledger.{append_and_project_at, on_module_init, project}
use splitsaathi.Ledger.Projecting.{IsConsistent}
use splitsaathi.Ledger.Runs.{Reach-IsConsistent, Reach-zero_sum, balance_projector}
use splitsaathi.Ledger.Samples.{ledger, plain, reached, sample_call, shorter, stored}
use splitsaathi.EventStore.Samples.{sample_hash, sample_uuid}
use splitsaathi.Common.Int.{◌+ℤ◌}
use splitsaathi.Postings.{create}
use splitsaathi.EventStore.{
  append, append_new, append_stored, check_events, earlier_record, idempotency_key, recorded_events,
  stored_events,
}
use splitsaathi.Common.Tally.{add_totals, first_nonzero}

Reach-IsConsistent_example :
    IsConsistent (balance_projector {P = ℕ}) (on_module_init balance_projector ledger)
Reach-IsConsistent_example = Reach-IsConsistent (balance_projector {P = ℕ}) sample_hash reached

Reach-zero_sum_example :
    assert_zero_sum shorter
      (codes "g")
      (on_module_init (balance_projector {P = ℕ}) ledger).projection
    ≡ none
Reach-zero_sum_example =
    Reach-zero_sum sample_hash shorter (on_module_init (balance_projector {P = ℕ}) ledger)
      (codes "g") reached plain

-- A call that is sent again while the first one runs has read its position before the first one has
-- stored its events: it answers with them, and projects them a second time.
interleaved_test :
    append_and_project_at
      (balance_projector {P = ℕ})
      sample_hash
      0
      (codes "t2")
      sample_uuid
      sample_call
      ledger
    ≡ ok (
      stored.0,
      record ledger { projection = project balance_projector ledger.projection stored.0 },
    )
unfolding append append_new earlier_record check_events create add_totals first_nonzero ◌+ℤ◌
    text_beq append_stored stored_events project idempotency_key recorded_events
interleaved_test = refl
