-- ===== src/Ledger/Samples.antt =====
-- A ledger that is reached by a call and a restart, for tests
-- (apps/api/src/modules/ledger/ledger.service.ts).
use splitsaathi.Common.{All, Bool, List, [], arith, length, ltb, ok, refl, some, ℕ, ◌≡◌}
use splitsaathi.Common.Int.{◌+ℤ◌}
use splitsaathi.Common.Keys.{Text, codes, text_beq}
use splitsaathi.Common.Tally.{add_totals, first_nonzero}
use splitsaathi.Postings.{create}
use splitsaathi.Events.{AppendEventsInput, DomainEvent, version}
use splitsaathi.Balances.ZeroSum.{IsPlainEvent}
use splitsaathi.EventStore.{
  Store, append, append_new, append_stored, check_events, earlier_record, empty_store,
  get_last_global_position, stored_events,
}
use splitsaathi.EventStore.Samples.{sample_hash, sample_input, sample_uuid}
use splitsaathi.Ledger.{LedgerState, append_and_project, on_module_init, project}
use splitsaathi.Ledger.Runs.{Reach, balance_projector, call, restart, start}

abbrev pub sample_call : AppendEventsInput ℕ Text
sample_call = sample_input (codes "e1") (version 0) (some (codes "k1")) (codes "p1")

abbrev pub stored : List (DomainEvent ℕ) × Store ℕ
stored = append_stored sample_hash (codes "t1") sample_uuid sample_call 0 empty_store

abbrev pub ledger : LedgerState (balance_projector {P = ℕ})
ledger = record { store = stored.1; projection = project balance_projector [] stored.0 }

called :
    append_and_project
      (balance_projector {P = ℕ})
      sample_hash
      (codes "t1")
      sample_uuid
      sample_call
      (record { store = empty_store; projection = [] })
    ≡ ok (stored.0, ledger)
unfolding append_and_project append append_new earlier_record check_events create add_totals
    first_nonzero ◌+ℤ◌ text_beq append_stored stored_events get_last_global_position project
called = refl

pub reached :
    Reach (balance_projector {P = ℕ}) sample_hash (on_module_init balance_projector ledger)
reached = restart (call (codes "t1") sample_uuid sample_call stored.0 start called)

pub plain : All IsPlainEvent (on_module_init (balance_projector {P = ℕ}) ledger).store.events
unfolding on_module_init append_stored stored_events get_last_global_position
plain = ground arith

-- Texts in the order of their lengths, in place of `localeCompare`.
abbrev pub shorter : Text → Text → Bool
shorter a b = ltb (length a) (length b)
