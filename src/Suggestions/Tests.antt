-- ===== src/Suggestions/Tests.antt =====
-- Tests of the suggestions for a group
-- (apps/api/src/modules/settlements/settlement-suggestion.service.ts).
use splitsaathi.Common.{Bool, ℕ, ◌≡◌}
use splitsaathi.Common.Keys.{Text, codes, text_eq, ◌==◌}
use splitsaathi.Expenses.Projection.{reset}
use splitsaathi.Ledger.{on_module_init}
use splitsaathi.Ledger.Runs.{balance_projector}
use splitsaathi.Ledger.Samples.{ledger, plain, reached, shorter}
use splitsaathi.EventStore.Samples.{sample_hash}
use splitsaathi.Optimizer.Settling.{net_received}
use splitsaathi.Suggestions.{suggest_for_group}
use splitsaathi.Suggestions.Group.{chosen_balance, suggest_for_group-settles}

-- Everyone in rupees.
abbrev in_rupees : Text → Text → Bool
in_rupees participant currency = currency == codes "INR"

suggest_for_group-settles_example :
    net_received in_rupees (
      suggest_for_group shorter shorter
        (codes "g")
        (on_module_init (balance_projector {P = ℕ}) ledger).projection
        reset)
    ≡ chosen_balance shorter in_rupees
        (codes "g")
        (on_module_init (balance_projector {P = ℕ}) ledger).projection
suggest_for_group-settles_example =
    suggest_for_group-settles sample_hash shorter shorter
      (on_module_init (balance_projector {P = ℕ}) ledger) (codes "g") reset in_rupees reached plain
