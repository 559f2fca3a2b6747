-- ===== src/Expenses/LifeTests.antt =====
-- Tests of the life of an expense (apps/api/src/modules/ledger/expense.projector.ts).
use splitsaathi.Common.{Bool, [], none, ok, refl, some, ℕ, ◌++◌, ◌∷◌, ◌≡◌}
use splitsaathi.Common.Keys.{Text, codes, text_beq, text_eq, ◌==◌}
use splitsaathi.Events.{DomainEvent}
use splitsaathi.EventStore.{stored_event, stored_events}
use splitsaathi.Rounding.Fractions.{fractions}
use splitsaathi.Expenses.Commands.{ExpensePayload, active_expense}
use splitsaathi.Expenses.Service.{ReviseExpenseCommand, created_event, revised_event}
use splitsaathi.Expenses.Balancing.{sum_of}
use splitsaathi.Expenses.Projection.{
  ExpenseProjection, adjusted_row, apply, created_row, get_expense, record_row, reset,
}
use splitsaathi.Expenses.Lifecycle.{Lived, Lived-sum, current_sum, was_created, was_revised}
use splitsaathi.Expenses.Samples.{
  dinner, dinner_command, dinner_run, feast, feast_command, feast_run,
}

abbrev uuid : ℕ → Text
uuid i = i ∷ []

abbrev dinner_created : DomainEvent ExpensePayload
dinner_created = stored_event (codes "t") uuid 0 0 0 (created_event fractions dinner_command dinner)

abbrev revision : ReviseExpenseCommand fractions
revision = record { fields = feast_command; expense_id = codes "e"; expected_version = 1 }

abbrev dinner_revised : DomainEvent ExpensePayload
dinner_revised = stored_event (codes "u") uuid 1 1 0 (revised_event fractions revision dinner feast)

abbrev after_creation : ExpenseProjection
after_creation = record_row dinner_created none none (created_row dinner_created dinner) reset

abbrev after_revision : ExpenseProjection
after_revision =
    record_row dinner_revised none (some (created_row dinner_created dinner))
      (adjusted_row dinner_revised feast (created_row dinner_created dinner)) after_creation

creation_run : apply reset dinner_created ≡ ok after_creation
unfolding apply
creation_run = refl

revision_run : apply after_creation dinner_revised ≡ ok after_revision
unfolding apply text_beq
revision_run = refl

dinner_active : active_expense (codes "e") (get_expense after_creation (codes "e")) ≡ ok dinner
unfolding active_expense text_beq
dinner_active = refl

dinner-Lived :
    Lived fractions (codes "e") after_revision (dinner_created.postings ++ dinner_revised.postings)
unfolding stored_events
dinner-Lived =
    was_revised after_creation after_revision dinner_created.postings revision dinner feast
      dinner_revised (codes "u") uuid 1 1
      (was_created reset after_creation dinner_command dinner dinner_created (codes "t") uuid 0 0
        refl dinner_run refl creation_run)
      refl dinner_active feast_run refl revision_run

-- What b owes.
abbrev for_b : Text → Text → Bool
for_b participant currency = participant == codes "b"

Lived-sum_example :
    sum_of for_b (dinner_created.postings ++ dinner_revised.postings)
    ≡ current_sum for_b (get_expense after_revision (codes "e"))
Lived-sum_example =
    Lived-sum fractions (codes "e") for_b after_revision
      (dinner_created.postings ++ dinner_revised.postings) dinner-Lived
