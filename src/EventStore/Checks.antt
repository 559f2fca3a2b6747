-- ===== src/EventStore/Checks.antt =====
-- Batches that the checks of `append` accept (apps/api/src/modules/ledger/event-store.ts, lines 69-74).
use splitsaathi.Common.Tally.{sum_at}
use splitsaathi.Common.{All, List, [], arith, ok, or_default, refl, ◌∷◌, ◌≡◌}
use splitsaathi.Common.Keys.{Text, text_beq_iff}
use splitsaathi.Postings.Balanced.{IsBalanced, create_iff}
use splitsaathi.Events.{NewDomainEvent}
use splitsaathi.EventStore.{check_events}

-- An event of the stream, with balanced postings or none.
abbrev pub IsAcceptable : {P : Type 0} → Text → Text → NewDomainEvent P → Type 0
IsAcceptable aggregate_type aggregate_id event =
    (event.aggregate_type ≡ aggregate_type)
    × (event.aggregate_id ≡ aggregate_id)
    × IsBalanced (or_default [] event.postings)

-- A batch of such events passes.
pub check_events-accepts :
    {P : Type 0} (aggregate_type aggregate_id : Text) (events : List (NewDomainEvent P))
    → All (IsAcceptable aggregate_type aggregate_id) events
    → check_events aggregate_type aggregate_id events ≡ ok tt
unfolding check_events
check_events-accepts aggregate_type aggregate_id [] acceptable = refl
check_events-accepts aggregate_type aggregate_id (event ∷ events) ((type, id, balanced), later) =
    let accepted = (create_iff (or_default [] event.postings)).1 balanced in
    let same_type = (text_beq_iff event.aggregate_type aggregate_type).1 type in
    let same_id = (text_beq_iff event.aggregate_id aggregate_id).1 id in
    let rest = check_events-accepts aggregate_type aggregate_id events later in ground arith

pub nothing-IsBalanced : IsBalanced []
unfolding sum_at
nothing-IsBalanced c = refl
