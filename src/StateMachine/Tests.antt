-- ===== src/StateMachine/Tests.antt =====
-- Runs of the settlement state machine, and its theorems at concrete inputs
-- (packages/domain/src/settlement-state-machine.spec.ts).
use splitsaathi.Common.{List, [], err, false, ok, refl, true, ◌+◌, ◌↔◌, ◌∷◌, ◌≡◌, ◌≢◌}
use splitsaathi.StateMachine.{
  SettlementEvent, auto_match, awaiting_payment_evidence, can, confirm, create_intent, disputed,
  generate_intent, intent_created, invalid, ledger_posted, open_upi_app, post_ledger, reverse,
  reversed, run, submit_proof, suggested, transition,
}
use splitsaathi.StateMachine.Runs.{final_iff, is_final, run-ne-awaiting}
use splitsaathi.StateMachine.Posting.{
  confirms, confirms-eq-posts, pending, posted, posts, posts_unbounded, posts_without_dispute,
}

abbrev upi_run : List SettlementEvent
upi_run =
    create_intent ∷ generate_intent ∷ open_upi_app ∷ submit_proof ∷ auto_match ∷ confirm
    ∷ post_ledger ∷ reverse ∷ []

run-upi_run : run suggested upi_run ≡ ok reversed
unfolding run transition
run-upi_run = refl

run_too_early :
    run suggested (create_intent ∷ post_ledger ∷ []) ≡ err (invalid intent_created post_ledger)
unfolding run transition
run_too_early = refl

final_iff_test : (is_final disputed ≡ true) ↔ ((e : SettlementEvent) → can disputed e ≡ false)
final_iff_test = final_iff disputed

not_awaiting_test : reversed ≢ awaiting_payment_evidence
not_awaiting_test = run-ne-awaiting upi_run reversed run-upi_run

confirms-eq-posts_example : confirms upi_run ≡ posts upi_run + pending reversed
confirms-eq-posts_example = confirms-eq-posts upi_run reversed run-upi_run

posts_without_dispute_example : posts upi_run ≡ posted reversed
posts_without_dispute_example = posts_without_dispute upi_run reversed run-upi_run refl

posts_unbounded_example :
    (es : List SettlementEvent) × (run suggested es ≡ ok ledger_posted) × (posts es ≡ 3)
posts_unbounded_example = posts_unbounded 2
