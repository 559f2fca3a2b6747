-- ===== src/StateMachine/Runs.antt =====
-- Which transitions there are: the final states, and the states that no run reaches
-- (packages/domain/src/settlement-state-machine.ts).
use splitsaathi.Common.{
  >>=-eq-ok, Bool, List, [], arith, false, not, ok, true, ◌++◌, ◌↔◌, ◌∷◌, ◌≡◌, ◌≢◌,
}
use splitsaathi.StateMachine.{
  SettlementEvent, SettlementState, auto_matched, awaiting_payment_evidence,
  awaiting_receiver_confirmation, can, cancel, cancelled, confirm, confirmed, create_intent,
  expired, intent_created, intent_generated, ledger_posted, payer_opened_upi_app, post_ledger,
  refunded, reject, rejected, reverse, reversed, run, suggested, transition,
}

abbrev pub is_final : SettlementState → Bool
is_final expired = true
is_final cancelled = true
is_final rejected = true
is_final reversed = true
is_final refunded = true
is_final _ = false

-- An event that a state which is not final accepts.
exit : SettlementState → SettlementEvent
exit suggested = create_intent
exit intent_created = cancel
exit intent_generated = cancel
exit payer_opened_upi_app = cancel
exit awaiting_payment_evidence = cancel
exit awaiting_receiver_confirmation = confirm
exit confirmed = post_ledger
exit ledger_posted = reverse
exit auto_matched = confirm
exit _ = reject

can-exit : (s : SettlementState) → can s (exit s) ≡ not (is_final s)
unfolding can exit
can-exit suggested = ground arith
can-exit _ = ground arith

final_no_exit : (s : SettlementState) (e : SettlementEvent) → is_final s ≡ true → can s e ≡ false
unfolding can
final_no_exit suggested e h = ground arith
final_no_exit _ e h = ground arith

-- A state accepts no event at all exactly when it is one of expired, cancelled, rejected, reversed
-- and refunded.
pub final_iff :
    (s : SettlementState) → (is_final s ≡ true) ↔ ((e : SettlementEvent) → can s e ≡ false)
final_iff s = (λ h e. final_no_exit s e h, λ h. ground (arith, can-exit s, h (exit s)))

transition-ne-awaiting :
    (s t : SettlementState) (e : SettlementEvent)
    → transition s e ≡ ok t
    → t ≢ awaiting_payment_evidence
unfolding transition
transition-ne-awaiting suggested t e h = ground arith
transition-ne-awaiting _ t e h = ground arith

pub run_cons :
    (s t : SettlementState) (e : SettlementEvent) (es : List SettlementEvent)
    → run s (e ∷ es) ≡ ok t
    → (u : SettlementState) × (transition s e ≡ ok u) × (run u es ≡ ok t)
unfolding run
run_cons s t e es h = >>=-eq-ok (transition s e) (λ u. run u es) h

pub run-append :
    (s u : SettlementState) (es fs : List SettlementEvent)
    → run s es ≡ ok u
    → run s (es ++ fs) ≡ run u fs
unfolding run
run-append s u [] fs h = ground arith
run-append s u (e ∷ es) fs h =
    let (v, step, rest) = run_cons s u e es h in rw step (run-append v u es fs rest)

run-ne-awaiting_from :
    (s t : SettlementState) (es : List SettlementEvent)
    → s ≢ awaiting_payment_evidence
    → run s es ≡ ok t
    → t ≢ awaiting_payment_evidence
unfolding run
run-ne-awaiting_from s t [] n h = ground arith
run-ne-awaiting_from s t (e ∷ es) n h =
    let (u, step, rest) = run_cons s t e es h in
    run-ne-awaiting_from u t es (transition-ne-awaiting s u e step) rest

-- No sequence of events leads from `suggested` to `awaiting_payment_evidence`: the row of that state
-- is dead.
pub run-ne-awaiting :
    (es : List SettlementEvent) (t : SettlementState)
    → run SettlementState.suggested es ≡ ok t
    → t ≢ awaiting_payment_evidence
run-ne-awaiting es t h = run-ne-awaiting_from suggested t es (λ e. cc) h
