-- ===== src/Settlements/Proving.antt =====
-- What the projector makes of proofs of payment
-- (apps/api/src/modules/settlements/settlement-command.service.ts, lines 223-287, and
-- apps/api/src/modules/settlements/settlement.projector.ts).
use splitsaathi.Common.{>>=-eq-ok, [], ap, ok, ok-injective, refl, some, sym, ℕ, ◌∙◌, ◌∷◌, ◌≡◌}
use splitsaathi.Common.Keys.{Text, text_eq}
use splitsaathi.StateMachine.{
  SettlementEvent, SettlementState, awaiting_payment_evidence, awaiting_receiver_confirmation, can,
  detect_duplicate, detect_partial, duplicate_reference_review, intent_generated, partial_detected,
  payer_opened_upi_app, proof_submitted, request_confirmation, run, submit_proof, transition,
}
use splitsaathi.EventStore.{stored_events}
use splitsaathi.Settlements.{SettlementIntentRow}
use splitsaathi.Settlements.Projection.{Settlements, apply_all, get_intent}
use splitsaathi.Settlements.Requests.{SubmitPaymentProofCommand}
use splitsaathi.Settlements.Evidence.{
  ProofKind, duplicate, matching, partial_payment, proof_events, proof_transitions,
}
use splitsaathi.Settlements.Following.{IsMoving, apply_all-follows, deal}
use splitsaathi.Common.Dict.{Dict}

-- The state that a classified proof leads to.
abbrev pub proof_state : ProofKind → SettlementState
proof_state duplicate = duplicate_reference_review
proof_state partial_payment = partial_detected
proof_state matching = awaiting_receiver_confirmation

-- A submitted proof leads to the same state, whichever the intent was in.
submit_proof_state :
    (state next : SettlementState)
    → transition state submit_proof ≡ ok next
    → next ≡ proof_submitted
unfolding transition can
submit_proof_state intent_generated next h = sym (ok-injective h)
submit_proof_state payer_opened_upi_app next h = sym (ok-injective h)
submit_proof_state awaiting_payment_evidence next h = sym (ok-injective h)
submit_proof_state _ next h = cc

-- The second transition of a classified proof.
abbrev second_of : ProofKind → SettlementEvent
second_of duplicate = detect_duplicate
second_of partial_payment = detect_partial
second_of matching = request_confirmation

second_state :
    (kind : ProofKind) → run proof_submitted (second_of kind ∷ []) ≡ ok (proof_state kind)
unfolding run transition
second_state duplicate = refl
second_state partial_payment = refl
second_state matching = refl

proof_transitions-eq :
    (kind : ProofKind) → proof_transitions kind ≡ submit_proof ∷ second_of kind ∷ []
proof_transitions-eq duplicate = refl
proof_transitions-eq partial_payment = refl
proof_transitions-eq matching = refl

classified_state :
    (kind : ProofKind) (state reached : SettlementState)
    → run state (proof_transitions kind) ≡ ok reached
    → reached ≡ proof_state kind
unfolding run
classified_state kind state reached runs =
    let (middle, first, rest) =
      >>=-eq-ok (transition state submit_proof) _
        (ap (run state) (sym (proof_transitions-eq kind)) ∙ runs) in
    ok-injective (
      sym rest
      ∙ ap (λ s. run s (second_of kind ∷ [])) (submit_proof_state state middle first)
      ∙ second_state kind)

proof_events_move :
    (now : Text) (random_uuid : ℕ → Text) (actual_version count : ℕ)
    (command : SubmitPaymentProofCommand) (intent : SettlementIntentRow) (proof_id : Text)
    (kind : ProofKind)
    → IsMoving command.settlement_intent_id
        (stored_events now random_uuid actual_version count 0
          (proof_events command intent proof_id kind))
        (proof_transitions kind)
unfolding proof_events stored_events
proof_events_move now random_uuid v n command intent proof_id duplicate =
    (refl, refl, (refl, refl, tt))
proof_events_move now random_uuid v n command intent proof_id partial_payment =
    (refl, refl, (refl, refl, tt))
proof_events_move now random_uuid v n command intent proof_id matching =
    (refl, refl, (refl, refl, tt))

module _ (now : Text) (random_uuid : ℕ → Text) (actual_version count : ℕ)
    (command : SubmitPaymentProofCommand) (settlements : Settlements) (intent : SettlementIntentRow)
    (proof_id : Text) (kind : ProofKind) (reached : SettlementState)
    (found : get_intent settlements command.settlement_intent_id ≡ some intent)
    (allowed : run intent.state (proof_transitions kind) ≡ ok reached) where
  -- When the transitions that `submitProof` tests are allowed, the projector takes its two events without
  -- an error: the intent waits for its receiver, or is under review as a partial payment or a duplicate
  -- reference, just as the proof was classified, and who pays whom how much is as it was.
  pub proof_events_project :
      (after : Settlements) × (last : SettlementIntentRow) × (apply_all settlements (
          stored_events now random_uuid actual_version count 0
            (proof_events command intent proof_id kind))
        ≡ ok after)
      × (get_intent after command.settlement_intent_id ≡ some last)
      × (last.state ≡ proof_state kind)
      × (deal last ≡ deal intent)
  proof_events_project =
      let (after, last, ran, there, state, same_deal, indexed) =
        apply_all-follows command.settlement_intent_id _ (proof_transitions kind) settlements intent
          reached
          (proof_events_move now random_uuid actual_version count command intent proof_id kind)
          found allowed in
      (
        after,
        last,
        ran,
        there,
        state ∙ classified_state kind intent.state reached allowed,
        same_deal,
      )
