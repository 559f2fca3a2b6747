-- ===== src/Settlements/Balancing.antt =====
-- Sums of the postings of settlements
-- (apps/api/src/modules/settlements/settlement-command.service.ts, lines 23-42 and 364-479).
use splitsaathi.EventStore.Checks.{IsAcceptable, check_events-accepts, nothing-IsBalanced}
use splitsaathi.Common.{
  All, Bool, Bool-cases, List, [], if◌then◌else◌, inl, inr, ok, or_default, refl, ◌++◌, ◌∷◌, ◌≡◌,
}
use splitsaathi.Common.Int.{int_laws, neg, pos, sum_by, ℤ, ◌+ℤ◌}
use splitsaathi.Common.Keys.{Text, codes, text_eq, ◌==◌}
use splitsaathi.Common.Tally.{sum_at}
use splitsaathi.Postings.{LedgerPosting}
use splitsaathi.Postings.Balanced.{IsBalanced}
use splitsaathi.Settlements.{SettlementIntentRow}
use splitsaathi.Events.{NewDomainEvent}
use splitsaathi.Settlements.Commands.{
  SettlementTransitionCommand, TransitionKind, cancelling, confirming, disputing, events_of,
  expiring, refunding, rejecting, reversing, settlement_postings, turned_postings,
}
use splitsaathi.EventStore.{check_events}

settlement_postings-IsBalanced :
    (intent : SettlementIntentRow) (posting_type : Text)
    → IsBalanced (settlement_postings intent posting_type)
unfolding settlement_postings sum_at
settlement_postings-IsBalanced intent posting_type c =
    elim (Bool-cases (c == intent.currency_code)) [
      | inl here ↦ rw here (omega int_laws)
      | inr elsewhere ↦ rw elsewhere (omega int_laws)
    ]

turned_postings-IsBalanced :
    (intent : SettlementIntentRow) (posting_type : Text)
    → IsBalanced (turned_postings intent posting_type)
unfolding turned_postings sum_at
turned_postings-IsBalanced intent posting_type c = elim (Bool-cases (c == intent.currency_code)) [
  | inl here ↦ rw here (omega int_laws)
  | inr elsewhere ↦ rw elsewhere (omega int_laws)
]

-- What the postings do for the chosen participants and currencies.
abbrev pub effect : (Text → Text → Bool) → List LedgerPosting → ℤ
effect chosen postings =
    sum_by (λ p. if chosen p.participant_id p.currency_code then p.signed_amount_minor else pos 0)
      postings

-- All that some events post.
abbrev pub posted_by : {P : Type 0} → List (NewDomainEvent P) → List LedgerPosting
posted_by [] = []
posted_by (event ∷ events) = or_default [] event.postings ++ posted_by events

-- What counts of an amount for one participant of an intent.
abbrev pub amount_for : (Text → Text → Bool) → SettlementIntentRow → Text → ℤ
amount_for chosen intent participant =
    if chosen participant intent.currency_code then intent.amount_minor else pos 0

turned-effect :
    (chosen : Text → Text → Bool) (intent : SettlementIntentRow) (paid taken_back : Text)
    → effect chosen (settlement_postings intent paid ++ (turned_postings intent taken_back ++ []))
      ≡ pos 0
unfolding turned_postings
turned-effect chosen intent paid taken_back =
    elim (Bool-cases (chosen intent.payer_participant_id intent.currency_code)) [
      | inl payer ↦ elim (Bool-cases (chosen intent.payee_participant_id intent.currency_code)) [
        | inl payee ↦ rw (payer, payee) (omega int_laws)
        | inr no_payee ↦ rw (payer, no_payee) (omega int_laws)
      ]
      | inr no_payer ↦ elim (Bool-cases (chosen intent.payee_participant_id intent.currency_code)) [
        | inl payee ↦ rw (no_payer, payee) (omega int_laws)
        | inr no_payee ↦ rw (no_payer, no_payee) (omega int_laws)
      ]
    ]

confirmed-effect :
    (chosen : Text → Text → Bool) (intent : SettlementIntentRow) (paid : Text)
    → effect chosen (settlement_postings intent paid ++ [])
      ≡ amount_for chosen intent intent.payer_participant_id
        +ℤ neg (amount_for chosen intent intent.payee_participant_id)
unfolding settlement_postings
confirmed-effect chosen intent paid =
    elim (Bool-cases (chosen intent.payer_participant_id intent.currency_code)) [
      | inl payer ↦ elim (Bool-cases (chosen intent.payee_participant_id intent.currency_code)) [
        | inl payee ↦ rw (payer, payee) (omega int_laws)
        | inr no_payee ↦ rw (payer, no_payee) (omega int_laws)
      ]
      | inr no_payer ↦ elim (Bool-cases (chosen intent.payee_participant_id intent.currency_code)) [
        | inl payee ↦ rw (no_payer, payee) (omega int_laws)
        | inr no_payee ↦ rw (no_payer, no_payee) (omega int_laws)
      ]
    ]

-- The events of confirm give the payer of an intent its amount and take it from the payee; those of
-- reverse and those of refund, on the same intent, post the opposite, so that the payment and either of
-- them count for nothing, for every choice of participants and currencies.
pub events_of-effect :
    (chosen : Text → Text → Bool) (intent : SettlementIntentRow)
    (confirming_it turned_back : SettlementTransitionCommand)
    → (effect chosen (posted_by (events_of confirming confirming_it intent))
        ≡ amount_for chosen intent intent.payer_participant_id
          +ℤ neg (amount_for chosen intent intent.payee_participant_id))
      × (effect chosen (
            posted_by (events_of confirming confirming_it intent)
            ++ posted_by (events_of reversing turned_back intent))
          ≡ pos 0)
      × (effect chosen (
            posted_by (events_of confirming confirming_it intent)
            ++ posted_by (events_of refunding turned_back intent))
          ≡ pos 0)
unfolding settlement_postings turned_postings
events_of-effect chosen intent confirming_it turned_back = (
  confirmed-effect chosen intent (codes "settlement_payment"),
  turned-effect chosen intent (codes "settlement_payment") (codes "settlement_reversal"),
  turned-effect chosen intent (codes "settlement_payment") (codes "settlement_refund"),
)

-- Whatever confirm, reverse, refund, reject, dispute, expire or cancel does to an intent, the checks of
-- `append` accept its events.
pub events_of-IsAcceptable :
    (kind : TransitionKind) (command : SettlementTransitionCommand) (intent : SettlementIntentRow)
    → check_events
        (codes "settlement_intent")
        command.settlement_intent_id
        (events_of kind command intent)
      ≡ ok tt
events_of-IsAcceptable kind command intent =
    check_events-accepts (codes "settlement_intent") command.settlement_intent_id
      (events_of kind command intent) (acceptable kind)
  where
    acceptable :
        (kind : TransitionKind)
        → All
            (IsAcceptable (codes "settlement_intent") command.settlement_intent_id)
            (events_of kind command intent)
    acceptable confirming = (
      (refl, refl, nothing-IsBalanced),
      ((refl, refl, settlement_postings-IsBalanced intent (codes "settlement_payment")), tt),
    )
    acceptable reversing =
        ((refl, refl, turned_postings-IsBalanced intent (codes "settlement_reversal")), tt)
    acceptable refunding =
        ((refl, refl, turned_postings-IsBalanced intent (codes "settlement_refund")), tt)
    acceptable rejecting = ((refl, refl, nothing-IsBalanced), tt)
    acceptable disputing = ((refl, refl, nothing-IsBalanced), tt)
    acceptable expiring = ((refl, refl, nothing-IsBalanced), tt)
    acceptable cancelling = ((refl, refl, nothing-IsBalanced), tt)
