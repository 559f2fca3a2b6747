-- ===== src/Optimizer/Rounds.antt =====
-- The loop over debtors and creditors (packages/domain/src/settlement-optimizer.ts, lines 69-86).
use Prim.Native.Nat.{min}
use splitsaathi.Common.{
  Bool, Bool-cases, List, [], all, arith, if◌then◌else◌, inl, inr, leb, length, suc, ℕ, ◌++◌, ◌+◌,
  ◌∷◌, ◌≡◌, ◌≤◌, ◌⊎◌,
}
use splitsaathi.Common.Keys.{Text}
use splitsaathi.Optimizer.{SettlementSuggestion, Side, advance}

-- What is left of the sides that the test chooses.
abbrev pub left_sum : (Text → Bool) → List Side → ℕ
left_sum chosen [] = 0
left_sum chosen (side ∷ sides) =
    (if chosen side.participant_id then side.left else 0) + left_sum chosen sides

module _ (chosen : Text → Text → Bool) where
  -- What the suggestions make the chosen participants pay, and what they make them receive.
  abbrev pub paid_sum : List SettlementSuggestion → ℕ
  paid_sum [] = 0
  paid_sum (s ∷ suggestions) =
      (if chosen s.payer_participant_id s.currency_code then s.amount_minor else 0)
      + paid_sum suggestions

  abbrev pub received_sum : List SettlementSuggestion → ℕ
  received_sum [] = 0
  received_sum (s ∷ suggestions) =
      (if chosen s.payee_participant_id s.currency_code then s.amount_minor else 0)
      + received_sum suggestions

  pub paid_sum-append :
      (front : List SettlementSuggestion) (last : SettlementSuggestion)
      → paid_sum (front ++ last ∷ [])
        ≡ paid_sum front
          + (if chosen last.payer_participant_id last.currency_code then last.amount_minor else 0)
  paid_sum-append [] last = omega arith
  paid_sum-append (s ∷ front) last = omega (arith, paid_sum-append front last)

  pub received_sum-append :
      (front : List SettlementSuggestion) (last : SettlementSuggestion)
      → received_sum (front ++ last ∷ [])
        ≡ received_sum front
          + (if chosen last.payee_participant_id last.currency_code then last.amount_minor else 0)
  received_sum-append [] last = omega arith
  received_sum-append (s ∷ front) last = omega (arith, received_sum-append front last)

-- What is taken from the head is missing afterwards.
pub left_sum-advance :
    (chosen : Text → Bool) (amount : ℕ) (side : Side) (sides : List Side)
    → amount ≤ side.left
    → left_sum chosen (advance amount side sides)
        + (if chosen side.participant_id then amount else 0)
      ≡ left_sum chosen (side ∷ sides)
left_sum-advance chosen amount side sides le = ground arith

length-advance :
    (amount : ℕ) (side : Side) (sides : List Side)
    → length (advance amount side sides) ≤ suc (length sides)
length-advance amount side sides = ground arith

length-advance_all :
    (side : Side) (sides : List Side) (amount : ℕ)
    → amount ≡ side.left
    → length (advance amount side sides) ≡ length sides
length-advance_all side sides amount all = ground arith

min_cases : (m n : ℕ) → (min m n ≡ m) ⊎ (min m n ≡ n)
min_cases m n = elim (Bool-cases (leb m n)) [
  | inl le ↦ inl (ground arith)
  | inr gt ↦ inr (ground arith)
]

-- One round settles a debtor or a creditor.
pub rounds_down :
    (debtor creditor : Side) (debtors creditors : List Side)
    → length (advance (min debtor.left creditor.left) debtor debtors)
        + length (advance (min debtor.left creditor.left) creditor creditors)
      ≤ suc (length debtors + length creditors)
rounds_down debtor creditor debtors creditors =
    let amount = min debtor.left creditor.left in
    elim (min_cases debtor.left creditor.left) [
      | inl paid ↦ omega (
        arith,
        length-advance_all debtor debtors amount paid,
        length-advance amount creditor creditors,
      )
      | inr received ↦ omega (
        arith,
        length-advance_all creditor creditors amount received,
        length-advance amount debtor debtors,
      )
    ]
