-- ===== src/Postings/Balanced.antt =====
-- `create`, and the sums of postings by currency
-- (packages/domain/src/ledger.ts).
use splitsaathi.Common.{List, Option-cases, [], arith, err, inl, inr, none, ok, ◌↔◌, ◌≡◌, ◌≢◌, ◌⊎◌}
use splitsaathi.Common.Int.{pos, ℤ}
use splitsaathi.Common.Keys.{Text}
use splitsaathi.Common.Tally.{
  add_totals, first_nonzero, first_nonzero_iff, first_nonzero_sum, sum_at,
}
use splitsaathi.Postings.{LedgerPosting, Unbalanced, create, unbalanced}

-- The sum of the postings in currency `c`.
abbrev pub total_in : Text → List LedgerPosting → ℤ
total_in = sum_at (λ p. p.currency_code) (λ p. p.signed_amount_minor)

-- In every currency the postings sum to zero.
abbrev pub IsBalanced : List LedgerPosting → Type 0
IsBalanced ps = (c : Text) → total_in c ps ≡ pos 0

create-none :
    (ps : List LedgerPosting)
    → create ps ≡ ok ps
    → first_nonzero (add_totals (λ p. p.currency_code) (λ p. p.signed_amount_minor) [] ps) ≡ none
unfolding create
create-none ps h = ground arith

-- The postings are accepted, and handed on as they are, exactly when they sum to zero in every
-- currency.
pub create_iff : (ps : List LedgerPosting) → (create ps ≡ ok ps) ↔ IsBalanced ps
unfolding create
create_iff ps =
    let (none→zero, zero→none) =
      first_nonzero_iff {A = LedgerPosting} (λ p. p.currency_code) (λ p. p.signed_amount_minor)
        ps in
    (λ h. none→zero (create-none ps h), λ h. rw (zero→none h, create))

-- A refusal names a currency whose postings do not sum to zero, and their sum.
pub create_refusal :
    (ps : List LedgerPosting) (c : Text) (t : ℤ)
    → create ps ≡ err (unbalanced c t)
    → (total_in c ps ≡ t) × (t ≢ pos 0)
unfolding create
create_refusal ps c t h =
    first_nonzero_sum (λ p. p.currency_code) (λ p. p.signed_amount_minor) ps c t (ground arith)

-- Postings that are accepted come back as they are.
pub create_cases :
    (ps : List LedgerPosting) → (create ps ≡ ok ps) ⊎ ((e : Unbalanced) × (create ps ≡ err e))
unfolding create
create_cases ps =
    elim (Option-cases
      (first_nonzero (add_totals (λ p. p.currency_code) (λ p. p.signed_amount_minor) [] ps))) [
        | inl e ↦ inl (rw (e, create))
        | inr ((c, t), e) ↦ inr (unbalanced c t, rw (e, create))
      ]
