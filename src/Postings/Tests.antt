-- ===== src/Postings/Tests.antt =====
-- Sets of postings, and the theorems about them at concrete inputs (packages/domain/src/ledger.spec.ts).
use splitsaathi.Common.{List, [], err, ok, refl, ◌↔◌, ◌∷◌, ◌≡◌, ◌≢◌}
use splitsaathi.Common.Int.{negsuc, pos, ℤ, ◌+ℤ◌}
use splitsaathi.Common.Keys.{Text, codes, text_beq}
use splitsaathi.Common.Tally.{add_totals, first_nonzero}
use splitsaathi.Postings.{LedgerPosting, create, unbalanced}
use splitsaathi.Postings.Balanced.{IsBalanced, create_iff, create_refusal, total_in}

abbrev posting : Text → Text → ℤ → LedgerPosting
posting participant currency amount = record {
  participant_id = participant;
  currency_code = currency;
  signed_amount_minor = amount;
  posting_type = codes "expense_paid";
  source_type = codes "expense";
  source_id = codes "e1";
}

abbrev paid : List LedgerPosting
paid =
    posting (codes "a") (codes "INR") (pos 1000)
    ∷ posting (codes "a") (codes "INR") (negsuc 499)
    ∷ posting (codes "b") (codes "INR") (negsuc 499)
    ∷ []

abbrev off_by_one : List LedgerPosting
off_by_one =
    posting (codes "a") (codes "USD") (pos 3)
    ∷ posting (codes "a") (codes "INR") (pos 10)
    ∷ posting (codes "a") (codes "USD") (negsuc 2)
    ∷ posting (codes "b") (codes "INR") (negsuc 8)
    ∷ []

create-paid : create paid ≡ ok paid
unfolding create add_totals first_nonzero ◌+ℤ◌ text_beq
create-paid = refl

create-off_by_one : create off_by_one ≡ err (unbalanced (codes "INR") (pos 1))
unfolding create add_totals first_nonzero ◌+ℤ◌ text_beq
create-off_by_one = refl

create_iff_example : (create paid ≡ ok paid) ↔ IsBalanced paid
create_iff_example = create_iff paid

create_refusal_example : (total_in (codes "INR") off_by_one ≡ pos 1) × (pos 1 ≢ pos 0)
create_refusal_example = create_refusal off_by_one (codes "INR") (pos 1) create-off_by_one
