-- ===== src/Postings.antt =====
-- Sets of postings that balance: packages/domain/src/ledger.ts.
pub mod Balanced
mod Tests
use splitsaathi.Common.{List, Result, [], err, none, ok, some}
use splitsaathi.Common.Int.{ℤ}
use splitsaathi.Common.Keys.{Text}
use splitsaathi.Common.Tally.{add_totals, first_nonzero}

-- `LedgerPostingInput`. Amounts are integers here, so that the guard `Number.isInteger` holds of
-- each.
pub record LedgerPosting : Type 0 where
  pub participant_id : Text
  pub currency_code : Text
  pub signed_amount_minor : ℤ
  pub posting_type : Text
  pub source_type : Text
  pub source_id : Text

-- `Ledger postings must balance to zero for ${currencyCode}; got ${total}.`
pub data Unbalanced : Type 0 where
  unbalanced : Text → ℤ → Unbalanced

-- `BalancedPostingSet.create`: the totals by currency, and the first that is not zero.
unfoldable pub create : List LedgerPosting → Result Unbalanced (List LedgerPosting)
create postings =
    elim (first_nonzero
      (add_totals (λ p. p.currency_code) (λ p. p.signed_amount_minor) [] postings)) [
        | none ↦ ok postings
        | some (currency, total) ↦ err (unbalanced currency total)
      ]
