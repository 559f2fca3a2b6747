-- ===== src/Imports/Bank.antt =====
-- The rows of a bank's table: apps/api/src/modules/imports-exports/splitwise-import.service.ts, lines
-- 233-285.
use splitsaathi.Common.{
  Bool, List, Option, Result, [], false, if◌then◌else◌, is_empty, nat_beq, none, not, ok,
  or_default, some, throw_if, true, ℕ, ◌&&◌, ◌+◌, ◌>>=◌, ◌>>◌, ◌||◌, ◌∷◌,
}
use splitsaathi.Common.Int.{abs, eqb_ℤ, pos, ℤ}
use splitsaathi.Common.Keys.{Text, codes, text_beq}
use splitsaathi.Common.Dict.{Dict}
use splitsaathi.Imports.{
  ImportError, ImportItemRow, ImportedExpense, ImportedShare, exact, not_a_debit,
}
use splitsaathi.Imports.Rows.{amount_of, equal_share, item_of, raw_onto, raw_row, read_cell}

-- `/^cr|credit$/i`
unfoldable pub ends_with_credit : Text → Bool
unfolding text_beq
ends_with_credit [] = false
ends_with_credit (c ∷ cs) = text_beq (c ∷ cs) (codes "credit") || ends_with_credit cs

abbrev pub starts_with_cr : Text → Bool
starts_with_cr [] = false
starts_with_cr (c ∷ []) = false
starts_with_cr (c ∷ d ∷ rest) = nat_beq c 99 && nat_beq d 114

-- `Math.abs`, of a number.
abbrev pub absolute : Option ℤ → Option ℤ
absolute none = none
absolute (some n) = some (pos (abs n))

-- `!amountMinor`
abbrev pub is_no_amount : Option ℤ → Bool
is_no_amount none = true
is_no_amount (some n) = eqb_ℤ n (pos 0)

-- The shares of a row of a bank account.
unfoldable pub bank_shares : Text → Text → Option ℤ → List ImportedShare
unfolding text_beq
bank_shares account counterparty amount =
    if text_beq counterparty account
    then record { participant_id = account; share_type = exact; amount_minor = amount } ∷ []
    else equal_share account ∷ equal_share counterparty ∷ []

-- The cells of a row.
unfoldable pub bank_description : Dict Text Text → Text
unfolding read_cell
bank_description raw =
    read_cell raw
      (codes "description" ∷ codes "narration" ∷ codes "merchant" ∷ codes "counterparty" ∷ []) []

unfoldable pub bank_date : Dict Text Text → Text
unfolding read_cell
bank_date raw = read_cell raw (codes "date" ∷ codes "transaction_date" ∷ codes "value_date" ∷ []) []

unfoldable pub debit_cell : Dict Text Text → Text
unfolding read_cell
debit_cell raw =
    read_cell raw (codes "debit" ∷ codes "withdrawal" ∷ codes "paid" ∷ codes "amount_debit" ∷ []) []

unfoldable pub bank_amount_cell : Dict Text Text → Text
unfolding read_cell debit_cell
bank_amount_cell raw =
    read_cell raw (codes "amount" ∷ codes "transaction_amount" ∷ codes "value" ∷ [])
      (debit_cell raw)

unfoldable pub credit_cell : Dict Text Text → Text
unfolding read_cell
credit_cell raw =
    read_cell raw (codes "credit" ∷ codes "deposit" ∷ codes "received" ∷ codes "amount_credit" ∷ [])
      []

-- `inferredDebit`
unfoldable pub inferred_debit : (Text → Text) → Dict Text Text → Bool
unfolding read_cell debit_cell credit_cell ends_with_credit
inferred_debit to_lower_case raw =
    let direction = to_lower_case (read_cell raw (codes "type" ∷ codes "direction" ∷ []) []) in
    not (is_empty (debit_cell raw))
    || is_empty (credit_cell raw) && not (starts_with_cr direction || ends_with_credit direction)

-- The test for which `bankRowToItem` throws.
unfoldable pub is_no_expense : (Text → Text) → Dict Text Text → Option ℤ → Bool
unfolding bank_description bank_date inferred_debit
is_no_expense to_lower_case raw amount =
    is_empty (bank_description raw)
    || is_empty (bank_date raw)
    || is_no_amount amount
    || not (inferred_debit to_lower_case raw)

-- The command that it returns.
unfoldable pub bank_expense :
    Text → Option Text → Text → Option Text → Dict Text Text → Option ℤ → ImportedExpense
unfolding read_cell bank_description bank_date bank_shares
bank_expense group_id default_currency account counterparty raw amount = record {
  group_id = group_id;
  description = bank_description raw;
  category = read_cell raw (codes "category" ∷ []) (codes "Bank import");
  expense_date = bank_date raw;
  currency_code =
      read_cell raw (codes "currency" ∷ codes "currency_code" ∷ [])
        (or_default (codes "INR") default_currency);
  payers = record { participant_id = account; amount_minor = amount } ∷ [];
  shares = bank_shares account (or_default account counterparty) amount;
}

-- The `try` of `bankRowToItem`.
unfoldable pub bank_row_to_expense :
    (Text → Text)
    → Text
    → Option Text
    → Text
    → Option Text
    → Dict Text Text
    → ℕ
    → Result ImportError ImportedExpense
unfolding amount_of bank_amount_cell is_no_expense bank_expense
bank_row_to_expense to_lower_case group_id default_currency account counterparty raw index = do
  read_amount ← amount_of raw (bank_amount_cell raw)
  let amount = absolute read_amount
  throw_if (is_no_expense to_lower_case raw amount) (not_a_debit (index + 2))
  ok (bank_expense group_id default_currency account counterparty raw amount)

-- `bankRowToItem`.
unfoldable pub bank_row_to_item :
    (Text → Text)
    → Text
    → Text
    → Text
    → Option Text
    → Text
    → Option Text
    → List Text
    → List Text
    → ℕ
    → ImportItemRow
unfolding bank_row_to_expense raw_onto
bank_row_to_item to_lower_case item_id job_id group_id default_currency account counterparty headers
      cells index =
    let raw = raw_row headers cells in
    item_of item_id job_id raw
      (bank_row_to_expense to_lower_case group_id default_currency account counterparty raw index)
