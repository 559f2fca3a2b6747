-- ===== src/Imports/Reading.antt =====
-- What the rows of a bank's table become
-- (apps/api/src/modules/imports-exports/splitwise-import.service.ts, lines 233-285).
use splitsaathi.Common.{
  >>=-eq-ok, Bool, Option, [], ap, arith, false, is_empty, none, ok, ok-injective, or_default, refl,
  some, subst, sym, throw_if, ℕ, ◌+◌, ◌||◌, ◌∙◌, ◌∷◌, ◌≡◌,
}
use splitsaathi.Common.Int.{abs, eqb_ℤ, pos, ℤ, ◌≤ℤ◌}
use splitsaathi.Common.Keys.{Text}
use splitsaathi.Common.Dict.{Dict}
use splitsaathi.Imports.{ImportedExpense, not_a_debit}
use splitsaathi.Imports.Rows.{amount_of}
use splitsaathi.Imports.Bank.{
  absolute, bank_amount_cell, bank_date, bank_description, bank_expense, bank_row_to_expense,
  bank_shares, is_no_amount, is_no_expense,
}

-- An expense that the account pays: a positive amount, borne by the account alone, or by it and another
-- participant in equal shares.
abbrev pub IsPaidBy : Text → Option Text → ImportedExpense → Type 0
IsPaidBy account counterparty expense =
    (amount : ℤ) × (pos 1 ≤ℤ amount)
    × (expense.payers ≡ record { participant_id = account; amount_minor = some amount } ∷ [])
    × (expense.shares ≡ bank_shares account (or_default account counterparty) (some amount))
    × (is_empty expense.description ≡ false)
    × (is_empty expense.expense_date ≡ false)

or_false : (a b c d : Bool) → (a || b || c || d) ≡ false → (a ≡ false) × (b ≡ false) × (c ≡ false)
or_false a b c d h = ground arith

passed_false :
    {E : Type 0} (b : Bool) (why : E) {done : Unit {0}} → throw_if b why ≡ ok done → b ≡ false
passed_false b why h = ground arith

positive_abs : (n : ℤ) → eqb_ℤ (pos (abs n)) (pos 0) ≡ false → pos 1 ≤ℤ pos (abs n)
positive_abs n h = ground arith

absolute-IsPositive :
    (read : Option ℤ)
    → is_no_amount (absolute read) ≡ false
    → (amount : ℤ) × (absolute read ≡ some amount) × (pos 1 ≤ℤ amount)
absolute-IsPositive none counts = cc
absolute-IsPositive (some n) counts = (pos (abs n), refl, positive_abs n counts)

is_no_expense-false :
    (to_lower_case : Text → Text) (raw : Dict Text Text) (amount : Option ℤ)
    → is_no_expense to_lower_case raw amount ≡ false
    → (is_empty (bank_description raw) ≡ false)
      × (is_empty (bank_date raw) ≡ false)
      × (is_no_amount amount ≡ false)
unfolding is_no_expense
is_no_expense-false to_lower_case raw amount passes =
    or_false (is_empty (bank_description raw)) (is_empty (bank_date raw)) (is_no_amount amount) _
      passes

-- The row of a bank's table that is read as an expense has a description, a date and a positive amount,
-- whatever the sign in the table, and the account has paid it.
pub bank_row-IsPaidBy :
    (to_lower_case : Text → Text) (group_id : Text) (default_currency : Option Text)
    (account : Text) (counterparty : Option Text) (raw : Dict Text Text) (index : ℕ)
    (expense : ImportedExpense)
    → bank_row_to_expense to_lower_case group_id default_currency account counterparty raw index
      ≡ ok expense
    → IsPaidBy account counterparty expense
unfolding bank_row_to_expense bank_expense
bank_row-IsPaidBy to_lower_case group_id default_currency account counterparty raw index expense
      made =
    let (read, amount_read, made1) = >>=-eq-ok (amount_of raw (bank_amount_cell raw)) _ made in
    let (done, passed, made2) =
      >>=-eq-ok
        (throw_if (is_no_expense to_lower_case raw (absolute read)) (not_a_debit (index + 2))) _
        made1 in
    let (described, dated, counts) =
      is_no_expense-false to_lower_case raw (absolute read) (passed_false _ _ passed) in
    let (amount, is_amount, positive) = absolute-IsPositive read counts in
    let expense_of = bank_expense group_id default_currency account counterparty raw in
    subst (IsPaidBy account counterparty) (ap expense_of (sym is_amount) ∙ ok-injective made2)
      (amount, positive, refl, refl, described, dated)
