-- ===== src/Expenses/Totals.antt =====
-- What a materialized snapshot satisfies
-- (apps/api/src/modules/expenses/expense-command.service.ts, lines 12-22 and 163-195).
use splitsaathi.Common.{
  >>=-eq-ok, All, Bool-cases, List, Result, [], arith, false, inl, inr, not, ok, ok-injective,
  or_default, refl, subst, sym, throw_if, ◌>>◌, ◌∙◌, ◌∷◌, ◌≡◌,
}
use splitsaathi.Common.Int.{
  eqb_ℤ, eqb_ℤ_iff, int_laws, leb_ℤ, pos, sum_by, sum_onto, sum_onto-eq-sum_by, zero-+ℤ, ℤ, ◌+ℤ◌,
}
use splitsaathi.Common.Keys.{Text, codes}
use splitsaathi.Rounding.{Doubles, allocation}
use splitsaathi.Expenses.{ExpensePayerRow, ExpenseShareRow}
use splitsaathi.Expenses.Allocation.{calculate}
use splitsaathi.Expenses.Commands.{ExpenseSnapshot, sum_amounts}
use splitsaathi.Expenses.Service.{CreateExpenseCommand, materialize_snapshot}

abbrev pub paid : ExpensePayerRow → ℤ
paid payer = payer.amount_minor

abbrev pub owed : ExpenseShareRow → ℤ
owed share = share.amount_minor

-- Every payer paid something, and the payments and the shares have the total as their sum.
abbrev pub IsSettled : ExpenseSnapshot → Type 0
IsSettled snapshot =
    All (λ payer. leb_ℤ payer.amount_minor (pos 0) ≡ false) snapshot.payers
    × (sum_by paid snapshot.payers ≡ snapshot.total_amount_minor)
    × (sum_by owed snapshot.shares ≡ snapshot.total_amount_minor)

sum_amounts-eq-ok :
    (acc sum : ℤ) (rows : List ExpensePayerRow)
    → sum_amounts acc rows ≡ ok sum
    → All (λ payer. leb_ℤ payer.amount_minor (pos 0) ≡ false) rows × (sum ≡ acc +ℤ sum_by paid rows)
unfolding sum_amounts
sum_amounts-eq-ok acc sum [] h =
    let same : acc ≡ sum = ground arith in (tt, sym same ∙ omega int_laws)
sum_amounts-eq-ok acc sum (row ∷ rows) h = elim (Bool-cases (leb_ℤ row.amount_minor (pos 0))) [
  | inl low ↦ let refused = (rw low at h) in cc
  | inr positive ↦
      let (later, total) =
        sum_amounts-eq-ok (acc +ℤ row.amount_minor) sum rows (rw positive at h) in
      ((positive, later), total ∙ omega int_laws)
]

-- `if (sum !== total) throw …` went past the test.
throw_if-eq-ok :
    {E A : Type 0} (a b : ℤ) (why : E) (m : Result E A) (result : A)
    → (throw_if (not (eqb_ℤ a b)) why >> m) ≡ ok result
    → (a ≡ b) × (m ≡ ok result)
throw_if-eq-ok a b why m result h = elim (Bool-cases (eqb_ℤ a b)) [
  | inl same ↦ ((eqb_ℤ_iff a b).0 same, (rw same at h))
  | inr differ ↦ let refused = (rw differ at h) in cc
]

module _ (d : Doubles) where
  -- A snapshot that is returned has the id of the call and the group of the command; every payer paid
  -- something; and both the payments and the shares sum to its total.
  pub materialize_snapshot-IsSettled :
      (id : Text) (command : CreateExpenseCommand d) (snapshot : ExpenseSnapshot)
      → materialize_snapshot d id command ≡ ok snapshot
      → IsSettled snapshot × (snapshot.expense_id ≡ id) × (snapshot.group_id ≡ command.group_id)
  unfolding materialize_snapshot
  materialize_snapshot-IsSettled id command snapshot h =
      let (total, sum_ok, h1) = >>=-eq-ok (sum_amounts (pos 0) command.payers) _ h in
      let (allocation, calculated, h2) =
        >>=-eq-ok
          (calculate d total (or_default (codes "INR") command.currency_code) command.shares
            (or_default [] command.line_items) (or_default [] command.bill_adjustments))
          _ h1 in
      let (same, returned) =
        throw_if-eq-ok (sum_onto (λ share. share.amount_minor) (pos 0) allocation.shares) total _ _
          snapshot h2 in
      let (positive, sum) = sum_amounts-eq-ok (pos 0) total command.payers sum_ok in
      subst (λ s. IsSettled s × (s.expense_id ≡ id) × (s.group_id ≡ command.group_id))
        (ok-injective returned)
        (
          (
            positive,
            sym (sum ∙ zero-+ℤ (sum_by paid command.payers)),
            sym (
                  sum_onto-eq-sum_by owed (pos 0) allocation.shares
                  ∙ zero-+ℤ (sum_by owed allocation.shares))
                ∙ same,
          ),
          refl,
          refl,
        )
