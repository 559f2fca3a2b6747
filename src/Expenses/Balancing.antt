-- ===== src/Expenses/Balancing.antt =====
-- Sums of the postings of expenses
-- (apps/api/src/modules/expenses/expense-command.service.ts, lines 24-52).
use splitsaathi.Common.{
  Bool, Bool-cases, List, [], ap, false, if◌then◌else◌, inl, inr, map, refl, true, ◌++◌, ◌∙◌, ◌∷◌,
  ◌≡◌,
}
use splitsaathi.Common.Int.{int_laws, neg, pos, sum_by, sum_by-append, ℤ, ◌+ℤ◌}
use splitsaathi.Common.Keys.{Text, codes, text_eq, ◌==◌}
use splitsaathi.Postings.{LedgerPosting}
use splitsaathi.Expenses.Commands.{
  ExpenseSnapshot, payer_posting, repost, reverse_postings, revise_postings, share_posting,
  snapshot_postings, void_postings,
}
use splitsaathi.Common.Tally.{sum_at}
use splitsaathi.Postings.Balanced.{IsBalanced, total_in}
use splitsaathi.Expenses.{ExpensePayerRow, ExpenseShareRow}
use splitsaathi.Expenses.Totals.{IsSettled, owed, paid}

-- What counts of a posting for some sum: its amount, if the test of its participant and currency
-- holds.
abbrev pub counted : (Text → Text → Bool) → LedgerPosting → ℤ
counted test posting =
    if test posting.participant_id posting.currency_code then posting.signed_amount_minor else pos 0

if-neg : (t : Bool) (a : ℤ) → (if t then neg a else pos 0) ≡ neg (if t then a else pos 0)
if-neg true a = refl
if-neg false a = omega int_laws

module _ (test : Text → Text → Bool) where
  abbrev pub sum_of : List LedgerPosting → ℤ
  sum_of = sum_by (counted test)

  reverse_postings-sum :
      (postings : List LedgerPosting) (posting_type : Text)
      → sum_of (reverse_postings postings posting_type) ≡ neg (sum_of postings)
  unfolding reverse_postings
  reverse_postings-sum [] posting_type = omega int_laws
  reverse_postings-sum (posting ∷ postings) posting_type =
      rw
        (
          reverse_postings-sum postings posting_type,
          if-neg (test posting.participant_id posting.currency_code) posting.signed_amount_minor,
        )
        (omega int_laws)

  repost-sum : (postings : List LedgerPosting) → sum_of (map repost postings) ≡ sum_of postings
  repost-sum [] = refl
  repost-sum (posting ∷ postings) = ap (λ rest. counted test posting +ℤ rest) (repost-sum postings)

  -- Voiding takes back what the snapshot posted.
  pub void_postings-sum :
      (existing : ExpenseSnapshot)
      → sum_of (snapshot_postings existing ++ void_postings existing) ≡ pos 0
  unfolding void_postings
  void_postings-sum existing =
      let postings = snapshot_postings existing in
      sum_by-append (counted test) postings
        (reverse_postings postings (codes "expense_void_reversal"))
      ∙ rw (reverse_postings-sum postings (codes "expense_void_reversal")) (omega int_laws)

  -- Revising replaces what the old snapshot posted by what the new one posts.
  pub revise_postings-sum :
      (existing expense : ExpenseSnapshot)
      → sum_of (snapshot_postings existing ++ revise_postings existing expense)
        ≡ sum_of (snapshot_postings expense)
  unfolding revise_postings
  revise_postings-sum existing expense =
      let old = snapshot_postings existing in
      let reversed = reverse_postings old (codes "expense_adjustment_reversal") in
      let new = snapshot_postings expense in
      sum_by-append (counted test) old (reversed ++ map repost new)
      ∙ rw
          (
            sum_by-append (counted test) reversed (map repost new),
            reverse_postings-sum old (codes "expense_adjustment_reversal"),
            repost-sum new,
          )
          (omega int_laws)

module _ (c : Text) where
  abbrev in_currency : Text → Text → Bool
  in_currency participant currency = c == currency

  payers_sum :
      (snapshot : ExpenseSnapshot) (payers : List ExpensePayerRow)
      → sum_of in_currency (map (payer_posting snapshot) payers)
        ≡ (if c == snapshot.currency_code then sum_by paid payers else pos 0)
  payers_sum snapshot [] = elim (Bool-cases (c == snapshot.currency_code)) [
    | inl here ↦ rw here refl
    | inr elsewhere ↦ rw elsewhere refl
  ]
  payers_sum snapshot (payer ∷ payers) =
      rw (payers_sum snapshot payers) (elim (Bool-cases (c == snapshot.currency_code)) [
        | inl here ↦ rw here refl
        | inr elsewhere ↦ rw elsewhere (omega int_laws)
      ])

  shares_sum :
      (snapshot : ExpenseSnapshot) (shares : List ExpenseShareRow)
      → sum_of in_currency (map (share_posting snapshot) shares)
        ≡ (if c == snapshot.currency_code then neg (sum_by owed shares) else pos 0)
  shares_sum snapshot [] = elim (Bool-cases (c == snapshot.currency_code)) [
    | inl here ↦ rw here (omega int_laws)
    | inr elsewhere ↦ rw elsewhere refl
  ]
  shares_sum snapshot (share ∷ shares) =
      rw (shares_sum snapshot shares) (elim (Bool-cases (c == snapshot.currency_code)) [
        | inl here ↦ rw here (omega int_laws)
        | inr elsewhere ↦ rw elsewhere (omega int_laws)
      ])

  snapshot_postings-sum :
      (snapshot : ExpenseSnapshot)
      → IsSettled snapshot
      → sum_of in_currency (snapshot_postings snapshot) ≡ pos 0
  unfolding snapshot_postings
  snapshot_postings-sum snapshot (positive, payments, owing) =
      sum_by-append (counted in_currency) (map (payer_posting snapshot) snapshot.payers)
        (map (share_posting snapshot) snapshot.shares)
      ∙ rw
          (
            payers_sum snapshot snapshot.payers,
            shares_sum snapshot snapshot.shares,
            payments,
            owing,
          )
          (elim (Bool-cases (c == snapshot.currency_code)) [
            | inl here ↦ rw here (omega int_laws)
            | inr elsewhere ↦ rw elsewhere (omega int_laws)
          ])

total_in-eq-sum_of :
    (c : Text) (postings : List LedgerPosting)
    → total_in c postings ≡ sum_of (in_currency c) postings
unfolding sum_at
total_in-eq-sum_of c postings = refl

-- The postings of a settled snapshot are balanced.
pub snapshot_postings-IsBalanced :
    (snapshot : ExpenseSnapshot) → IsSettled snapshot → IsBalanced (snapshot_postings snapshot)
snapshot_postings-IsBalanced snapshot settled c =
    total_in-eq-sum_of c (snapshot_postings snapshot) ∙ snapshot_postings-sum c snapshot settled

-- So are those that void it.
pub void_postings-IsBalanced :
    (existing : ExpenseSnapshot) → IsSettled existing → IsBalanced (void_postings existing)
unfolding void_postings
void_postings-IsBalanced existing settled c =
    total_in-eq-sum_of c (void_postings existing)
    ∙ reverse_postings-sum (in_currency c) (snapshot_postings existing)
        (codes "expense_void_reversal")
    ∙ rw (snapshot_postings-sum c existing settled) (omega int_laws)

-- And those that revise it to another settled snapshot.
pub revise_postings-IsBalanced :
    (existing expense : ExpenseSnapshot)
    → IsSettled existing
    → IsSettled expense
    → IsBalanced (revise_postings existing expense)
unfolding revise_postings
revise_postings-IsBalanced existing expense old_settled new_settled c =
    let test = in_currency c in
    let reversed =
      reverse_postings (snapshot_postings existing) (codes "expense_adjustment_reversal") in
    total_in-eq-sum_of c (revise_postings existing expense)
    ∙ sum_by-append (counted test) reversed (map repost (snapshot_postings expense))
    ∙ rw
        (
          reverse_postings-sum test (snapshot_postings existing)
              (codes "expense_adjustment_reversal"),
          repost-sum test (snapshot_postings expense),
          snapshot_postings-sum c existing old_settled,
          snapshot_postings-sum c expense new_settled,
        )
        (omega int_laws)
