-- ===== src/Optimizer/Groups.antt =====
-- The rows by currency (packages/domain/src/settlement-optimizer.ts, lines 52-56).
use splitsaathi.Common.{
  All, All-append, Bool, Bool-cases, List, Option-cases, [], if◌then◌else◌, inl, inr, or_default,
  refl, ◌++◌, ◌∙◌, ◌∷◌, ◌≡◌,
}
use splitsaathi.Common.Int.{
  cancel_right, eqb_ℤ, eqb_ℤ_iff, int_laws, pos, sum_by, sum_by-append, ℤ, ◌+ℤ◌,
}
use splitsaathi.Common.Keys.{Text, text_beq_iff, text_eq, ◌==◌}
use splitsaathi.Common.Dict.{
  All-get, Dict, IsKeyed, get, get-set, set, set-All, set-IsKeyed, sum_values,
  sum_values-set_default,
}
use splitsaathi.Optimizer.{NetBalance, group_rows}

abbrev pub rows_at : Text → Dict Text (List NetBalance) → List NetBalance
rows_at c groups = or_default [] (get c groups)

-- Each row stands under its currency.
abbrev pub IsFiled : Dict Text (List NetBalance) → Type 0
IsFiled groups = All (λ entry. All (λ row. row.currency_code ≡ entry.0) entry.1) groups

abbrev pub amounts : List NetBalance → ℤ
amounts rows = sum_by (λ row. row.amount_minor) rows

-- One round of the loop.
abbrev pub file_row : Dict Text (List NetBalance) → NetBalance → Dict Text (List NetBalance)
file_row groups row =
    if eqb_ℤ row.amount_minor (pos 0)
    then groups
    else set row.currency_code (rows_at row.currency_code groups ++ row ∷ []) groups

pub group_rows-IsKeyed :
    (groups : Dict Text (List NetBalance)) (rows : List NetBalance)
    → IsKeyed groups
    → IsKeyed (group_rows groups rows)
unfolding group_rows
group_rows-IsKeyed groups [] keyed = keyed
group_rows-IsKeyed groups (row ∷ rows) keyed =
    group_rows-IsKeyed (file_row groups row) rows
      (elim (Bool-cases (eqb_ℤ row.amount_minor (pos 0))) [
        | inl zero_amount ↦ rw zero_amount keyed
        | inr nonzero ↦ rw nonzero (set-IsKeyed row.currency_code _ groups keyed)
      ])

rows_at-All :
    (c : Text) (groups : Dict Text (List NetBalance))
    → IsFiled groups
    → All (λ row. row.currency_code ≡ c) (rows_at c groups)
rows_at-All c groups filed = elim (Option-cases (get c groups)) [
  | inl missing ↦ rw missing tt
  | inr (rows, found) ↦ rw found (
      All-get (λ entry. All (λ row. row.currency_code ≡ entry.0) entry.1) c rows groups filed found)
]

pub group_rows-IsFiled :
    (groups : Dict Text (List NetBalance)) (rows : List NetBalance)
    → IsFiled groups
    → IsFiled (group_rows groups rows)
unfolding group_rows
group_rows-IsFiled groups [] filed = filed
group_rows-IsFiled groups (row ∷ rows) filed =
    group_rows-IsFiled (file_row groups row) rows
      (elim (Bool-cases (eqb_ℤ row.amount_minor (pos 0))) [
        | inl zero_amount ↦ rw zero_amount filed
        | inr nonzero ↦ rw nonzero (
            set-All (λ entry. All (λ r. r.currency_code ≡ entry.0) entry.1) row.currency_code _
              groups filed
              (All-append (λ r. r.currency_code ≡ row.currency_code)
                (rows_at row.currency_code groups) (row ∷ [])
                (rows_at-All row.currency_code groups filed) (refl, tt)))
      ])

-- The sum of the rows of a currency.
file_row-amounts :
    (c : Text) (groups : Dict Text (List NetBalance)) (row : NetBalance)
    → amounts (rows_at c (file_row groups row))
      ≡ amounts (rows_at c groups) +ℤ (if c == row.currency_code then row.amount_minor else pos 0)
file_row-amounts c groups row = elim (Bool-cases (eqb_ℤ row.amount_minor (pos 0))) [
  | inl zero_amount ↦
      rw (zero_amount, (eqb_ℤ_iff row.amount_minor (pos 0)).0 zero_amount)
        (elim (Bool-cases (c == row.currency_code)) [
          | inl same ↦ rw same (omega int_laws)
          | inr other ↦ rw other (omega int_laws)
        ])
  | inr nonzero ↦
      rw (nonzero, get-set c row.currency_code _ groups)
        (elim (Bool-cases (c == row.currency_code)) [
          | inl same ↦
              rw (same, (text_beq_iff c row.currency_code).0 same)
                (sum_by-append (λ r. r.amount_minor) (rows_at row.currency_code groups) (row ∷ [])
                  ∙ omega int_laws)
          | inr other ↦ rw other (omega int_laws)
        ])
]

pub group_rows-amounts :
    (c : Text) (groups : Dict Text (List NetBalance)) (rows : List NetBalance)
    → amounts (rows_at c (group_rows groups rows))
      ≡ amounts (rows_at c groups)
        +ℤ sum_by (λ row. if c == row.currency_code then row.amount_minor else pos 0) rows
unfolding group_rows
group_rows-amounts c groups [] = omega int_laws
group_rows-amounts c groups (row ∷ rows) =
    group_rows-amounts c (file_row groups row) rows
    ∙ rw (file_row-amounts c groups row) (omega int_laws)

module _ (chosen : Text → Text → Bool) where
  -- The net amount of the participants and currencies that the test chooses.
  abbrev pub net_of : NetBalance → ℤ
  net_of row = if chosen row.participant_id row.currency_code then row.amount_minor else pos 0

  file_row-sum :
      (groups : Dict Text (List NetBalance)) (row : NetBalance)
      → sum_values (sum_by net_of) (file_row groups row)
        ≡ sum_values (sum_by net_of) groups +ℤ net_of row
  file_row-sum groups row = elim (Bool-cases (eqb_ℤ row.amount_minor (pos 0))) [
    | inl zero_amount ↦
        rw (zero_amount, (eqb_ℤ_iff row.amount_minor (pos 0)).0 zero_amount)
          (elim (Bool-cases (chosen row.participant_id row.currency_code)) [
            | inl here ↦ rw here (omega int_laws)
            | inr elsewhere ↦ rw elsewhere (omega int_laws)
          ])
    | inr nonzero ↦
        let old = rows_at row.currency_code groups in
        let written =
          sum_values-set_default (sum_by net_of) row.currency_code (old ++ row ∷ []) [] groups
            refl in
        let longer = sum_by-append net_of old (row ∷ []) in
        rw nonzero (cancel_right _ _ (sum_by net_of old) (written ∙ rw longer (omega int_laws)))
  ]

  pub group_rows-sum :
      (groups : Dict Text (List NetBalance)) (rows : List NetBalance)
      → sum_values (sum_by net_of) (group_rows groups rows)
        ≡ sum_values (sum_by net_of) groups +ℤ sum_by net_of rows
  unfolding group_rows
  group_rows-sum groups [] = omega int_laws
  group_rows-sum groups (row ∷ rows) =
      group_rows-sum (file_row groups row) rows ∙ rw (file_row-sum groups row) (omega int_laws)
