-- ===== src/Optimizer/Sides.antt =====
-- Debtors and creditors of a currency, and how the loop settles them
-- (packages/domain/src/settlement-optimizer.ts, lines 60-86).
use splitsaathi.Common.{
  Bool, List, [], ap, arith, filter, if◌then◌else◌, map, refl, sym, true, ◌∙◌, ◌∷◌, ◌≡◌, ◌≤◌,
}
use splitsaathi.Common.Int.{int_laws, ltb_ℤ, pos, pos_part, sum_by, ℤ, ◌+ℤ◌}
use splitsaathi.Common.Keys.{Text}
use splitsaathi.Common.Sort.{sort, sort-sum}
use splitsaathi.Optimizer.{NetBalance, Side, creditors_of, debtors_of, side_le, side_of}
use splitsaathi.Optimizer.Rounds.{left_sum}

abbrev pub everyone : Text → Bool
everyone id = true

module _ (chosen : Text → Bool) where
  -- The net amount of the rows that the test chooses.
  abbrev pub balance_sum : List NetBalance → ℤ
  balance_sum rows =
      sum_by (λ row. if chosen row.participant_id then row.amount_minor else pos 0) rows

  left_sum_lem :
      (sides : List Side)
      → sum_by (λ side. pos (if chosen side.participant_id then side.left else 0)) sides
        ≡ pos (left_sum chosen sides)
  left_sum_lem [] = refl
  left_sum_lem (side ∷ sides) = rw (left_sum_lem sides) (omega int_laws)

  left_sum-sort : (sides : List Side) → left_sum chosen (sort side_le sides) ≡ left_sum chosen sides
  left_sum-sort sides = ap pos_part (
      sym (left_sum_lem (sort side_le sides))
      ∙ sort-sum side_le (λ side. pos (if chosen side.participant_id then side.left else 0)) sides
      ∙ left_sum_lem sides)

  signs :
      (rows : List NetBalance)
      → pos (left_sum chosen (map side_of (filter (λ row. ltb_ℤ (pos 0) row.amount_minor) rows)))
        ≡ balance_sum rows
          +ℤ pos
              (left_sum chosen (map side_of (filter (λ row. ltb_ℤ row.amount_minor (pos 0)) rows)))
  signs [] = omega int_laws
  signs (row ∷ rows) = grind (int_laws, signs rows)

  -- What the creditors are owed is what the debtors owe and the net amount.
  pub sides_sum :
      (rows : List NetBalance)
      → pos (left_sum chosen (creditors_of rows))
        ≡ balance_sum rows +ℤ pos (left_sum chosen (debtors_of rows))
  unfolding creditors_of debtors_of
  sides_sum rows =
      rw
        (
          left_sum-sort (map side_of (filter (λ row. ltb_ℤ (pos 0) row.amount_minor) rows)),
          left_sum-sort (map side_of (filter (λ row. ltb_ℤ row.amount_minor (pos 0)) rows)),
        )
        (signs rows)

  pub left_sum-le : (sides : List Side) → left_sum chosen sides ≤ left_sum everyone sides
  left_sum-le [] = omega arith
  left_sum-le (side ∷ sides) = ground (arith, left_sum-le sides)
