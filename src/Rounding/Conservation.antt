-- ===== src/Rounding/Conservation.antt =====
-- The sum of the distributed amounts (packages/domain/src/rounding.ts, lines 56-80).
use Prim.Native.Nat.{min}
use splitsaathi.Common.{
  Bool, List, [], ap, arith, length, map, refl, sym, ℕ, ◌+◌, ◌-◌, ◌∙◌, ◌∷◌, ◌≡◌, ◌≤◌,
}
use splitsaathi.Common.Int.{abs, int_laws, pos, pos_part, sum_by, ℤ, ◌+ℤ◌, ◌-ℤ◌}
use splitsaathi.Common.Keys.{Text}
use splitsaathi.Common.Dict.{Dict}
use splitsaathi.Common.Sort.{sort, sort-length, sort-sum}
use splitsaathi.Rounding.{
  AllocationResult, BaseRow, Doubles, allocation, distribute, extra_of, fraction_le, hand_out,
  signed,
}
use splitsaathi.Rounding.Distinct.{IsDistinct, sort-IsDistinct}
use splitsaathi.Rounding.Extras.{extras_sum, extras_sum-hand_out, extras_sum_lem, no_extras, row_id}

signed-+ℤ : (total : ℤ) (m n : ℕ) → signed total (m + n) ≡ signed total m +ℤ signed total n
signed-+ℤ total m n = grind int_laws

pub signed-abs : (total : ℤ) → signed total (abs total) ≡ total
signed-abs total = grind int_laws

signed-zero : (total : ℤ) → signed total 0 ≡ pos 0
signed-zero total = grind int_laws

abbrev pub amount_of : AllocationResult → ℤ
amount_of result = result.amount_minor

module _ {N : Type 0} where
  -- The sum of the floors.
  abbrev pub floors : List (BaseRow N) → ℕ
  floors [] = 0
  floors (row ∷ rows) = row.floored + floors rows

  floors_lem : (rows : List (BaseRow N)) → sum_by (λ row. pos row.floored) rows ≡ pos (floors rows)
  floors_lem [] = refl
  floors_lem (row ∷ rows) = rw (floors_lem rows) (omega int_laws)

  amounts_sum :
      (total : ℤ) (extras : Dict Text ℕ) (rows : List (BaseRow N))
      → sum_by amount_of (map (allocation total extras) rows)
        ≡ signed total (floors rows + extras_sum extras rows)
  amounts_sum total extras [] = sym (signed-zero total)
  amounts_sum total extras (row ∷ rows) =
      ap (λ rest. signed total (row.floored + extra_of extras row.id) +ℤ rest)
        (amounts_sum total extras rows)
      ∙ sym (
          signed-+ℤ total (row.floored + extra_of extras row.id)
            (floors rows + extras_sum extras rows))
      ∙ ap (signed total) (omega arith)

  -- What is handed out over the sorted rows arrives at the rows in their own order.
  sorted_extras :
      (le : BaseRow N → BaseRow N → Bool) (r : ℕ) (rows : List (BaseRow N))
      → IsDistinct row_id rows
      → extras_sum (hand_out (pos r) (sort le rows) []) rows ≡ min r (length rows)
  sorted_extras le r rows h =
      let extras = hand_out (pos r) (sort le rows) [] in
      ap pos_part (
        sym (extras_sum_lem extras rows)
        ∙ sym (sort-sum le (λ row. pos (extra_of extras row.id)) rows)
        ∙ extras_sum_lem extras (sort le rows))
      ∙ extras_sum-hand_out r (sort le rows) [] (sort-IsDistinct row_id le rows h)
      ∙ rw (no_extras (sort le rows), sort-length le rows) (omega arith)

module _ (d : Doubles) where
  open d use {Number}

  -- The remainder is a number of units when the floors are not above the total.
  pub distribute_lem :
      (total : ℤ) (base : List (BaseRow Number))
      → floors base ≤ abs total
      → distribute d total base
        ≡ map
            (allocation total
              (hand_out (pos (abs total - floors base)) (sort (fraction_le d) base) []))
            base
  unfolding distribute
  distribute_lem total base low =
      let remainder : pos (abs total) -ℤ sum_by (λ row. pos row.floored) base
          ≡ pos (abs total - floors base) =
        rw (floors_lem base) (omega int_laws) in
      ap (λ r. map (allocation total (hand_out r (sort (fraction_le d) base) [])) base) remainder

  -- The rows of distinct ids sum to the total, if the floors are not above it and lack at most one
  -- unit for each row.
  pub distribute-sum :
      (total : ℤ) (base : List (BaseRow Number))
      → IsDistinct row_id base
      → floors base ≤ abs total
      → abs total ≤ floors base + length base
      → sum_by amount_of (distribute d total base) ≡ total
  distribute-sum total base h low high =
      let r = abs total - floors base in
      rw (distribute_lem total base low) (
        amounts_sum total (hand_out (pos r) (sort (fraction_le d) base) []) base
        ∙ ap (signed total) (omega (arith, sorted_extras (fraction_le d) r base h))
        ∙ signed-abs total)
