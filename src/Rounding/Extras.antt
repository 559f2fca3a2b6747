-- ===== src/Rounding/Extras.antt =====
-- How the remainder is handed out (packages/domain/src/rounding.ts).
use Prim.Native.Nat.{min}
use splitsaathi.Common.{
  Bool-cases, List, [], ap, arith, false, if◌then◌else◌, inl, inr, length, refl, suc, zero, ℕ, ◌+◌,
  ◌∙◌, ◌∷◌, ◌≡◌, ◌≤◌,
}
use splitsaathi.Common.Int.{int_laws, leb_ℤ, pos, sum_by, ◌-ℤ◌}
use splitsaathi.Common.Keys.{Text, text_beq_iff, text_eq, ◌==◌}
use splitsaathi.Common.Dict.{Dict, get-set, set}
use splitsaathi.Rounding.{BaseRow, extra_of, hand_out}
use splitsaathi.Rounding.Distinct.{IsAbsent, IsDistinct}

extra_of-set :
    (i j : Text) (n : ℕ) (extras : Dict Text ℕ)
    → extra_of (set j n extras) i ≡ (if i == j then n else extra_of extras i)
extra_of-set i j n extras =
    rw (get-set i j n extras)
      (elim (Bool-cases (i == j)) [ inl same ↦ rw same refl | inr other ↦ rw other refl ])

extra_of-set_same : (i : Text) (n : ℕ) (extras : Dict Text ℕ) → extra_of (set i n extras) i ≡ n
extra_of-set_same i n extras = extra_of-set i i n extras ∙ ground (arith, text_beq_iff i i)

module _ {N : Type 0} where
  abbrev pub row_id : BaseRow N → Text
  row_id row = row.id

  -- What the rows get from the map of extras.
  abbrev pub extras_sum : Dict Text ℕ → List (BaseRow N) → ℕ
  extras_sum extras [] = 0
  extras_sum extras (row ∷ rows) = extra_of extras row.id + extras_sum extras rows

  -- One round of the loop, for a remainder that is left.
  hand_out_step :
      (r : ℕ) (row : BaseRow N) (rows : List (BaseRow N)) (extras : Dict Text ℕ)
      → hand_out (pos (suc r)) (row ∷ rows) extras
        ≡ hand_out (pos r) rows (set row.id (extra_of extras row.id + 1) extras)
  unfolding hand_out ◌-ℤ◌
  hand_out_step r row rows extras =
      let down : pos (suc r) -ℤ pos 1 ≡ pos r = omega int_laws in
      let more : leb_ℤ (pos (suc r)) (pos 0) ≡ false = ground arith in rw (more, down) refl

  hand_out_none :
      (row : BaseRow N) (rows : List (BaseRow N)) (extras : Dict Text ℕ)
      → hand_out (pos 0) (row ∷ rows) extras ≡ extras
  unfolding hand_out
  hand_out_none row rows extras = refl

  -- Rows of other ids change nothing for an id.
  extra_of-hand_out :
      (r : ℕ) (i : Text) (rows : List (BaseRow N)) (extras : Dict Text ℕ)
      → IsAbsent row_id i rows
      → extra_of (hand_out (pos r) rows extras) i ≡ extra_of extras i
  extra_of-hand_out r i [] extras a = unfold hand_out in refl
  extra_of-hand_out zero i (row ∷ rows) extras a = rw (hand_out_none row rows extras) refl
  extra_of-hand_out (suc r) i (row ∷ rows) extras a = rw (hand_out_step r row rows extras) (
      extra_of-hand_out r i rows _ a.1
      ∙ extra_of-set i row.id _ extras
      ∙ ground (arith, text_beq_iff i row.id, a.0))

  -- Rows with distinct ids get one unit at most.
  pub extra_of-hand_out_le :
      (r : ℕ) (i : Text) (rows : List (BaseRow N)) (extras : Dict Text ℕ)
      → IsDistinct row_id rows
      → extra_of (hand_out (pos r) rows extras) i ≤ extra_of extras i + 1
  extra_of-hand_out_le r i [] extras h = unfold hand_out in omega arith
  extra_of-hand_out_le zero i (row ∷ rows) extras h =
      rw (hand_out_none row rows extras) (omega arith)
  extra_of-hand_out_le (suc r) i (row ∷ rows) extras h =
      let next = set row.id (extra_of extras row.id + 1) extras in
      rw (hand_out_step r row rows extras) (elim (Bool-cases (i == row.id)) [
        | inl same ↦ rw ((text_beq_iff i row.id).0 same) (
            omega (
              arith,
              extra_of-hand_out r row.id rows next h.0,
              extra_of-set_same row.id (extra_of extras row.id + 1) extras,
            ))
        | inr other ↦ omega (
          arith,
          extra_of-hand_out_le r i rows next h.1,
          extra_of-set i row.id (extra_of extras row.id + 1) extras
              ∙ ap (λ t. if t then extra_of extras row.id + 1 else extra_of extras i) other,
        )
      ])

  extras_sum-set :
      (i : Text) (n : ℕ) (rows : List (BaseRow N)) (extras : Dict Text ℕ)
      → IsAbsent row_id i rows
      → extras_sum (set i n extras) rows ≡ extras_sum extras rows
  extras_sum-set i n [] extras a = refl
  extras_sum-set i n (row ∷ rows) extras a =
      let here : extra_of (set i n extras) row.id ≡ extra_of extras row.id =
        extra_of-set row.id i n extras ∙ ground (arith, text_beq_iff row.id i, a.0) in
      rw (here, extras_sum-set i n rows extras a.1) refl

  -- Rows with distinct ids get the whole remainder, or one unit each if it is larger.
  pub extras_sum-hand_out :
      (r : ℕ) (rows : List (BaseRow N)) (extras : Dict Text ℕ)
      → IsDistinct row_id rows
      → extras_sum (hand_out (pos r) rows extras) rows
        ≡ extras_sum extras rows + min r (length rows)
  extras_sum-hand_out r [] extras h = omega arith
  extras_sum-hand_out zero (row ∷ rows) extras h =
      ap (λ handed. extras_sum handed (row ∷ rows)) (hand_out_none row rows extras) ∙ omega arith
  extras_sum-hand_out (suc r) (row ∷ rows) extras h =
      let next = set row.id (extra_of extras row.id + 1) extras in
      ap (λ handed. extras_sum handed (row ∷ rows)) (hand_out_step r row rows extras)
      ∙ omega (
        arith,
        extra_of-hand_out r row.id rows next h.0,
        extra_of-set_same row.id (extra_of extras row.id + 1) extras,
        extras_sum-hand_out r rows next h.1,
        extras_sum-set row.id (extra_of extras row.id + 1) rows extras h.0,
      )

  -- The same sum over the integers.
  pub extras_sum_lem :
      (extras : Dict Text ℕ) (rows : List (BaseRow N))
      → sum_by (λ row. pos (extra_of extras row.id)) rows ≡ pos (extras_sum extras rows)
  extras_sum_lem extras [] = refl
  extras_sum_lem extras (row ∷ rows) = rw (extras_sum_lem extras rows) (omega int_laws)

  pub no_extras : (rows : List (BaseRow N)) → extras_sum [] rows ≡ 0
  no_extras [] = refl
  no_extras (row ∷ rows) = omega (arith, no_extras rows)
