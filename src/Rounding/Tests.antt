-- ===== src/Rounding/Tests.antt =====
-- Tests of the allocation (packages/domain/src/rounding.ts).
use splitsaathi.Common.Sort.{sort}
use splitsaathi.Common.{List, [], arith, map, map_ok, ok, refl, ℕ, ◌∷◌, ◌≡◌}
use splitsaathi.Common.Int.{negsuc, pos, sum_by, ◌+ℤ◌, ◌-ℤ◌}
use splitsaathi.Common.Keys.{Text, codes, text_beq}
use splitsaathi.Rounding.{AllocationResult, allocate, stable_hash}
use splitsaathi.Rounding.Exact.{IsShares, allocate-conserves, whole}
use splitsaathi.Rounding.Fractions.{fractions, fractions-IsExact}
use splitsaathi.Rounding.Conservation.{amount_of}
use splitsaathi.Rounding.Distinct.{IsDistinct}

-- FNV-1a of "a".
stable_hash_test : stable_hash (codes "a") ≡ 3826002220
unfolding stable_hash
stable_hash_test = refl

abbrev three : List (Text × ℕ)
three = (codes "a", 1) ∷ (codes "b", 1) ∷ (codes "c", 1) ∷ []

abbrev twice : List (Text × ℕ)
twice = (codes "a", 1) ∷ (codes "a", 1) ∷ []

-- 10 units for three equal weights.
allocate_test :
    map_ok (sum_by amount_of) (allocate fractions (pos 10) (map (whole fractions) three))
    ≡ ok (pos 10)
unfolding allocate ◌+ℤ◌ ◌-ℤ◌ sort stable_hash text_beq
allocate_test = refl

-- Under one id twice, the odd unit is paid twice.
allocate-twice :
    map_ok (sum_by amount_of) (allocate fractions (pos 5) (map (whole fractions) twice))
    ≡ ok (pos 6)
unfolding allocate ◌+ℤ◌ ◌-ℤ◌ sort stable_hash text_beq
allocate-twice = refl

three-IsDistinct : IsDistinct (λ input. input.0) three
three-IsDistinct = ground arith

allocate-conserves_example :
    (results : List AllocationResult) × (allocate fractions (negsuc 9) (map (whole fractions) three)
      ≡ ok results)
    × (sum_by amount_of results ≡ negsuc 9)
    × IsShares (negsuc 9) 3 three results
allocate-conserves_example =
    allocate-conserves fractions fractions-IsExact (negsuc 9) three (omega arith)
      (omega arith, (omega arith, (omega arith, tt))) three-IsDistinct (omega arith) (omega arith)
      (omega arith)
