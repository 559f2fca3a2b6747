-- ===== src/Rounding.antt =====
-- The allocation of an amount by weights: packages/domain/src/rounding.ts.
pub mod Distinct
pub mod Extras
pub mod Conservation
pub mod Exact
pub mod Fractions
pub mod Tests
use Prim.Native.Nat.{bit_xor}
use splitsaathi.Common.{
  Bool, List, Result, [], false, if◌then◌else◌, is_empty, leb, map, ok, or_default, throw_if, true,
  ℕ, ◌%◌, ◌*◌, ◌+◌, ◌>>=◌, ◌>>◌, ◌^◌, ◌||◌, ◌∷◌,
}
use splitsaathi.Common.Int.{abs, leb_ℤ, ltb_ℤ, neg, pos, sum_by, ℤ, ◌-ℤ◌}
use splitsaathi.Common.Keys.{Text, text_eq}
use splitsaathi.Common.Dict.{Dict, get, set}
use splitsaathi.Common.Sort.{sort}

-- Double-precision numbers and what the code does with them. `floor` is `Math.floor` of a finite
-- number that is not negative, `less` is `<`, and `at_most_zero x` is `x <= 0`.
pub record Doubles : Type 1 where
  pub Number : Type 0
  pub of_integer : ℕ → Number
  pub at_most_zero : Number → Bool
  pub add : Number → Number → Number
  pub sub : Number → Number → Number
  pub mul : Number → Number → Number
  pub div : Number → Number → Number
  pub floor : Number → ℕ
  pub less : Number → Number → Bool

-- The loop of `stableHash`, on the unsigned reading of the 32-bit value.
unfoldable pub stable_hash_from : ℕ → Text → ℕ
stable_hash_from hash [] = hash
stable_hash_from hash (c ∷ cs) = stable_hash_from ((bit_xor hash c * 16777619) % 2 ^ 32) cs

-- `stableHash`.
unfoldable pub stable_hash : Text → ℕ
unfolding stable_hash_from
stable_hash value = stable_hash_from 2166136261 value

-- What `allocate` throws.
pub data AllocationError : Type 0 where
  no_inputs weight_not_positive : AllocationError

-- `AllocationResult`.
pub record AllocationResult : Type 0 where
  pub id : Text
  pub amount_minor : ℤ
  pub residual_minor : ℤ

-- A row of `base`, without its fraction and hash, which only the sorting reads.
pub record BaseRow (N : Type 0) : Type 0 where
  pub id : Text
  pub floored : ℕ
  pub fraction : N
  pub hash : ℕ

-- `sign * amount`.
abbrev pub signed : ℤ → ℕ → ℤ
signed total amount = if ltb_ℤ total (pos 0) then neg (pos amount) else pos amount

abbrev pub extra_of : Dict Text ℕ → Text → ℕ
extra_of extras id = or_default 0 (get id extras)

-- The loop that hands out the remainder, one unit for each row.
unfoldable pub hand_out : {N : Type 0} → ℤ → List (BaseRow N) → Dict Text ℕ → Dict Text ℕ
hand_out remainder [] extras = extras
hand_out remainder (row ∷ rows) extras =
    if leb_ℤ remainder (pos 0)
    then extras
    else hand_out (remainder -ℤ pos 1) rows (set row.id (extra_of extras row.id + 1) extras)

-- The rows that are returned.
abbrev pub allocation : {N : Type 0} → ℤ → Dict Text ℕ → BaseRow N → AllocationResult
allocation total extras row = record {
  id = row.id;
  amount_minor = signed total (row.floored + extra_of extras row.id);
  residual_minor = signed total (extra_of extras row.id);
}

module _ (d : Doubles) where
  open d use {Number, of_integer, at_most_zero, add, sub, mul, div, floor, less}

  -- `WeightedAllocationInput`.
  pub record WeightedInput : Type 0 where
    pub id : Text
    pub weight_numerator : Number
    pub weight_denominator : Number

  -- `normalized`: the ids with their weights, or the error of the first weight that is not positive.
  unfoldable pub normalize : List WeightedInput → Result AllocationError (List (Text × Number))
  normalize [] = ok []
  normalize (input ∷ inputs) = do
    throw_if (at_most_zero input.weight_numerator || at_most_zero input.weight_denominator)
        weight_not_positive
    rest ← normalize inputs
    ok ((input.id, div input.weight_numerator input.weight_denominator) ∷ rest)

  -- `normalized.reduce((sum, input) => sum + input.weight, 0)`.
  unfoldable pub add_weights : Number → List (Text × Number) → Number
  add_weights total [] = total
  add_weights total ((id, weight) ∷ rest) = add_weights (add total weight) rest

  -- A row of `base`.
  abbrev pub base_row : ℕ → Number → Text × Number → BaseRow Number
  base_row absolute_total total_weight (id, weight) =
      let exact = div (mul (of_integer absolute_total) weight) total_weight in
      record {
        id = id;
        floored = floor exact;
        fraction = sub exact (of_integer (floor exact));
        hash = stable_hash id;
      }

  -- The order of the sort: the larger fraction first, and on a tie the smaller hash.
  abbrev pub fraction_le : BaseRow Number → BaseRow Number → Bool
  fraction_le left right =
      if less right.fraction left.fraction
      then true
      else if less left.fraction right.fraction
      then false
      else leb left.hash right.hash

  -- The rows returned for a base: the remainder, the sort, the loop and the last map of `allocate`.
  unfoldable pub distribute : ℤ → List (BaseRow Number) → List AllocationResult
  unfolding hand_out
  distribute total base =
      let remainder = pos (abs total) -ℤ sum_by (λ row. pos row.floored) base in
      let extras = hand_out remainder (sort fraction_le base) [] in
      map (allocation total extras) base

  -- `allocate`. The total is an integer here, so that the guard `Number.isInteger` holds.
  unfoldable pub allocate : ℤ → List WeightedInput → Result AllocationError (List AllocationResult)
  unfolding normalize add_weights distribute
  allocate total inputs = do
    throw_if (is_empty inputs) no_inputs
    normalized ← normalize inputs
    let total_weight = add_weights (of_integer 0) normalized
    ok (distribute total (map (base_row (abs total) total_weight) normalized))
