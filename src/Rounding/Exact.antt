-- ===== src/Rounding/Exact.antt =====
-- `RoundingAllocator.allocate` for whole weights (packages/domain/src/rounding.ts, lines 24-81).
use Prim.Native.Nat.{◌/◌, ◌<◌}
use native.Mathlib.Nat.{div-mul-le_self, le_of_mul-le-mul_right, lt-div-mul-add, mul-le-mul_left}
use splitsaathi.Common.{
  All, List, [], ap, arith, false, leb, length, length-map, map, ok, refl, subst, sym, ℕ, ◌*◌, ◌+◌,
  ◌/◌, ◌<◌, ◌>>=◌, ◌^◌, ◌∙◌, ◌∷◌, ◌≡◌, ◌≤◌,
}
use splitsaathi.Common.Int.{abs, sum_by, ℤ}
use splitsaathi.Common.Keys.{Text}
use splitsaathi.Rounding.{
  AllocationResult, BaseRow, Doubles, WeightedInput, add_weights, allocate, allocation, base_row,
  distribute, extra_of, fraction_le, normalize, signed,
}
use splitsaathi.Common.Dict.{Dict}
use splitsaathi.Rounding.Distinct.{IsAbsent, IsDistinct, sort-IsDistinct}
use splitsaathi.Rounding.Extras.{extra_of-hand_out_le, row_id}
use splitsaathi.Rounding.Conservation.{amount_of, distribute-sum, distribute_lem, floors}

abbrev pub weights_sum : List (Text × ℕ) → ℕ
weights_sum [] = 0
weights_sum ((id, weight) ∷ rest) = weight + weights_sum rest

-- `⌊amount * weight / total_weight⌋` for each weight, summed.
abbrev pub floors_sum : ℕ → ℕ → List (Text × ℕ) → ℕ
floors_sum amount total_weight [] = 0
floors_sum amount total_weight ((id, weight) ∷ rest) =
    amount * weight / total_weight + floors_sum amount total_weight rest

-- The shares are in the order of the weights, and each is its floor or one unit more.
abbrev pub IsShares : ℤ → ℕ → List (Text × ℕ) → List AllocationResult → Type 0
IsShares total total_weight [] [] = Unit
IsShares total total_weight [] (result ∷ results) = ⊥
IsShares total total_weight (input ∷ inputs) [] = ⊥
IsShares total total_weight ((id, weight) ∷ inputs) (result ∷ results) =
    (result.id ≡ id)
    × ((extra : ℕ) × (extra ≤ 1)
        × (result.amount_minor ≡ signed total (abs total * weight / total_weight + extra))
        × (result.residual_minor ≡ signed total extra))
    × IsShares total total_weight inputs results

floors_sum-le :
    (a w : ℕ) (rows : List (Text × ℕ)) → 0 < w → floors_sum a w rows * w ≤ a * weights_sum rows
floors_sum-le a w [] positive = omega arith
floors_sum-le a w ((id, x) ∷ rows) positive =
    omega (arith, div-mul-le_self (a * x) w, floors_sum-le a w rows positive)

le-floors_sum :
    (a w : ℕ) (rows : List (Text × ℕ))
    → 0 < w
    → a * weights_sum rows ≤ (floors_sum a w rows + length rows) * w
le-floors_sum a w [] positive = omega arith
le-floors_sum a w ((id, x) ∷ rows) positive =
    omega (arith, lt-div-mul-add {a = a * x} positive, le-floors_sum a w rows positive)

-- The floors are not above the amount, and lack at most a unit for each weight.
floors_sum-bounds :
    (a : ℕ) (rows : List (Text × ℕ))
    → 0 < weights_sum rows
    → (floors_sum a (weights_sum rows) rows ≤ a)
      × (a ≤ floors_sum a (weights_sum rows) rows + length rows)
floors_sum-bounds a rows positive = (
  le_of_mul-le-mul_right (floors_sum-le a (weights_sum rows) rows positive) positive,
  le_of_mul-le-mul_right (le-floors_sum a (weights_sum rows) rows positive) positive,
)

zero_plus : (n : ℕ) → 0 + n ≡ n
zero_plus n = omega arith

module _ (d : Doubles) where
  open d use {Number, of_integer, at_most_zero, add, sub, mul, div, floor, less}

  -- A call whose weights are accepted, with the sum of the weights.
  allocate-normalized :
      (total : ℤ) (input : WeightedInput d) (rest : List (WeightedInput d))
      (normalized : List (Text × Number)) (w : Number)
      → normalize d (input ∷ rest) ≡ ok normalized
      → add_weights d (of_integer 0) normalized ≡ w
      → allocate d total (input ∷ rest)
        ≡ ok (distribute d total (map (base_row d (abs total) w) normalized))
  unfolding allocate
  allocate-normalized total input rest normalized w accepted summed =
      ap
        (λ m. m >>= λ rows. ok (
          distribute d total
            (map (base_row d (abs total) (add_weights d (of_integer 0) rows)) rows)))
        accepted
      ∙ ap (λ sum. ok (distribute d total (map (base_row d (abs total) sum) normalized))) summed

  -- What IEEE 754 says of whole numbers below 2^53: sums and products are exact, as is the division
  -- by one, and a quotient is not rounded up to the next whole number.
  pub record IsExact : Type 0 where
    pub at_most_zero_law : (n : ℕ) → at_most_zero (of_integer n) ≡ leb n 0
    pub div_one : (n : ℕ) → div (of_integer n) (of_integer 1) ≡ of_integer n
    pub add_law :
        (m n : ℕ) → m + n < 2 ^ 53 → add (of_integer m) (of_integer n) ≡ of_integer (m + n)
    pub mul_law :
        (m n : ℕ)
        → m < 2 ^ 53
        → n < 2 ^ 53
        → m * n < 2 ^ 53
        → mul (of_integer m) (of_integer n) ≡ of_integer (m * n)
    pub floor_law :
        (m n : ℕ)
        → m < 2 ^ 53
        → n < 2 ^ 53
        → 0 < n
        → floor (div (of_integer m) (of_integer n)) ≡ m / n

  -- An input with a whole weight and the denominator 1.
  abbrev pub whole : Text × ℕ → WeightedInput d
  whole (id, weight) = record {
    id = id;
    weight_numerator = of_integer weight;
    weight_denominator = of_integer 1;
  }

  abbrev raw : Text × ℕ → Text × Number
  raw (id, weight) = (id, of_integer weight)

  module _ (exact : IsExact) where
    open exact use {at_most_zero_law, div_one, add_law, mul_law, floor_law}

    normalize-whole :
        (inputs : List (Text × ℕ))
        → All (λ input. 0 < input.1) inputs
        → normalize d (map whole inputs) ≡ ok (map raw inputs)
    unfolding normalize
    normalize-whole [] positive = refl
    normalize-whole ((id, w) ∷ inputs) (here, later) =
        let accepted : leb w 0 ≡ false = ground (arith, here) in
        rw
          (
            at_most_zero_law w,
            at_most_zero_law 1,
            accepted,
            normalize-whole inputs later,
            div_one w,
          )
          refl

    add_weights-raw :
        (t : ℕ) (inputs : List (Text × ℕ))
        → t + weights_sum inputs < 2 ^ 53
        → add_weights d (of_integer t) (map raw inputs) ≡ of_integer (t + weights_sum inputs)
    unfolding add_weights
    add_weights-raw t [] small = ap of_integer (omega arith)
    add_weights-raw t ((id, w) ∷ inputs) small =
        ap (λ sum. add_weights d sum (map raw inputs)) (add_law t w (omega (arith, small)))
        ∙ add_weights-raw (t + w) inputs (omega (arith, small))
        ∙ ap of_integer (omega arith)

    module _ (a w : ℕ) (a_small : a < 2 ^ 53) (w_small : w < 2 ^ 53) (positive : 0 < w) where
      abbrev base_of : Text × ℕ → BaseRow Number
      base_of input = base_row d a (of_integer w) (raw input)

      floored_lem :
          (id : Text) (x : ℕ) → x ≤ w → a * w < 2 ^ 53 → (base_of (id, x)).floored ≡ a * x / w
      floored_lem id x below small =
          let product : a * x < 2 ^ 53 = omega (arith, mul-le-mul_left a below, small) in
          rw (mul_law a x a_small (omega (arith, below, w_small)) product)
            (floor_law (a * x) w product w_small positive)

      base_lem :
          (inputs : List (Text × ℕ))
          → map (base_row d a (of_integer w)) (map raw inputs) ≡ map base_of inputs
      base_lem [] = refl
      base_lem (input ∷ inputs) = ap (λ rows. base_of input ∷ rows) (base_lem inputs)

      floors_lem :
          (inputs : List (Text × ℕ))
          → weights_sum inputs ≤ w
          → a * w < 2 ^ 53
          → floors (map base_of inputs) ≡ floors_sum a w inputs
      floors_lem [] below small = refl
      floors_lem ((id, x) ∷ inputs) below small = omega (
        arith,
        floored_lem id x (omega (arith, below)) small,
        floors_lem inputs (omega (arith, below)) small,
      )

      base_of-IsAbsent :
          (i : Text) (inputs : List (Text × ℕ))
          → IsAbsent (λ input. input.0) i inputs
          → IsAbsent row_id i (map base_of inputs)
      base_of-IsAbsent i [] absent = tt
      base_of-IsAbsent i ((id, x) ∷ inputs) (here, later) = (here, base_of-IsAbsent i inputs later)

      base_of-IsDistinct :
          (inputs : List (Text × ℕ))
          → IsDistinct (λ input. input.0) inputs
          → IsDistinct row_id (map base_of inputs)
      base_of-IsDistinct [] distinct = tt
      base_of-IsDistinct ((id, x) ∷ inputs) (here, later) =
          (base_of-IsAbsent id inputs here, base_of-IsDistinct inputs later)

      shares :
          (total : ℤ) (extras : Dict Text ℕ) (inputs : List (Text × ℕ))
          → abs total ≡ a
          → weights_sum inputs ≤ w
          → a * w < 2 ^ 53
          → ((i : Text) → extra_of extras i ≤ 1)
          → IsShares total w inputs (map (allocation total extras) (map base_of inputs))
      shares total extras [] same below small one = tt
      shares total extras ((id, x) ∷ inputs) same below small one = (
        refl,
        (
          extra_of extras id,
          one id,
          ap (λ n. signed total (n + extra_of extras id))
              (floored_lem id x (omega (arith, below)) small ∙ ap (λ n. n * x / w) (sym same)),
          refl,
        ),
        shares total extras inputs same (omega (arith, below)) small one,
      )

    -- If arithmetic is exact on whole numbers below 2^53, as `IsExact` says: with some inputs, all of
    -- positive whole weights, under distinct ids, and with the amount, the sum of the weights and
    -- their product below 2^53, `allocate` returns a share for each input, in their order; each is its
    -- exact share rounded down or one unit more, and together they are the total.
    pub allocate-conserves :
        (total : ℤ) (inputs : List (Text × ℕ))
        → 0 < length inputs
        → All (λ input. 0 < input.1) inputs
        → IsDistinct (λ input. input.0) inputs
        → abs total < 2 ^ 53
        → weights_sum inputs < 2 ^ 53
        → abs total * weights_sum inputs < 2 ^ 53
        → (results : List AllocationResult) × (allocate d total (map whole inputs) ≡ ok results)
          × (sum_by amount_of results ≡ total)
          × IsShares total (weights_sum inputs) inputs results
    allocate-conserves total [] some_inputs positive distinct a_small w_small small =
        absurd (omega (arith, some_inputs))
    allocate-conserves total (input ∷ rest) some_inputs positive distinct a_small w_small small =
        let inputs = input ∷ rest in
        let w = weights_sum inputs in
        let w_positive : 0 < w = omega (arith, positive.0) in
        let base = map (base_of (abs total) w a_small w_small w_positive) inputs in
        let fits = floors_lem (abs total) w a_small w_small w_positive inputs (omega arith) small in
        let bounds = floors_sum-bounds (abs total) inputs w_positive in
        let low : floors base ≤ abs total = omega (arith, fits, bounds.0) in
        let high : abs total ≤ floors base + length base = omega (
          arith,
          fits,
          bounds.1,
          length-map (base_of (abs total) w a_small w_small w_positive) inputs,
        ) in
        let ids = base_of-IsDistinct (abs total) w a_small w_small w_positive inputs distinct in
        (
          distribute d total base,
          allocate-normalized total (whole input) (map whole rest) (map raw inputs) (of_integer w)
                (normalize-whole inputs positive)
                (add_weights-raw 0 inputs (omega (arith, w_small)) ∙ ap of_integer (zero_plus w))
              ∙ ap (λ rows. ok (distribute d total rows))
                  (base_lem (abs total) w a_small w_small w_positive inputs),
          distribute-sum d total base ids low high,
          subst (IsShares total w inputs) (sym (distribute_lem d total base low)) (
              shares (abs total) w a_small w_small w_positive total _ inputs refl (omega arith)
                small
                (λ i.
                  extra_of-hand_out_le _ i _ [] (sort-IsDistinct row_id (fraction_le d) base ids))),
        )
