-- ===== src/Rounding/Fractions.antt =====
-- Fractions of natural numbers as an instance of the arithmetic that packages/domain/src/rounding.ts
-- uses.
use Prim.Native.Nat.{◌/◌}
use splitsaathi.Common.{ap, arith, leb, ltb, refl, ℕ, ◌*◌, ◌+◌, ◌-◌, ◌/◌, ◌≡◌}
use splitsaathi.Rounding.{Doubles}
use splitsaathi.Rounding.Exact.{IsExact}

-- A pair (m, n) is m / n, and sums are not reduced.
abbrev pub fractions : Doubles
fractions = record {
  Number = ℕ × ℕ;
  of_integer = λ n. (n, 1);
  at_most_zero = λ x. leb x.0 0;
  add = λ x y. (x.0 * y.1 + y.0 * x.1, x.1 * y.1);
  sub = λ x y. (x.0 * y.1 - y.0 * x.1, x.1 * y.1);
  mul = λ x y. (x.0 * y.0, x.1 * y.1);
  div = λ x y. (x.0 * y.1, x.1 * y.0);
  floor = λ x. x.0 / x.1;
  less = λ x y. ltb (x.0 * y.1) (y.0 * x.1);
}

pub fractions-IsExact : IsExact fractions
fractions-IsExact = record {
  at_most_zero_law = λ n. refl;
  div_one = λ n. ap (λ m. (m, 1)) (omega arith);
  add_law = λ m n small. ap (λ k. (k, 1)) (omega arith);
  mul_law = λ m n m_small n_small small. refl;
  floor_law = λ m n m_small n_small positive. quotient m n;
}
  where
    quotient : (m n : ℕ) → m * 1 / (1 * n) ≡ m / n
    quotient m n =
        let above : m * 1 ≡ m = omega arith in
        let below : 1 * n ≡ n = omega arith in rw (above, below) refl
