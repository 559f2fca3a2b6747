-- ===== src/Common/Digits.antt =====
-- Decimal numerals of whole numbers: `String(n)`, `Number.parseInt(text, 10)` on digits, and padding.
use Prim.Native.Nat.{ℕ, zero, suc, ◌+◌, ◌-◌, ◌*◌, ◌/◌, ◌%◌, ◌<◌, ◌≤◌}
use mathlib.Core.Path.{◌≡◌, refl}
use mathlib.Core.Logic.{inl, inr}
use mathlib.Core.Bool.{Bool, false, ◌&&◌}
use mathlib.Core.List.{[], ◌∷◌, ◌++◌}
use native.Mathlib.Omega.{arith}
use splitsaathi.Common.Tests.{leb, ltb, if◌then◌else◌, Bool-cases}
use splitsaathi.Common.Lists.{length, is_empty, All, All-append}
use splitsaathi.Common.Keys.{Text}

-- `\d`
abbrev pub is_digit : ℕ → Bool
is_digit c = leb 48 c && leb c 57

abbrev pub IsDigit : ℕ → Type 0
IsDigit c = (48 ≤ c) × (c ≤ 57)

-- The digits of n, with more fuel than n.
digits_on : ℕ → ℕ → Text
digits_on zero n = []
digits_on (suc fuel) n =
    let rest = digits_on fuel (n / 10) ++ (48 + n % 10) ∷ [] in
    if ltb n 10 then (48 + n) ∷ [] else rest

-- `String(n)`
unfoldable pub digits : ℕ → Text
unfolding digits_on
digits n = digits_on (suc n) n

-- `Number.parseInt(text, 10)` on a text of digits, after the number read so far.
unfoldable pub read_onto : ℕ → Text → ℕ
read_onto acc [] = acc
read_onto acc (c ∷ cs) = read_onto (acc * 10 + (c - 48)) cs

abbrev pub read_digits : Text → ℕ
read_digits = read_onto 0

unfoldable pub replicate : ℕ → ℕ → Text
replicate zero c = []
replicate (suc n) c = c ∷ replicate n c

-- `text.padStart(n, '0')` and `text.padEnd(n, '0')`
unfoldable pub pad_start : ℕ → Text → Text
unfolding replicate
pad_start n text = replicate (n - length text) 48 ++ text

unfoldable pub pad_end : ℕ → Text → Text
unfolding replicate
pad_end n text = text ++ replicate (n - length text) 48

read_onto-append :
    (acc : ℕ) (xs ys : Text) → read_onto acc (xs ++ ys) ≡ read_onto (read_onto acc xs) ys
unfolding read_onto
read_onto-append acc [] ys = refl
read_onto-append acc (x ∷ xs) ys = read_onto-append (acc * 10 + (x - 48)) xs ys

read-digits_on : (fuel n : ℕ) → n < fuel → read_onto 0 (digits_on fuel n) ≡ n
unfolding digits_on read_onto
read-digits_on zero n enough = absurd (omega arith)
read-digits_on (suc fuel) n enough = elim (Bool-cases (ltb n 10)) [
  | inl small ↦ rw small (omega arith)
  | inr large ↦
      let front = read-digits_on fuel (n / 10) (ground arith) in
      rw large rw (read_onto-append 0 (digits_on fuel (n / 10)) ((48 + n % 10) ∷ [])) rw front
        (omega arith)
]

pub read-digits : (n : ℕ) → read_digits (digits n) ≡ n
unfolding digits
read-digits n = read-digits_on (suc n) n (omega arith)

digits_on-IsDigit : (fuel n : ℕ) → All IsDigit (digits_on fuel n)
unfolding digits_on
digits_on-IsDigit zero n = tt
digits_on-IsDigit (suc fuel) n = elim (Bool-cases (ltb n 10)) [
  | inl small ↦ rw small (ground arith)
  | inr large ↦ rw large (
      All-append IsDigit (digits_on fuel (n / 10)) ((48 + n % 10) ∷ [])
        (digits_on-IsDigit fuel (n / 10)) (omega arith))
]

pub digits-IsDigit : (n : ℕ) → All IsDigit (digits n)
unfolding digits
digits-IsDigit n = digits_on-IsDigit (suc n) n

digits_on_small : (fuel n : ℕ) → n < fuel → n < 10 → digits_on fuel n ≡ (48 + n) ∷ []
unfolding digits_on
digits_on_small zero n enough small = absurd (omega arith)
digits_on_small (suc fuel) n enough small = ground arith

is_empty-append : (xs : Text) (y : ℕ) → is_empty (xs ++ y ∷ []) ≡ false
is_empty-append [] y = refl
is_empty-append (x ∷ xs) y = refl

pub is_empty-digits : (n : ℕ) → is_empty (digits n) ≡ false
unfolding digits digits_on
is_empty-digits n = elim (Bool-cases (ltb n 10)) [
  | inl small ↦ rw small
  | inr large ↦ rw large (is_empty-append (digits_on n (n / 10)) (48 + n % 10))
]

-- Two places of a number below one hundred.
pub pad_start-digits :
    (n : ℕ) → n < 100 → pad_start 2 (digits n) ≡ (48 + n / 10) ∷ (48 + n % 10) ∷ []
unfolding pad_start digits digits_on replicate
pad_start-digits n small = elim (Bool-cases (ltb n 10)) [
  | inl one ↦ rw one (ground arith)
  | inr two ↦ rw two rw (digits_on_small n (n / 10) (ground arith) (omega arith)) (ground arith)
]
