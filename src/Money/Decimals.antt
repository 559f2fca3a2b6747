-- ===== src/Money/Decimals.antt =====
-- Amounts written as decimals and read back (formatDecimalAmount of packages/domain/src/money.ts,
-- decimalToMinor of apps/api/src/modules/imports-exports/csv.ts, parseAmountToMinor of
-- apps/mobile/src/utils/money.ts).
use splitsaathi.Common.{
  All, All-append, Bool, [], all, ap, arith, false, filter, if◌then◌else◌, nat_beq, not, ok, refl,
  some, suc, true, ℕ, ◌%◌, ◌++◌, ◌+◌, ◌/◌, ◌||◌, ◌∙◌, ◌∷◌, ◌≡◌, ◌≤◌,
}
use splitsaathi.Common.Int.{abs, int_laws, negsuc, pos, ℤ}
use splitsaathi.Common.Keys.{Text}
use splitsaathi.Common.Digits.{
  IsDigit, digits, digits-IsDigit, is_digit, is_empty-digits, pad_end, pad_start-digits,
  read-digits, read_digits, read_onto, replicate,
}
use splitsaathi.Common.Texts.{is_space, trim, trim_end, trim_start}
use splitsaathi.Money.{
  after_point, before_point, decimal_parts, decimal_to_minor, drop_digits, format_decimal_amount,
  fraction, is_dropped, is_negative, parse_amount_to_minor, sign_of, signed, take_digits,
  two_places, unsigned_to_minor,
}

-- A sign, a point or a digit.
abbrev IsAmountChar : ℕ → Type 0
IsAmountChar c = (45 ≤ c) × (c ≤ 57)

amount_char-not-space : (c : ℕ) → IsAmountChar c → is_space c ≡ false
amount_char-not-space c amount = ground arith

trim_end-amount : (value : Text) → All IsAmountChar value → trim_end value ≡ value
unfolding trim_end
trim_end-amount [] amount = refl
trim_end-amount (c ∷ cs) (amount, more) =
    rw (amount_char-not-space c amount) (ap (λ t. c ∷ t) (trim_end-amount cs more))

trim_start-amount : (value : Text) → All IsAmountChar value → trim_start value ≡ value
unfolding trim_start
trim_start-amount [] amount = refl
trim_start-amount (c ∷ cs) (amount, more) = rw (amount_char-not-space c amount)

filter-amount :
    (value : Text) → All IsAmountChar value → filter (λ c. not (is_dropped c)) value ≡ value
filter-amount [] amount = refl
filter-amount (c ∷ cs) (amount, more) = ground (arith, filter-amount cs more)

-- Nothing of an amount is trimmed or dropped.
kept_amount :
    (value : Text) → All IsAmountChar value → filter (λ c. not (is_dropped c)) (trim value) ≡ value
unfolding trim
kept_amount value amount =
    rw (trim_start-amount value amount) rw (trim_end-amount value amount)
      (filter-amount value amount)

module _ (behind : Text) where
  take_digits-point : (t : Text) → All IsDigit t → take_digits (t ++ 46 ∷ behind) ≡ t
  take_digits-point [] digits = refl
  take_digits-point (c ∷ cs) (digit, more) = ground (arith, take_digits-point cs more)

  drop_digits-point : (t : Text) → All IsDigit t → drop_digits (t ++ 46 ∷ behind) ≡ 46 ∷ behind
  drop_digits-point [] digits = refl
  drop_digits-point (c ∷ cs) (digit, more) = ground (arith, drop_digits-point cs more)

  before_point-digits : (t : Text) → All IsDigit t → before_point (t ++ 46 ∷ behind) ≡ t
  before_point-digits [] digits = refl
  before_point-digits (c ∷ cs) (digit, more) = ground (arith, before_point-digits cs more)

  after_point-digits :
      (t : Text) → All IsDigit t → after_point (t ++ 46 ∷ behind) ≡ before_point behind
  after_point-digits [] digits = refl
  after_point-digits (c ∷ cs) (digit, more) = ground (arith, after_point-digits cs more)

  all_digits-point : (t : Text) → all is_digit (t ++ 46 ∷ behind) ≡ false
  all_digits-point [] = refl
  all_digits-point (c ∷ cs) = ground (arith, all_digits-point cs)

-- A number of hundredths, with its two places.
abbrev places : ℕ → Text
places n = (48 + n % 100 / 10) ∷ (48 + n % 100 % 10) ∷ []

unsigned_text : ℕ → Text
unsigned_text n = digits (n / 100) ++ 46 ∷ places n

format_decimal_amount-eq :
    (a : ℤ)
    → format_decimal_amount a 2 ≡ (if is_negative a then 45 ∷ [] else []) ++ unsigned_text (abs a)
unfolding format_decimal_amount unsigned_text
format_decimal_amount-eq a = rw (pad_start-digits (abs a % 100) (omega arith))

fraction-places : (n : ℕ) → fraction (46 ∷ places n) ≡ some (places n)
fraction-places n = ground arith

read_places : (n : ℕ) → read_digits (pad_end 2 (places n)) ≡ n % 100
unfolding read_onto pad_end replicate
read_places n = omega arith

read_unsigned :
    (value : Text) (negative : Bool) (n : ℕ)
    → unsigned_to_minor value (negative, unsigned_text n) ≡ ok (signed negative n)
unfolding unsigned_to_minor unsigned_text decimal_parts
read_unsigned value negative n =
    let digit = digits-IsDigit (n / 100) in
    rw (all_digits-point (places n) (digits (n / 100))) rw
      (take_digits-point (places n) (digits (n / 100)) digit) rw
      (drop_digits-point (places n) (digits (n / 100)) digit) rw (fraction-places n) rw
      (is_empty-digits (n / 100)) rw (read_places n) rw (read-digits (n / 100))
      (ap (λ (t : ℕ). ok (signed negative t)) (omega arith))

sign_of-point :
    (t behind : Text) → All IsDigit t → sign_of (t ++ 46 ∷ behind) ≡ (false, t ++ 46 ∷ behind)
sign_of-point [] behind digits = refl
sign_of-point (c ∷ cs) behind (digit, more) = ground arith

IsAmountChar-of_digits : (t : Text) → All IsDigit t → All IsAmountChar t
IsAmountChar-of_digits [] digits = tt
IsAmountChar-of_digits (c ∷ cs) (digit, more) = (omega arith, IsAmountChar-of_digits cs more)

sign_of-unsigned : (n : ℕ) → sign_of (unsigned_text n) ≡ (false, unsigned_text n)
unfolding unsigned_text
sign_of-unsigned n = sign_of-point (digits (n / 100)) (places n) (digits-IsDigit (n / 100))

unsigned_text-amount : (n : ℕ) → All IsAmountChar (unsigned_text n)
unfolding unsigned_text
unsigned_text-amount n =
    All-append IsAmountChar (digits (n / 100)) (46 ∷ places n)
      (IsAmountChar-of_digits (digits (n / 100)) (digits-IsDigit (n / 100))) (omega arith)

format_positive : (n : ℕ) → format_decimal_amount (pos n) 2 ≡ unsigned_text n
format_positive n = format_decimal_amount-eq (pos n) ∙ ap unsigned_text (omega arith)

format_negative : (n : ℕ) → format_decimal_amount (negsuc n) 2 ≡ 45 ∷ unsigned_text (suc n)
format_negative n =
    format_decimal_amount-eq (negsuc n) ∙ ap (λ (t : ℕ). 45 ∷ unsigned_text t) (omega arith)

read_amount :
    (value : Text)
    → All IsAmountChar value
    → decimal_to_minor value ≡ unsigned_to_minor value (sign_of value)
unfolding decimal_to_minor
read_amount value amount = ap (λ t. unsigned_to_minor value (sign_of t)) (kept_amount value amount)

decimal_to_minor-format : (a : ℤ) → decimal_to_minor (format_decimal_amount a 2) ≡ ok a
decimal_to_minor-format (pos n) =
    ap decimal_to_minor (format_positive n)
    ∙ read_amount (unsigned_text n) (unsigned_text-amount n)
    ∙ ap (unsigned_to_minor (unsigned_text n)) (sign_of-unsigned n)
    ∙ read_unsigned (unsigned_text n) false n
decimal_to_minor-format (negsuc n) =
    let value = 45 ∷ unsigned_text (suc n) in
    ap decimal_to_minor (format_negative n)
    ∙ read_amount value (omega arith, unsigned_text-amount (suc n))
    ∙ read_unsigned value true (suc n)
    ∙ ap (λ (t : ℤ). ok t) (omega int_laws)

-- What the app takes of a text: digits and points.
abbrev is_typed : ℕ → Bool
is_typed c = is_digit c || nat_beq c 46

filter-digits : (t : Text) → All IsDigit t → filter is_typed t ≡ t
filter-digits [] digits = refl
filter-digits (c ∷ cs) (digit, more) = ground (arith, filter-digits cs more)

filter-digits-point :
    (t behind : Text)
    → All IsDigit t
    → All IsDigit behind
    → filter is_typed (t ++ 46 ∷ behind) ≡ t ++ 46 ∷ behind
filter-digits-point [] behind digits later = ap (λ (r : Text). 46 ∷ r) (filter-digits behind later)
filter-digits-point (c ∷ cs) behind (digit, more) later =
    ground (arith, filter-digits-point cs behind more later)

before_point-places : (n : ℕ) → before_point (places n) ≡ places n
before_point-places n = ground arith

read_two_places : (n : ℕ) → read_digits (two_places (places n)) ≡ n % 100
unfolding read_onto
read_two_places n = omega arith

parse_amount-unsigned : (n : ℕ) → parse_amount_to_minor (unsigned_text n) ≡ n
unfolding parse_amount_to_minor unsigned_text
parse_amount-unsigned n =
    let digit = digits-IsDigit (n / 100) in
    rw (filter-digits-point (digits (n / 100)) (places n) digit (omega arith)) rw
      (before_point-digits (places n) (digits (n / 100)) digit) rw
      (after_point-digits (places n) (digits (n / 100)) digit) rw (before_point-places n) rw
      (read_two_places n) rw (read-digits (n / 100)) (omega arith)

parse_amount-sign : (t : Text) → parse_amount_to_minor (45 ∷ t) ≡ parse_amount_to_minor t
unfolding parse_amount_to_minor
parse_amount-sign t = refl

parse_amount-format : (a : ℤ) → parse_amount_to_minor (format_decimal_amount a 2) ≡ abs a
parse_amount-format (pos n) =
    ap parse_amount_to_minor (format_positive n) ∙ parse_amount-unsigned n ∙ omega arith
parse_amount-format (negsuc n) =
    ap parse_amount_to_minor (format_negative n)
    ∙ parse_amount-sign (unsigned_text (suc n))
    ∙ parse_amount-unsigned (suc n)
    ∙ omega arith

-- Both readers take a formatted amount back: decimalToMinor to the amount itself, and
-- parseAmountToMinor of the app, which drops a sign, to its absolute value.
pub decimal_to_minor-format_decimal_amount :
    (a : ℤ)
    → (decimal_to_minor (format_decimal_amount a 2) ≡ ok a)
      × (parse_amount_to_minor (format_decimal_amount a 2) ≡ abs a)
decimal_to_minor-format_decimal_amount a = (decimal_to_minor-format a, parse_amount-format a)
