-- ===== src/Money.antt =====
-- Amounts as decimal texts (packages/domain/src/money.ts, decimalToMinor of
-- apps/api/src/modules/imports-exports/csv.ts, and apps/mobile/src/utils/money.ts).
use splitsaathi.Common.Digits.{digits, is_digit, pad_end, pad_start, read_digits, read_onto}
use splitsaathi.Common.Texts.{is_space, trim}
use splitsaathi.Common.Keys.{Text, text_beq}
use splitsaathi.Common.Int.{abs, neg, negsuc, pos, ℤ, ◌+ℤ◌}
use splitsaathi.Common.{
  Bool, Option, Result, [], all, err, false, filter, if◌then◌else◌, is_empty, leb, length, nat_beq,
  none, not, ok, some, true, ℕ, ◌%◌, ◌&&◌, ◌*◌, ◌++◌, ◌+◌, ◌/◌, ◌^◌, ◌||◌, ◌∷◌,
}
pub mod Decimals
pub mod Tests

pub data MoneyError : Type 0 where
  bad_currency : Text → MoneyError
  currency_mismatch : Text → Text → MoneyError
  invalid_decimal : Text → MoneyError

pub record Money : Type 0 where
  pub amount_minor : ℤ
  pub currency_code : Text

-- `/^[A-Z]{3}$/`
abbrev is_upper : ℕ → Bool
is_upper c = leb 65 c && leb c 90

is_currency : Text → Bool
is_currency code = nat_beq (length code) 3 && all is_upper code

-- `Money.of`. Amounts are whole numbers here.
unfoldable pub money_of : ℤ → Text → Result MoneyError Money
unfolding is_currency
money_of amount code =
    if is_currency code
    then ok (record { amount_minor = amount; currency_code = code })
    else err (bad_currency code)

unfoldable pub add : Money → Money → Result MoneyError Money
unfolding money_of text_beq
add a b =
    if text_beq a.currency_code b.currency_code
    then money_of (a.amount_minor +ℤ b.amount_minor) a.currency_code
    else err (currency_mismatch a.currency_code b.currency_code)

unfoldable pub negate : Money → Result MoneyError Money
unfolding money_of neg
negate a = money_of (neg a.amount_minor) a.currency_code

abbrev pub is_negative : ℤ → Bool
is_negative (pos n) = false
is_negative (negsuc n) = true

-- The default of `minorUnit` is 2.
unfoldable pub format_decimal_amount : ℤ → ℕ → Text
unfolding digits pad_start
format_decimal_amount amount minor_unit =
    (if is_negative amount then 45 ∷ [] else [])
    ++ (digits (abs amount / 10 ^ minor_unit)
        ++ 46 ∷ pad_start minor_unit (digits (abs amount % 10 ^ minor_unit)))

-- `/[₹,\s]/`
abbrev pub is_dropped : ℕ → Bool
is_dropped c = nat_beq c 8377 || nat_beq c 44 || is_space c

abbrev pub take_digits : Text → Text
take_digits [] = []
take_digits (c ∷ cs) = if is_digit c then c ∷ take_digits cs else []

abbrev pub drop_digits : Text → Text
drop_digits [] = []
drop_digits (c ∷ cs) = if is_digit c then drop_digits cs else c ∷ cs

-- `(?:\.(\d{1,2}))?$`: the digits behind the point, or none.
abbrev pub fraction : Text → Option Text
fraction [] = some []
fraction (c ∷ cs) =
    if nat_beq c 46 && all is_digit cs && leb 1 (length cs) && leb (length cs) 2
    then some cs
    else none

-- `sign * value`
abbrev pub signed : Bool → ℕ → ℤ
signed true n = neg (pos n)
signed false n = pos n

-- `-?`
abbrev pub sign_of : Text → Bool × Text
sign_of [] = (false, [])
sign_of (c ∷ cs) = if nat_beq c 45 then (true, cs) else (false, c ∷ cs)

pub decimal_parts : Text → Bool → Text → Option Text → Result MoneyError ℤ
unfolding pad_end read_onto neg
decimal_parts value negative major none = err (invalid_decimal value)
decimal_parts value negative major (some minor) =
    if is_empty major
    then err (invalid_decimal value)
    else ok (signed negative (read_digits major * 100 + read_digits (pad_end 2 minor)))

-- The two patterns of `decimalToMinor` on a text without its sign.
pub unsigned_to_minor : Text → Bool × Text → Result MoneyError ℤ
unfolding decimal_parts
unsigned_to_minor value (negative, body) =
    if all is_digit body && not (is_empty body)
    then ok (signed negative (read_digits body * 100))
    else decimal_parts value negative (take_digits body) (fraction (drop_digits body))

unfoldable pub decimal_to_minor : Text → Result MoneyError ℤ
unfolding unsigned_to_minor trim
decimal_to_minor value =
    unsigned_to_minor value (sign_of (filter (λ c. not (is_dropped c)) (trim value)))

-- `split('.')`, the part up to the first point and the part up to the second.
abbrev pub before_point : Text → Text
before_point [] = []
before_point (c ∷ cs) = if nat_beq c 46 then [] else c ∷ before_point cs

abbrev pub after_point : Text → Text
after_point [] = []
after_point (c ∷ cs) = if nat_beq c 46 then before_point cs else after_point cs

-- `(paise + '00').slice(0, 2)`
abbrev pub two_places : Text → Text
two_places [] = 48 ∷ 48 ∷ []
two_places (c ∷ []) = c ∷ 48 ∷ []
two_places (c ∷ d ∷ rest) = c ∷ d ∷ []

-- `parseAmountToMinor` of the mobile app. An empty text of digits reads as 0.
unfoldable pub parse_amount_to_minor : Text → ℕ
unfolding read_onto
parse_amount_to_minor input =
    let normalized = filter (λ c. is_digit c || nat_beq c 46) input in
    read_digits (before_point normalized) * 100 + read_digits (two_places (after_point normalized))
