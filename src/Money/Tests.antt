-- ===== src/Money/Tests.antt =====
-- Tests of the amounts (packages/domain/src/money.ts, apps/mobile/src/utils/money.ts).
use splitsaathi.Common.{err, ok, refl, ◌≡◌}
use splitsaathi.Common.Int.{abs, negsuc, pos}
use splitsaathi.Common.Keys.{codes}
use splitsaathi.Common.Texts.{trim, trim_end, trim_start}
use splitsaathi.Money.{
  add, currency_mismatch, decimal_to_minor, format_decimal_amount, invalid_decimal, negate,
  parse_amount_to_minor,
}
use splitsaathi.Money.Decimals.{decimal_to_minor-format_decimal_amount}

decimal_to_minor-format_decimal_amount_example :
    (decimal_to_minor (format_decimal_amount (negsuc 1204) 2) ≡ ok (negsuc 1204))
    × (parse_amount_to_minor (format_decimal_amount (negsuc 1204) 2) ≡ abs (negsuc 1204))
decimal_to_minor-format_decimal_amount_example =
    decimal_to_minor-format_decimal_amount (negsuc 1204)

format_test : format_decimal_amount (negsuc 1204) 2 ≡ codes "-12.05"
unfolding format_decimal_amount
format_test = refl

read_test : decimal_to_minor (codes " 1,250.5 ") ≡ ok (pos 125050)
unfolding decimal_to_minor trim trim_start trim_end
read_test = refl

refused_test : decimal_to_minor (codes "12.345") ≡ err (invalid_decimal (codes "12.345"))
unfolding decimal_to_minor trim trim_start trim_end
refused_test = refl

typed_test : parse_amount_to_minor (codes "Rs 7.5") ≡ 750
unfolding parse_amount_to_minor
typed_test = refl

add_test :
    add
      (record { amount_minor = pos 5; currency_code = codes "INR" })
      (record { amount_minor = negsuc 1; currency_code = codes "USD" })
    ≡ err (currency_mismatch (codes "INR") (codes "USD"))
unfolding add
add_test = refl

negate_test :
    negate (record { amount_minor = pos 5; currency_code = codes "INR" })
    ≡ ok (record { amount_minor = negsuc 4; currency_code = codes "INR" })
unfolding negate
negate_test = refl
