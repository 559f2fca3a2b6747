-- ===== src/Exports/Tests.antt =====
-- Tests of the exports (apps/api/src/modules/imports-exports/csv-export.service.ts).
use splitsaathi.Common.{[], length, refl, ◌∷◌, ◌≡◌}
use splitsaathi.Common.Int.{negsuc}
use splitsaathi.Common.Keys.{Text, codes}
use splitsaathi.Balances.{BalanceRow}
use splitsaathi.Imports.{balances_csv}
use splitsaathi.Exports.{build_csv, escape_pdf, offsets, take_text, xref_line}
use splitsaathi.Common.Digits.{digits, pad_start}

line_test : xref_line 13 ≡ codes "0000000013 00000 n "
unfolding xref_line digits pad_start
line_test = refl

offsets_test : offsets length 9 (codes "one" ∷ codes "two" ∷ []) ≡ 9 ∷ 13 ∷ []
unfolding offsets
offsets_test = refl

abbrev one_balance : BalanceRow
one_balance = record {
  group_id = codes "g";
  participant_id = codes "p";
  currency_code = codes "INR";
  amount_minor = negsuc 4;
}

balances_test :
    build_csv balances_csv [] (one_balance ∷ [])
    ≡ codes "participant_id,currency_code,amount_minor\np,INR,-5"
unfolding build_csv
balances_test = refl

escape_test : escape_pdf (codes "a(b)") ≡ codes "a\\(b\\)"
unfolding escape_pdf
escape_test = refl

-- A line whose bracket is the ninetieth character loses it, and keeps the backslash in front of it,
-- which then escapes the bracket that ends the text.
abbrev ninety : Text
ninety =
    codes
      "aaaaaaaaaabbbbbbbbbbaaaaaaaaaabbbbbbbbbbaaaaaaaaaabbbbbbbbbbaaaaaaaaaabbbbbbbbbbaaaaaaaaa)"

cut_test :
    take_text 90 (escape_pdf ninety)
    ≡ codes
        "aaaaaaaaaabbbbbbbbbbaaaaaaaaaabbbbbbbbbbaaaaaaaaaabbbbbbbbbbaaaaaaaaaabbbbbbbbbbaaaaaaaaa\\"
unfolding take_text escape_pdf
cut_test = refl
