-- ===== src/Csv/Tests.antt =====
-- Tests of the tables (apps/api/src/modules/imports-exports/csv.ts).
use splitsaathi.Common.{List, [], filter, inr, map, refl, ◌∷◌, ◌≡◌}
use splitsaathi.Common.Int.{negsuc}
use splitsaathi.Common.Keys.{codes}
use splitsaathi.Common.Texts.{trim, trim_end, trim_start}
use splitsaathi.Csv.{Cell, cell_text, has_content, missing, number, parse_csv, text, to_csv}
use splitsaathi.Csv.Rows.{parse_csv-to_csv}

-- A header, a row with a quoted cell, and an empty row.
abbrev table : List (List Cell)
table =
    (text (codes "name") ∷ text (codes "amount") ∷ [])
    ∷ (text (codes "tea, \"hot\"") ∷ number (negsuc 41) ∷ missing ∷ [])
    ∷ []
    ∷ []

parse_csv-to_csv_example : parse_csv (to_csv table) ≡ filter has_content (map (map cell_text) table)
parse_csv-to_csv_example =
    parse_csv-to_csv table ((inr refl, (inr refl, tt)), ((inr refl, (tt, (tt, tt))), (tt, tt)))

parse_test :
    parse_csv (codes "a,b\n\n\"c\nd\",e")
    ≡ (codes "a" ∷ codes "b" ∷ []) ∷ (codes "c\nd" ∷ codes "e" ∷ []) ∷ []
unfolding parse_csv trim trim_start trim_end
parse_test = refl

-- A cell of one quote is written as four and read as two.
quote_test : parse_csv (to_csv ((text (codes "\"") ∷ []) ∷ [])) ≡ (codes "\"\"" ∷ []) ∷ []
unfolding parse_csv to_csv trim trim_start trim_end
quote_test = refl

-- An empty cell in quotes is read as a quote.
empty_test : parse_csv (codes "a,\"\",b") ≡ (codes "a" ∷ codes "\"" ∷ codes "b" ∷ []) ∷ []
unfolding parse_csv trim trim_start trim_end
empty_test = refl
