-- ===== src/Exports/Table.antt =====
-- The table of offsets that a PDF file ends with
-- (apps/api/src/modules/imports-exports/csv-export.service.ts, lines 181-193).
use splitsaathi.Common.{List, [], length, ℕ, ◌++◌, ◌+◌, ◌-◌, ◌∷◌, ◌≡◌}
use splitsaathi.Common.Keys.{Text, codes}
use splitsaathi.Common.Digits.{digits, read_digits}
use splitsaathi.Common.Texts.{join}
use splitsaathi.Money.{take_digits}

-- The number at the front of a line.
abbrev pub number_of : Text → ℕ
number_of line = read_digits (take_digits line)

-- The line has nine characters behind a number of ten digits, or of more when it is longer.
abbrev pub HasWidth : ℕ → Text → Type 0
HasWidth offset line = length line ≡ (10 - length (digits offset)) + length (digits offset) + 9

module _ (byte_length : Text → ℕ) where
  -- Each line has the number of the bytes that stand before its object in the file, and its width.
  abbrev pub AreListed : Text → List Text → List Text → Type 0
  AreListed file [] [] = Unit
  AreListed file [] (object ∷ objects) = ⊥
  AreListed file (line ∷ lines) [] = ⊥
  AreListed file (line ∷ lines) (object ∷ objects) =
      ((before : Text) × (after : Text) × (before ++ (object ++ after) ≡ file)
        × (number_of line ≡ byte_length before)
        × HasWidth (byte_length before) line)
      × AreListed file lines objects

  -- The end of a file, with a number of lines, the lines, and the number of the bytes before it.
  abbrev pub table_text : ℕ → ℕ → List Text → Text
  table_text count start lines =
      codes "xref\n0 "
      ++ digits count
      ++ 10 ∷ []
      ++ join (10 ∷ []) (codes "0000000000 65535 f " ∷ lines)
      ++ codes "\ntrailer << /Root 1 0 R /Size "
      ++ digits count
      ++ codes " >>\nstartxref\n"
      ++ digits start
      ++ codes "\n%%EOF"

  -- The file has a table of its objects at its end, and says where this starts.
  abbrev pub HasTable : Text → List Text → Type 0
  HasTable file objects =
      (front : Text) × (lines : List Text) × (front
          ++ table_text (length lines + 1) (byte_length front) lines
        ≡ file)
      × AreListed file lines objects
