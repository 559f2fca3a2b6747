-- ===== src/Csv.antt =====
-- Tables as text with commas (apps/api/src/modules/imports-exports/csv.ts).
use splitsaathi.Common.Digits.{digits}
use splitsaathi.Common.Texts.{join, trim}
use splitsaathi.Common.Keys.{Text}
use splitsaathi.Common.Int.{negsuc, pos, ℤ}
use splitsaathi.Common.{
  Bool, List, [], any, false, if◌then◌else◌, is_empty, map, nat_beq, not, true, ℕ, ◌&&◌, ◌++◌, ◌+◌,
  ◌||◌, ◌∷◌,
}
pub mod Quoting
pub mod Rows
pub mod Tests

-- A cell that is to be written: `string | number | undefined`.
pub data Cell : Type 0 where
  text : Text → Cell
  number : ℤ → Cell
  missing : Cell

-- `String(n)`
unfoldable pub show_int : ℤ → Text
unfolding digits
show_int (pos n) = digits n
show_int (negsuc n) = 45 ∷ digits (n + 1)

-- `cell === undefined ? '' : String(cell)`
unfoldable pub cell_text : Cell → Text
unfolding show_int
cell_text (text t) = t
cell_text (number n) = show_int n
cell_text missing = []

-- `/[",\r\n]/`
abbrev pub is_special : ℕ → Bool
is_special c = nat_beq c 34 || nat_beq c 44 || nat_beq c 13 || nat_beq c 10

-- `value.replaceAll('"', '""')`
unfoldable pub double_quotes : Text → Text
double_quotes [] = []
double_quotes (c ∷ cs) =
    let rest = double_quotes cs in if nat_beq c 34 then 34 ∷ 34 ∷ rest else c ∷ rest

unfoldable pub encode : Text → Text
unfolding double_quotes
encode value = if any is_special value then 34 ∷ (double_quotes value ++ 34 ∷ []) else value

-- One line of the file.
unfoldable pub line_of : List Text → Text
unfolding encode join
line_of row = join (44 ∷ []) (map encode row)

unfoldable pub to_csv : List (List Cell) → Text
unfolding line_of cell_text
to_csv rows = join (10 ∷ []) (map (λ row. line_of (map cell_text row)) rows)

-- The variables of the loop of `parseCsv`.
pub record Scan : Type 0 where
  pub rows : List (List Text)
  pub row : List Text
  pub current : Text
  pub in_quotes : Bool

-- `row.some((cell) => cell.trim() !== '')`
unfoldable pub has_content : List Text → Bool
unfolding trim
has_content = any (λ cell. not (is_empty (trim cell)))

-- `row.push(current)`, and the row is kept if it has content.
unfoldable pub push_row : List (List Text) → List Text → List (List Text)
unfolding has_content
push_row rows row = if has_content row then rows ++ row ∷ [] else rows

unfoldable pub end_row : Scan → Scan
unfolding push_row
end_row s = record {
  rows = push_row s.rows (s.row ++ s.current ∷ []);
  row = [];
  current = [];
  in_quotes = s.in_quotes;
}

abbrev pub next_is : ℕ → Text → Bool
next_is c [] = false
next_is c (d ∷ ds) = nat_beq d c

-- One round of the loop on a character and the text behind it: the variables, and whether the next
-- character is skipped.
unfoldable pub scan_char : Scan → ℕ → Text → Scan × Bool
unfolding end_row
scan_char s c rest =
    if nat_beq c 34 && next_is 34 rest
    then (record s { current = s.current ++ 34 ∷ [] }, true)
    else if nat_beq c 34
    then (record s { in_quotes = not s.in_quotes }, false)
    else if nat_beq c 44 && not s.in_quotes
    then (record s { row = s.row ++ s.current ∷ []; current = [] }, false)
    else if (nat_beq c 10 || nat_beq c 13) && not s.in_quotes
    then (end_row s, nat_beq c 13 && next_is 10 rest)
    else (record s { current = s.current ++ c ∷ [] }, false)

unfoldable pub scan : Scan × Bool → Text → Scan
unfolding scan_char
scan (s, skip) [] = s
scan (s, true) (c ∷ cs) = scan (s, false) cs
scan (s, false) (c ∷ cs) = scan (scan_char s c cs) cs

abbrev pub scan_start : Scan
scan_start = record { rows = []; row = []; current = []; in_quotes = false }

unfoldable pub parse_csv : Text → List (List Text)
unfolding scan end_row
parse_csv csv = (end_row (scan (scan_start, false) csv)).rows
