-- ===== src/Csv/Rows.antt =====
-- Rows as `toCsv` writes them and `parseCsv` reads them (apps/api/src/modules/imports-exports/csv.ts).
use splitsaathi.Common.{
  All, Bool, Bool-cases, List, [], ap, append-nil, append_assoc, arith, false, filter, inl, inr,
  map, refl, subst, sym, ℕ, ◌++◌, ◌∙◌, ◌∷◌, ◌≡◌,
}
use splitsaathi.Common.Keys.{Text}
use splitsaathi.Common.Texts.{join, trim, trim_end, trim_start}
use splitsaathi.Csv.{
  Cell, Scan, cell_text, double_quotes, encode, end_row, has_content, line_of, missing, next_is,
  number, parse_csv, push_row, scan, scan_char, scan_start, text, to_csv,
}
use splitsaathi.Csv.Quoting.{IsReadable, grown, scan-encode}
use splitsaathi.Common.Int.{negsuc, pos}
use splitsaathi.Common.Digits.{IsDigit, digits, digits-IsDigit}

-- Behind a row stands the end of the text or of the line.
data EndsRow : Text → Type 0 where
  at_end : EndsRow []
  at_line : (rest : Text) → EndsRow (10 ∷ rest)

EndsRow-closed : {rest : Text} → EndsRow rest → next_is 34 rest ≡ false
EndsRow-closed at_end = refl
EndsRow-closed (at_line rest) = refl

-- The variables at the end of a row: its last cell is still in `current`.
record Collected (rows : List (List Text)) (cells : List Text) (s : Scan) : Type 0 where
  same_rows : s.rows ≡ rows
  cells_read : s.row ++ s.current ∷ [] ≡ cells
  outside : s.in_quotes ≡ false

abbrev between : List (List Text) → List Text → Scan
between rows row = record { rows = rows; row = row; current = []; in_quotes = false }

scan-comma :
    (rows : List (List Text)) (before : List Text) (cell later : Text)
    → scan (grown (between rows before) cell, false) (44 ∷ later)
      ≡ scan (between rows (before ++ cell ∷ []), false) later
unfolding scan scan_char
scan-comma rows before cell later = refl

-- A row, up to what ends it.
scan-line :
    (rows : List (List Text)) (before : List Text) (cell : Text) (cells : List Text) {rest : Text}
    → All IsReadable (cell ∷ cells)
    → EndsRow rest
    → (s : Scan) × Collected rows (before ++ cell ∷ cells) s
      × (scan (between rows before, false) (line_of (cell ∷ cells) ++ rest) ≡ scan (s, false) rest)
unfolding line_of join
scan-line rows before cell [] {rest} (readable, more) ends = (
  grown (between rows before) cell,
  record { same_rows = refl; cells_read = refl; outside = refl },
  scan-encode cell (between rows before) rest readable refl (EndsRow-closed ends),
)
scan-line rows before cell (next ∷ cells) {rest} (readable, more) ends =
    let (s, collected, read) = scan-line rows (before ++ cell ∷ []) next cells more ends in
    let later = join (44 ∷ []) (map encode (next ∷ cells)) ++ rest in
    (
      s,
      subst (λ t. Collected rows t s) (append_assoc before (cell ∷ []) (next ∷ cells)) collected,
      ap (λ t. scan (between rows before, false) t)
            (append_assoc (encode cell ++ 44 ∷ []) (join (44 ∷ []) (map encode (next ∷ cells))) rest
              ∙ append_assoc (encode cell) (44 ∷ []) later)
          ∙ scan-encode cell (between rows before) (44 ∷ later) readable refl refl
          ∙ scan-comma rows before cell later
          ∙ read,
    )

has_nothing : has_content ([] ∷ []) ≡ false
unfolding has_content trim trim_start trim_end
has_nothing = refl

-- The rows that `parseCsv` keeps.
abbrev pub with_content : List (List Text) → List (List Text)
with_content rows = filter has_content rows

-- An empty row is written as one empty cell.
one_cell : List Text → List Text
one_cell [] = [] ∷ []
one_cell (cell ∷ cells) = cell ∷ cells

line_of-one_cell : (row : List Text) → line_of (one_cell row) ≡ line_of row
unfolding line_of one_cell encode double_quotes join
line_of-one_cell [] = refl
line_of-one_cell (cell ∷ cells) = refl

push_row-one_cell :
    (kept : List (List Text)) (row : List Text)
    → push_row kept (one_cell row) ≡ kept ++ with_content (row ∷ [])
unfolding push_row one_cell has_content
push_row-one_cell kept [] = sym (append-nil kept)
push_row-one_cell kept (cell ∷ cells) = ground (arith, append-nil kept)

-- The row is kept, and the variables start again.
end_row-Collected :
    {kept : List (List Text)} {cells : List Text} (s : Scan)
    → Collected kept cells s
    → end_row s ≡ between (push_row kept cells) []
unfolding end_row
end_row-Collected s c = rw (sym c.same_rows) rw (sym c.cells_read) (ground (arith, c.outside))

scan-row :
    (kept : List (List Text)) (row : List Text) {rest : Text}
    → All IsReadable row
    → EndsRow rest
    → (s : Scan) × Collected kept (one_cell row) s
      × (scan (between kept [], false) (line_of row ++ rest) ≡ scan (s, false) rest)
unfolding one_cell
scan-row kept [] {rest} readable ends =
    let (s, collected, read) = scan-line kept [] [] [] (inl refl, tt) ends in
    (
      s,
      collected,
      ap (λ t. scan (between kept [], false) (t ++ rest)) (sym (line_of-one_cell [])) ∙ read,
    )
scan-row kept (cell ∷ cells) readable ends = scan-line kept [] cell cells readable ends

scan-newline :
    (s : Scan) (rest : Text)
    → s.in_quotes ≡ false
    → scan (s, false) (10 ∷ rest) ≡ scan (end_row s, false) rest
unfolding scan scan_char
scan-newline s rest outside = rw outside

abbrev pub end_scan : Scan × Bool → Text → List (List Text)
end_scan s rest = (end_row (scan s rest)).rows

scan-nil : (s : Scan) → scan (s, false) [] ≡ s
unfolding scan
scan-nil s = refl

with_content-cons :
    (kept : List (List Text)) (row : List Text) (rows : List (List Text))
    → (kept ++ with_content (row ∷ [])) ++ with_content rows ≡ kept ++ with_content (row ∷ rows)
with_content-cons kept row rows = elim (Bool-cases (has_content row)) [
  | inl full ↦ rw full (append_assoc kept (row ∷ []) (with_content rows))
  | inr empty ↦ rw empty (append_assoc kept [] (with_content rows))
]

pub scan_lines :
    (kept : List (List Text)) (row : List Text) (rows : List (List Text))
    → All (All IsReadable) (row ∷ rows)
    → end_scan (between kept [], false) (join (10 ∷ []) (map line_of (row ∷ rows)))
      ≡ kept ++ with_content (row ∷ rows)
unfolding join
scan_lines kept row [] (readable, more) =
    let (s, collected, read) = scan-row kept row readable at_end in
    ap (end_scan (between kept [], false)) (sym (append-nil (line_of row)))
    ∙ ap (λ t. (end_row t).rows) (read ∙ scan-nil s)
    ∙ ap (λ t. t.rows) (end_row-Collected s collected)
    ∙ push_row-one_cell kept row
scan_lines kept row (next ∷ rows) (readable, more) =
    let later = join (10 ∷ []) (map line_of (next ∷ rows)) in
    let (s, collected, read) = scan-row kept row readable (at_line later) in
    let now = push_row kept (one_cell row) in
    ap (end_scan (between kept [], false)) (append_assoc (line_of row) (10 ∷ []) later)
    ∙ ap (λ t. (end_row t).rows) (read ∙ scan-newline s later collected.outside)
    ∙ ap (λ t. end_scan (t, false) later) (end_row-Collected s collected)
    ∙ scan_lines now next rows more
    ∙ ap (λ k. k ++ with_content (next ∷ rows)) (push_row-one_cell kept row)
    ∙ with_content-cons kept row (next ∷ rows)

-- Whether `parseCsv` reads back what `toCsv` makes of a cell.
abbrev pub IsReadableCell : Cell → Type 0
IsReadableCell (text t) = IsReadable t
IsReadableCell (number n) = Unit
IsReadableCell missing = Unit

IsReadable-digit : (c : ℕ) (rest : Text) → IsDigit c → IsReadable (c ∷ rest)
IsReadable-digit c rest digit = inr (ground arith)

IsReadable-digits : (value : Text) → All IsDigit value → IsReadable value
IsReadable-digits [] digits = inl refl
IsReadable-digits (c ∷ cs) (digit, more) = IsReadable-digit c cs digit

cell_text-IsReadable : (cell : Cell) → IsReadableCell cell → IsReadable (cell_text cell)
unfolding cell_text
cell_text-IsReadable (text t) readable = readable
cell_text-IsReadable (number (pos n)) readable = IsReadable-digits (digits n) (digits-IsDigit n)
cell_text-IsReadable (number (negsuc n)) readable = inr refl
cell_text-IsReadable missing readable = inl refl

cells-IsReadable :
    (cells : List Cell) → All IsReadableCell cells → All IsReadable (map cell_text cells)
cells-IsReadable [] readable = tt
cells-IsReadable (cell ∷ cells) (readable, more) =
    (cell_text-IsReadable cell readable, cells-IsReadable cells more)

rows-IsReadable :
    (rows : List (List Cell))
    → All (All IsReadableCell) rows
    → All (All IsReadable) (map (map cell_text) rows)
rows-IsReadable [] readable = tt
rows-IsReadable (row ∷ rows) (readable, more) =
    (cells-IsReadable row readable, rows-IsReadable rows more)

lines_of_texts :
    (rows : List (List Cell))
    → map (λ row. line_of (map cell_text row)) rows ≡ map line_of (map (map cell_text) rows)
lines_of_texts [] = refl
lines_of_texts (row ∷ rows) = ap (λ t. line_of (map cell_text row) ∷ t) (lines_of_texts rows)

-- What is exported can be imported: reading a table that was written gives the texts of its cells,
-- without the rows whose cells are all blank, if no text is made of quotes alone.
pub parse_csv-to_csv :
    (rows : List (List Cell))
    → All (All IsReadableCell) rows
    → parse_csv (to_csv rows) ≡ filter has_content (map (map cell_text) rows)
unfolding parse_csv to_csv join scan push_row has_content trim trim_start trim_end
parse_csv-to_csv [] readable = refl
parse_csv-to_csv (row ∷ rows) readable =
    ap (λ t. end_scan (scan_start, false) (join (10 ∷ []) (line_of (map cell_text row) ∷ t)))
      (lines_of_texts rows)
    ∙ scan_lines [] (map cell_text row) (map (map cell_text) rows)
        (rows-IsReadable (row ∷ rows) readable)
