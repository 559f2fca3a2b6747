-- ===== src/Exports.antt =====
-- The files that exports make: apps/api/src/modules/imports-exports/csv-export.service.ts.
pub mod Creating
pub mod Offsets
pub mod Table
mod Tests
use splitsaathi.Common.{
  List, Option, [], if◌then◌else◌, length, map, nat_beq, none, some, ℕ, ◌*◌, ◌++◌, ◌+◌, ◌-◌, ◌||◌,
  ◌∷◌,
}
use splitsaathi.Common.Int.{neg, pos, ◌+ℤ◌}
use splitsaathi.Common.Keys.{Text, codes}
use splitsaathi.Common.Digits.{digits, pad_start}
use splitsaathi.Common.Texts.{join}
use splitsaathi.Balances.{BalanceRow}
use splitsaathi.Expenses.Commands.{ExpenseProjectionRow, ExpenseStatus, active, voided}
use splitsaathi.Csv.{Cell, missing, number, show_int, text, to_csv}
use splitsaathi.Imports.{
  ContentType, ExportType, application_json, application_pdf, balances_csv, data_portability_json,
  expenses_csv, group_pdf, settlement_certificate, tally_csv, text_csv,
}

-- `expense.status`
abbrev pub status_text : ExpenseStatus → Text
status_text active = codes "active"
status_text voided = codes "voided"

-- The rows of `tally_csv` for an expense.
unfoldable pub tally_rows : ExpenseProjectionRow → List (List Cell)
unfolding join
tally_rows row =
    let expense = row.snapshot in
    let payer_ids = join (codes ";") (map (λ payer. payer.participant_id) expense.payers) in
    let share_ids = join (codes ";") (map (λ share. share.participant_id) expense.shares) in
    (text expense.expense_date
      ∷ text (codes "Payment")
      ∷ text (codes "Paid by " ++ payer_ids)
      ∷ number expense.total_amount_minor
      ∷ text []
      ∷ text expense.currency_code
      ∷ text expense.description
      ∷ [])
    ∷ (text expense.expense_date
        ∷ text (codes "Journal")
        ∷ text (codes "Shared by " ++ share_ids)
        ∷ text []
        ∷ number expense.total_amount_minor
        ∷ text expense.currency_code
        ∷ text expense.description
        ∷ [])
    ∷ []

unfoldable pub all_tally_rows : List ExpenseProjectionRow → List (List Cell)
unfolding tally_rows
all_tally_rows [] = []
all_tally_rows (row ∷ rows) = tally_rows row ++ all_tally_rows rows

-- `balanceRows`, with its header.
unfoldable pub balance_rows : List BalanceRow → List (List Cell)
balance_rows balances =
    (text (codes "participant_id")
      ∷ text (codes "currency_code")
      ∷ text (codes "amount_minor")
      ∷ [])
    ∷ map (λ row. text row.participant_id ∷ text row.currency_code ∷ number row.amount_minor ∷ [])
        balances

-- `expense.category`
abbrev pub category_cell : Option Text → Cell
category_cell none = missing
category_cell (some category) = text category

-- `expenseRows`
unfoldable pub expense_rows : List ExpenseProjectionRow → List (List Cell)
expense_rows expenses =
    (text (codes "expense_id")
      ∷ text (codes "date")
      ∷ text (codes "description")
      ∷ text (codes "category")
      ∷ text (codes "currency_code")
      ∷ text (codes "total_amount_minor")
      ∷ text (codes "status")
      ∷ [])
    ∷ map
        (λ row.
          text row.snapshot.expense_id
          ∷ text row.snapshot.expense_date
          ∷ text row.snapshot.description
          ∷ category_cell row.snapshot.category
          ∷ text row.snapshot.currency_code
          ∷ number row.snapshot.total_amount_minor
          ∷ text (status_text row.status)
          ∷ [])
        expenses

-- `buildCsv`, for the expenses and the balances of the group.
unfoldable pub build_csv : ExportType → List ExpenseProjectionRow → List BalanceRow → Text
unfolding to_csv all_tally_rows balance_rows expense_rows
build_csv tally_csv expenses balances = to_csv (
    (text (codes "date")
      ∷ text (codes "voucher_type")
      ∷ text (codes "ledger")
      ∷ text (codes "debit_minor")
      ∷ text (codes "credit_minor")
      ∷ text (codes "currency")
      ∷ text (codes "narration")
      ∷ [])
    ∷ all_tally_rows expenses)
build_csv balances_csv expenses balances = to_csv (balance_rows balances)
build_csv expenses_csv expenses balances = to_csv (expense_rows expenses)
build_csv _ expenses balances = to_csv (expense_rows expenses ++ [] ∷ balance_rows balances)

-- `line.replace(/[()\\]/g, '\\$&')`
unfoldable pub escape_pdf : Text → Text
escape_pdf [] = []
escape_pdf (c ∷ cs) =
    let rest = escape_pdf cs in
    if nat_beq c 40 || nat_beq c 41 || nat_beq c 92 then 92 ∷ c ∷ rest else c ∷ rest

-- `line.slice(0, n)`
unfoldable pub take_text : ℕ → Text → Text
take_text n [] = []
take_text n (c ∷ cs) = let rest = take_text (n - 1) cs in if nat_beq n 0 then [] else c ∷ rest

-- `textOps`, from an index on. The height is `760 - index * 16`, which may be below zero.
unfoldable pub text_ops : ℕ → List Text → List Text
unfolding show_int escape_pdf take_text
text_ops index [] = []
text_ops index (line ∷ lines) =
    (codes "1 0 0 1 48 "
      ++ show_int (pos 760 +ℤ neg (pos (index * 16)))
      ++ codes " Tm ("
      ++ take_text 90 (escape_pdf line)
      ++ codes ") Tj")
    ∷ text_ops (index + 1) lines

-- The line of an object: `String(offset).padStart(10, '0')`, and the rest.
unfoldable pub xref_line : ℕ → Text
unfolding digits pad_start
xref_line offset = pad_start 10 (digits offset) ++ codes " 00000 n "

-- `title`, and the lines of `bodyLines`.
abbrev pub pdf_title : ExportType → Text → Text
pdf_title settlement_certificate group_id = codes "SplitSaathi Settlement Certificate " ++ group_id
pdf_title _ group_id = codes "SplitSaathi Group Statement " ++ group_id

unfoldable pub expense_line : ExpenseProjectionRow → Text
unfolding show_int
expense_line row =
    let expense = row.snapshot in
    expense.expense_date
    ++ 32
      ∷ (expense.currency_code
          ++ 32 ∷ (show_int expense.total_amount_minor ++ 32 ∷ expense.description))

unfoldable pub balance_line : BalanceRow → Text
unfolding show_int
balance_line row = row.participant_id ++ 32 ∷ (row.currency_code ++ 32 ∷ show_int row.amount_minor)

-- `Buffer.byteLength` is the platform's.
module _ (byte_length : Text → ℕ) where
  unfoldable pub pdf_objects : Text → List Text
  unfolding digits
  pdf_objects stream =
      codes "1 0 obj << /Type /Catalog /Pages 2 0 R >> endobj"
      ∷ codes "2 0 obj << /Type /Pages /Kids [3 0 R] /Count 1 >> endobj"
      ∷ codes
          "3 0 obj << /Type /Page /Parent 2 0 R /MediaBox [0 0 595 842] /Resources << /Font << /F1 4 0 R >> >> /Contents 5 0 R >> endobj"
      ∷ codes "4 0 obj << /Type /Font /Subtype /Type1 /BaseFont /Helvetica >> endobj"
      ∷ (codes "5 0 obj << /Length "
          ++ digits (byte_length stream)
          ++ codes " >> stream\n"
          ++ stream
          ++ codes "\nendstream endobj")
      ∷ []

  -- The offsets that `xref` gets, from the first one on.
  unfoldable pub offsets : ℕ → List Text → List ℕ
  offsets offset [] = []
  offsets offset (object ∷ objects) =
      offset ∷ offsets (offset + byte_length (object ++ 10 ∷ [])) objects

  abbrev pub pdf_header : Text
  pdf_header = codes "%PDF-1.4\n"

  -- The file before its table of offsets.
  unfoldable pub pdf_body : List Text → Text
  unfolding join
  pdf_body objects = pdf_header ++ (join (10 ∷ []) objects ++ 10 ∷ [])

  unfoldable pub pdf_stream : List Text → Text
  unfolding text_ops join
  pdf_stream lines = codes "BT\n/F1 10 Tf\n" ++ join (10 ∷ []) (text_ops 0 lines) ++ codes "\nET"

  -- `xref`, and the end of the file.
  unfoldable pub xref_lines : List Text → List Text
  unfolding offsets xref_line
  xref_lines objects =
      codes "0000000000 65535 f " ∷ map xref_line (offsets (length pdf_header) objects)

  unfoldable pub pdf_trailer : List Text → Text
  unfolding xref_lines pdf_body join digits
  pdf_trailer objects =
      codes "xref\n0 "
      ++ digits (length (xref_lines objects))
      ++ 10 ∷ []
      ++ join (10 ∷ []) (xref_lines objects)
      ++ codes "\ntrailer << /Root 1 0 R /Size "
      ++ digits (length (xref_lines objects))
      ++ codes " >>\nstartxref\n"
      ++ digits (byte_length (pdf_body objects))
      ++ codes "\n%%EOF"

  -- The file of some objects.
  unfoldable pub pdf_file : List Text → Text
  unfolding pdf_body pdf_trailer
  pdf_file objects = pdf_body objects ++ pdf_trailer objects

  -- `minimalPdf`.
  unfoldable pub minimal_pdf : List Text → Text
  unfolding pdf_file pdf_objects pdf_stream
  minimal_pdf lines = pdf_file (pdf_objects (pdf_stream lines))

  -- `buildPdf`, less the encoding. `now` is the time.
  unfoldable pub build_pdf :
      ExportType → Text → Text → List ExpenseProjectionRow → List BalanceRow → Text
  unfolding minimal_pdf expense_line balance_line
  build_pdf type group_id now expenses balances = minimal_pdf (
      pdf_title type group_id
      ∷ (codes "Generated: " ++ now)
      ∷ []
      ∷ codes "Expenses"
      ∷ (map expense_line expenses ++ [] ∷ codes "Balances" ∷ map balance_line balances))

  -- `renderExport`. The encoding of bytes and the text of a JSON value are the platform's.
  unfoldable pub render_export :
      (Text → Text)
      → (List ExpenseProjectionRow → List BalanceRow → Text)
      → ExportType
      → Text
      → Text
      → List ExpenseProjectionRow
      → List BalanceRow
      → ContentType × Text
  unfolding build_pdf build_csv
  render_export base64 to_json group_pdf group_id now expenses balances =
      (application_pdf, base64 (build_pdf group_pdf group_id now expenses balances))
  render_export base64 to_json settlement_certificate group_id now expenses balances =
      (application_pdf, base64 (build_pdf settlement_certificate group_id now expenses balances))
  render_export base64 to_json data_portability_json group_id now expenses balances =
      (application_json, to_json expenses balances)
  render_export base64 to_json type group_id now expenses balances =
      (text_csv, build_csv type expenses balances)
