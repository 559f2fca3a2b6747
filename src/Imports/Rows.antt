-- ===== src/Imports/Rows.antt =====
-- The rows of imported tables: apps/api/src/modules/imports-exports/splitwise-import.service.ts, lines
-- 15-27 and 166-285.
use splitsaathi.Common.{
  Bool, List, Option, Result, [], any, err, false, filter, if◌then◌else◌, is_empty, map, nat_beq,
  none, not, ok, or_default, some, throw_if, ℕ, ◌++◌, ◌+◌, ◌>>=◌, ◌>>◌, ◌||◌, ◌∷◌,
}
use splitsaathi.Common.Int.{neg, ℤ}
use splitsaathi.Common.Keys.{Text, codes, text_eq}
use splitsaathi.Common.Dict.{Dict, get, set}
use splitsaathi.Common.Digits.{read_digits, read_onto}
use splitsaathi.Common.Texts.{is_space, trim}
use splitsaathi.Money.{decimal_to_minor, sign_of, signed, take_digits}
use splitsaathi.Imports.{
  ImportError, ImportItemRow, ImportedExpense, ImportedShare, bad_amount, equal, failed,
  missing_in_row, parsed,
}

-- `.replace(/\s+/g, '_')`, after white space or not.
unfoldable pub spaces_to_underscores : Bool → Text → Text
spaces_to_underscores after [] = []
spaces_to_underscores after (c ∷ cs) =
    let rest = spaces_to_underscores (is_space c) cs in
    if is_space c then (if after then rest else 95 ∷ rest) else c ∷ rest

-- `normalizeHeader`. `toLowerCase` is the platform's.
unfoldable pub normalize_header : (Text → Text) → Text → Text
unfolding trim spaces_to_underscores
normalize_header to_lower_case header = spaces_to_underscores false (to_lower_case (trim header))

-- `Object.fromEntries(headers.map(…))`: a header without a cell has the empty text.
unfoldable pub raw_onto : Dict Text Text → List Text → List Text → Dict Text Text
unfolding trim
raw_onto raw [] cells = raw
raw_onto raw (header ∷ headers) [] = raw_onto (set header [] raw) headers []
raw_onto raw (header ∷ headers) (cell ∷ cells) = raw_onto (set header (trim cell) raw) headers cells

abbrev pub raw_row : List Text → List Text → Dict Text Text
raw_row headers cells = raw_onto [] headers cells

-- `readCell`.
unfoldable pub read_cell : Dict Text Text → List Text → Text → Text
read_cell row [] fallback = fallback
read_cell row (name ∷ names) fallback =
    let rest = read_cell row names fallback in
    let cell = or_default [] (get name row) in if is_empty cell then rest else cell

-- `Number.parseInt(text, 10)` on a text without white space at its ends.
unfoldable pub parse_int : Text → Option ℤ
unfolding read_onto neg
parse_int value =
    let (negative, body) = sign_of value in
    let number = take_digits body in
    if is_empty number then none else some (signed negative (read_digits number))

-- `.split(/[;|]/)`, with the part read so far.
unfoldable pub split_names : Text → Text → List Text
split_names part [] = part ∷ []
split_names part (c ∷ cs) =
    let split_here = nat_beq c 59 || nat_beq c 124 in
    let rest = split_names (if split_here then [] else part ++ c ∷ []) cs in
    if split_here then part ∷ rest else rest

-- `.map((name) => name.trim()).filter(Boolean)`
unfoldable pub participant_names : Text → List Text
unfolding split_names trim
participant_names value = filter (λ name. not (is_empty name)) (map trim (split_names [] value))

-- `raw.amount_minor ? Number.parseInt(raw.amount_minor, 10) : decimalToMinor(amountCell)`
unfoldable pub amount_of : Dict Text Text → Text → Result ImportError (Option ℤ)
unfolding parse_int decimal_to_minor
amount_of raw cell =
    let given = or_default [] (get (codes "amount_minor") raw) in
    if not (is_empty given)
    then ok (parse_int given)
    else (elim (decimal_to_minor cell) [ ok n ↦ ok (some n) | err why ↦ err (bad_amount why) ])

-- An id that counts: there, and not empty.
abbrev pub id_of_name : Dict Text Text → Text → Text
id_of_name ids name = or_default [] (get name ids)

abbrev pub equal_share : Text → ImportedShare
equal_share id = record { participant_id = id; share_type = equal; amount_minor = none }

-- The `try` of `rowToItem`, for the row of an index.
unfoldable pub row_to_expense :
    Text → Option Text → Dict Text Text → Dict Text Text → ℕ → Result ImportError ImportedExpense
unfolding read_cell amount_of participant_names
row_to_expense group_id default_currency ids raw index = do
  let description = read_cell raw (codes "description" ∷ codes "details" ∷ codes "expense" ∷ []) []
  let expense_date = read_cell raw (codes "date" ∷ codes "expense_date" ∷ []) []
  let category = read_cell raw (codes "category" ∷ []) (codes "Imported")
  let currency =
      read_cell raw (codes "currency" ∷ codes "currency_code" ∷ [])
        (or_default (codes "INR") default_currency)
  let amount_cell = read_cell raw (codes "amount_minor" ∷ codes "amount" ∷ codes "cost" ∷ []) []
  amount ← amount_of raw amount_cell
  let payer = read_cell raw (codes "payer" ∷ codes "paid_by" ∷ codes "created_by" ∷ []) []
  let names =
      participant_names
        (read_cell raw (codes "participants" ∷ codes "with" ∷ codes "split_between" ∷ []) payer)
  let participant_ids = map (id_of_name ids) names
  throw_if
      (is_empty description
        || is_empty expense_date
        || is_empty (id_of_name ids payer)
        || any (λ id. is_empty id) participant_ids)
      (missing_in_row (index + 2))
  ok (record {
    group_id = group_id;
    description = description;
    category = category;
    expense_date = expense_date;
    currency_code = currency;
    payers = record { participant_id = id_of_name ids payer; amount_minor = amount } ∷ [];
    shares = map equal_share participant_ids;
  })

-- An item for the outcome: parsed, or failed with the error.
abbrev pub item_of :
    Text → Text → Dict Text Text → Result ImportError ImportedExpense → ImportItemRow
item_of item_id job_id raw (ok expense) = record {
  item_id = item_id;
  import_job_id = job_id;
  status = parsed;
  raw = raw;
  expense_command = some expense;
  committed_expense_id = none;
  error = none;
}
item_of item_id job_id raw (err why) = record {
  item_id = item_id;
  import_job_id = job_id;
  status = failed;
  raw = raw;
  expense_command = none;
  committed_expense_id = none;
  error = some why;
}

-- `rowToItem`.
unfoldable pub row_to_item :
    Text → Text → Text → Option Text → Dict Text Text → List Text → List Text → ℕ → ImportItemRow
unfolding row_to_expense raw_onto
row_to_item item_id job_id group_id default_currency ids headers cells index =
    let raw = raw_row headers cells in
    item_of item_id job_id raw (row_to_expense group_id default_currency ids raw index)
