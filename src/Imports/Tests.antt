-- ===== src/Imports/Tests.antt =====
-- Tests of the imports (apps/api/src/modules/imports-exports).
use Prim.Native.String.{String}
use splitsaathi.Common.{
  [], err, if◌then◌else◌, map, nat_beq, none, ok, refl, some, ℕ, ◌+◌, ◌∷◌, ◌≡◌,
}
use splitsaathi.Common.Int.{negsuc, pos}
use splitsaathi.Common.Keys.{Text, codes}
use splitsaathi.Common.Dict.{Dict}
use splitsaathi.Imports.{
  CommitImportCommand, ImportItemRow, ImportJobRow, ImportStatus, committed, failed, parsed,
}
use splitsaathi.Imports.Rows.{parse_int, participant_names}
use splitsaathi.Imports.Bank.{bank_expense, bank_row_to_expense}
use splitsaathi.Imports.Projection.{ImportsExports}
use splitsaathi.Imports.Committing.{ImportExpenses, parsed_items}
use splitsaathi.Imports.InPlace.{in_place}
use splitsaathi.Imports.Settled.{committed_job}
use splitsaathi.Imports.Reading.{IsPaidBy, bank_row-IsPaidBy}

-- A row of a bank: the debit is read as a positive amount.
abbrev bank_raw : Dict Text Text
bank_raw =
    (codes "date", codes "d")
    ∷ (codes "narration", codes "Tea")
    ∷ (codes "debit", codes "-12.5")
    ∷ []

bank_row-IsPaidBy_example :
    IsPaidBy
      (codes "a")
      (some (codes "b"))
      (bank_expense (codes "g") none (codes "a") (some (codes "b")) bank_raw (some (pos 1250)))
unfolding bank_row_to_expense
bank_row-IsPaidBy_example =
    bank_row-IsPaidBy (λ t. t) (codes "g") none (codes "a") (some (codes "b")) bank_raw 0 _ refl

-- A credit is no expense.
abbrev credit_raw : Dict Text Text
credit_raw = (codes "date", codes "d") ∷ (codes "narration", codes "Tea") ∷ []

credit_test :
    bank_row_to_expense
      (λ t. t)
      (codes "g")
      none
      (codes "a")
      none
      ((codes "type", codes "credit") ∷ (codes "amount", codes "3") ∷ bank_raw)
      4
    ≡ bank_row_to_expense
        (λ t. t)
        (codes "g")
        none
        (codes "a")
        none
        ((codes "type", codes "x") ∷ (codes "amount", codes "3") ∷ bank_raw)
        4
unfolding bank_row_to_expense
credit_test = refl

parse_int_test : parse_int (codes "-042x") ≡ some (negsuc 41)
unfolding parse_int
parse_int_test = refl

names_test : participant_names (codes " Al; |Bo ") ≡ codes "Al" ∷ codes "Bo" ∷ []
unfolding participant_names
names_test = refl

-- A job with one item that failed and two that are parsed. The expenses refuse the second one.
abbrev an_item : String → ImportStatus → ImportItemRow
an_item id status = record {
  item_id = codes id;
  import_job_id = codes "j";
  status = status;
  raw = [];
  expense_command = some (bank_expense (codes "g") none (codes "a") none bank_raw (some (pos 5)));
  committed_expense_id = none;
  error = none;
}

abbrev a_job : ImportJobRow
a_job = record {
  import_job_id = codes "j";
  group_id = codes "g";
  status = parsed;
  created_by = codes "a";
  created_at = codes "t";
  updated_at = codes "t";
  items = an_item "x" failed ∷ an_item "y" parsed ∷ an_item "z" parsed ∷ [];
}

abbrev first_only : ImportExpenses
first_only = record {
  State = ℕ;
  create_expense =
      λ expense actor_id key n. (if nat_beq n 0 then ok (codes "e") else err (codes "full"), n + 1);
}

abbrev a_commit : CommitImportCommand
a_commit = record { idempotency_key = codes "k"; actor_id = codes "a"; import_job_id = codes "j" }

abbrev with_job : ImportsExports
with_job = record { import_jobs = (codes "j", a_job) ∷ []; export_jobs = [] }

-- The statuses that the items then have.
statuses_test :
    map
      (λ item. item.status)
      (committed_job first_only a_commit (codes "g") (codes "n") 0 a_job).items
    ≡ failed ∷ committed ∷ failed ∷ []
unfolding parsed_items in_place
statuses_test = refl
