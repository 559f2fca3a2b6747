-- ===== src/Activity/Tests.antt =====
-- Tests of the feed (apps/api/src/modules/ledger/activity.projector.ts).
use splitsaathi.Common.{List, [], arith, none, refl, some, ℕ, ◌∷◌, ◌≡◌}
use splitsaathi.Common.Keys.{codes, text_beq}
use splitsaathi.Common.Sort.{sort}
use splitsaathi.Events.{EventType, expense_created, expense_voided, settlement_confirmed}
use splitsaathi.Activity.{ActivityFeedRow, group_rows, paginate_rows}
use splitsaathi.Activity.Paging.{read_pages, read_pages_complete}

abbrev a_row : ℕ → EventType → ActivityFeedRow ℕ
a_row position type = record {
  event_id = position ∷ [];
  group_id = some (codes "g");
  type = type;
  actor_id = none;
  occurred_at = codes "t";
  copy = 0;
  search_text = codes "tea";
  global_position = position;
}

abbrev three_rows : List (ActivityFeedRow ℕ)
three_rows = a_row 9 expense_created ∷ a_row 5 expense_voided ∷ a_row 2 expense_created ∷ []

-- Pages of one row each.
read_pages_complete_example : read_pages 4 (some 0) none three_rows ≡ three_rows
read_pages_complete_example =
    read_pages_complete 3 (some 0) none three_rows (ground arith) (omega arith)

page_test :
    paginate_rows three_rows (some 1) (some 9)
    ≡ record { items = a_row 5 expense_voided ∷ []; next_cursor = some 5 }
unfolding paginate_rows
page_test = refl

latest_test :
    group_rows
      (codes "g")
      none
      (a_row 2 expense_created ∷ a_row 5 settlement_confirmed ∷ a_row 9 expense_voided ∷ [])
    ≡ a_row 9 expense_voided ∷ a_row 2 expense_created ∷ []
unfolding group_rows text_beq sort
latest_test = refl
