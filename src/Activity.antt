-- ===== src/Activity.antt =====
-- The feed of activities: apps/api/src/modules/ledger/activity.projector.ts.
pub mod Paging
mod Tests
use splitsaathi.Common.{
  Bool, List, Option, [], false, filter, if◌then◌else◌, is_empty, leb, length, ltb, none,
  or_default, some, suc, true, zero, ℕ, ◌||◌, ◌∷◌,
}
use splitsaathi.Common.Keys.{Text, text_beq, text_eq, ◌==◌}
use splitsaathi.Common.Texts.{includes, trim}
use splitsaathi.Common.Sort.{sort}
use splitsaathi.Events.{
  EventType, cash_settlement_recorded, duplicate_payment_reference_detected, expense_adjusted,
  expense_created, expense_voided, partial_payment_detected, payment_auto_matched,
  payment_proof_submitted, receiver_confirmation_requested, settlement_cancelled,
  settlement_confirmed, settlement_disputed, settlement_expired, settlement_intent_created,
  settlement_ledger_posted, settlement_refunded, settlement_rejected, settlement_reversed,
  upi_app_opened, upi_intent_generated,
}

-- `ActivityFeedRow`. The texts and amounts that are shown are `Copy`.
pub record ActivityFeedRow (Copy : Type 0) : Type 0 where
  pub event_id : Text
  pub group_id : Option Text
  pub type : EventType
  pub actor_id : Option Text
  pub occurred_at : Text
  pub copy : Copy
  pub search_text : Text
  pub global_position : ℕ

-- `ActivityFeedPage` and `ActivityFeedQuery`.
pub record ActivityFeedPage (Copy : Type 0) : Type 0 where
  pub items : List (ActivityFeedRow Copy)
  pub next_cursor : Option ℕ

pub data Feed : Type 0 where
  ledger_feed settlement_feed all_feed : Feed

pub record ActivityFeedQuery : Type 0 where
  pub limit : Option ℕ
  pub cursor : Option ℕ
  pub feed : Option Feed

-- `LEDGER_ACTIVITY_TYPES` and `SETTLEMENT_PIPELINE_ACTIVITY_TYPES`.
abbrev pub is_ledger_activity : EventType → Bool
is_ledger_activity expense_created = true
is_ledger_activity expense_adjusted = true
is_ledger_activity expense_voided = true
is_ledger_activity settlement_ledger_posted = true
is_ledger_activity settlement_reversed = true
is_ledger_activity settlement_refunded = true
is_ledger_activity _ = false

abbrev pub is_pipeline_activity : EventType → Bool
is_pipeline_activity settlement_intent_created = true
is_pipeline_activity upi_intent_generated = true
is_pipeline_activity upi_app_opened = true
is_pipeline_activity payment_proof_submitted = true
is_pipeline_activity payment_auto_matched = true
is_pipeline_activity receiver_confirmation_requested = true
is_pipeline_activity cash_settlement_recorded = true
is_pipeline_activity settlement_confirmed = true
is_pipeline_activity settlement_rejected = true
is_pipeline_activity settlement_disputed = true
is_pipeline_activity settlement_expired = true
is_pipeline_activity settlement_cancelled = true
is_pipeline_activity duplicate_payment_reference_detected = true
is_pipeline_activity partial_payment_detected = true
is_pipeline_activity _ = false

-- `matchesFeed`.
abbrev pub matches_feed : EventType → Feed → Bool
matches_feed type all_feed = true
matches_feed type settlement_feed = is_pipeline_activity type || is_ledger_activity type
matches_feed type ledger_feed = is_ledger_activity type

-- `rows.slice(0, n)`
unfoldable pub first_rows {ℓ} : {A : Type ℓ} → ℕ → List A → List A
first_rows zero rows = []
first_rows (suc n) [] = []
first_rows (suc n) (row ∷ rows) = row ∷ first_rows n rows

-- `Math.min(Math.max(query.limit ?? 50, 1), 100)`
unfoldable pub page_limit : Option ℕ → ℕ
page_limit limit =
    let wanted = or_default 50 limit in
    let at_least = if ltb wanted 1 then 1 else wanted in if ltb 100 at_least then 100 else at_least

abbrev pub of_group : Text → Option Text → Bool
of_group group none = false
of_group group (some id) = id == group

module _ {Copy : Type 0} where
  abbrev pub is_before : ℕ → ActivityFeedRow Copy → Bool
  is_before cursor row = ltb row.global_position cursor

  -- `filtered`
  abbrev pub rows_after : Option ℕ → List (ActivityFeedRow Copy) → List (ActivityFeedRow Copy)
  rows_after none rows = rows
  rows_after (some cursor) rows = filter (is_before cursor) rows

  -- `items[items.length - 1]?.globalPosition ?? null`
  unfoldable pub last_cursor : List (ActivityFeedRow Copy) → Option ℕ
  last_cursor [] = none
  last_cursor (row ∷ []) = some row.global_position
  last_cursor (row ∷ next ∷ rows) = last_cursor (next ∷ rows)

  -- `paginateRows`.
  unfoldable pub paginate_rows :
      List (ActivityFeedRow Copy) → Option ℕ → Option ℕ → ActivityFeedPage Copy
  unfolding first_rows page_limit last_cursor
  paginate_rows rows limit cursor =
      let filtered = rows_after cursor rows in
      let items = first_rows (page_limit limit) filtered in
      record {
        items = items;
        next_cursor = if ltb (page_limit limit) (length filtered) then last_cursor items else none;
      }

  -- The rows of a group for a feed, the latest first.
  unfoldable pub group_rows :
      Text → Option Feed → List (ActivityFeedRow Copy) → List (ActivityFeedRow Copy)
  unfolding text_beq
  group_rows group feed rows =
      sort (λ left right. leb right.global_position left.global_position)
        (filter (λ row. matches_feed row.type (or_default ledger_feed feed))
          (filter (λ row. of_group group row.group_id) rows))

  -- `listGroupActivity`.
  unfoldable pub list_group_activity :
      Text → ActivityFeedQuery → List (ActivityFeedRow Copy) → ActivityFeedPage Copy
  unfolding group_rows paginate_rows
  list_group_activity group query rows =
      paginate_rows (group_rows group query.feed rows) query.limit query.cursor

  -- `search`.
  unfoldable pub search_activity :
      (Text → Text)
      → Text
      → Text
      → ActivityFeedQuery
      → List (ActivityFeedRow Copy)
      → ActivityFeedPage Copy
  unfolding group_rows paginate_rows trim includes
  search_activity to_lower_case group query_text query rows =
      let normalized = to_lower_case (trim query_text) in
      paginate_rows
        (filter (λ row. is_empty normalized || includes normalized row.search_text)
          (group_rows group query.feed rows))
        query.limit query.cursor
