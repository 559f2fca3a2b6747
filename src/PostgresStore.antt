-- ===== src/PostgresStore.antt =====
-- The event store on Postgres: apps/api/src/modules/ledger/postgres-event-store.ts.
-- A transaction is one step here: the advisory locks of the source let the transactions on one stream or
-- one idempotency key run one after another. The tables list their rows in order of insertion, which is
-- that of the global positions.
pub mod Appending
pub mod Chain
pub mod Inserted
pub mod Chained
pub mod Reloaded
pub mod Repeated
mod Tests
use splitsaathi.Common.{
  Bool, List, Option, [], any, filter, find, if◌then◌else◌, ltb, map, none, not, some, ℕ, ◌&&◌,
  ◌||◌, ◌∷◌,
}
use splitsaathi.Common.Int.{leb_ℤ, pos, ℤ}
use splitsaathi.Common.Keys.{Text, codes, text_eq, ◌==◌}
use splitsaathi.Common.Texts.{includes, starts_with}
use splitsaathi.Postings.{LedgerPosting}
use splitsaathi.Events.{DomainEvent, EventType, ReplayOptions}
use splitsaathi.EventStore.{differs, group_differs, not_after}

-- `EventStoreEntity`, less the correlation id, the schema version and the metadata.
pub record EventRow (P : Type 0) : Type 0 where
  pub id : Text
  pub stream_id : Text
  pub aggregate_type : Text
  pub aggregate_id : Text
  pub group_id : Option Text
  pub version : ℕ
  pub event_type : EventType
  pub actor_user_id : Option Text
  pub idempotency_key : Option Text
  pub payload : P
  pub previous_hash : Option Text
  pub event_hash : Text
  pub global_position : ℕ
  pub occurred_at : Text

-- `LedgerPostingEntity`, whose posting is that of the event with the type of the database.
pub record PostingRow : Type 0 where
  pub event_id : Text
  pub group_id : Option Text
  pub posting : LedgerPosting

-- `IdempotencyRecordEntity`.
pub record IdempotencyRow : Type 0 where
  pub scope : Text
  pub actor_key : Text
  pub idempotency_key : Text
  pub request_hash : Text
  pub event_ids : List Text
  pub created_at : Text

pub record Tables (P : Type 0) : Type 0 where
  pub event_rows : List (EventRow P)
  pub posting_rows : List PostingRow
  pub idempotency_rows : List IdempotencyRow
  -- The last position that the sequence has given out.
  pub position : ℕ

abbrev pub no_tables : {P : Type 0} → Tables P
no_tables = record { event_rows = []; posting_rows = []; idempotency_rows = []; position = 0 }

-- What `hashPayload` reads of an event.
pub record EventContent (P : Type 0) : Type 0 where
  pub id : Text
  pub stream_id : Text
  pub type : EventType
  pub aggregate_version : ℕ
  pub previous_hash : Option Text
  pub payload : P
  pub postings : List LedgerPosting

-- `toDbPostingType`.
unfoldable pub to_db_posting_type : Text → ℤ → Text
unfolding starts_with includes
to_db_posting_type posting_type amount =
    let is_expense = starts_with (codes "expense") posting_type in
    let is_settlement = starts_with (codes "settlement") posting_type in
    let reversed = includes (codes "reversal") posting_type in
    let paid = leb_ℤ (pos 1) amount in
    if is_expense && reversed
    then codes "reversal"
    else if is_expense && paid
    then codes "expense_payment"
    else if is_expense
    then codes "expense_share"
    else if is_settlement && (reversed || includes (codes "refund") posting_type)
    then codes "reversal"
    else if is_settlement && paid
    then codes "settlement_paid"
    else if is_settlement
    then codes "settlement_received"
    else if includes (codes "obligation_transfer_debit") posting_type
    then codes "obligation_transfer_debit"
    else if includes (codes "obligation_transfer_credit") posting_type
    then codes "obligation_transfer_credit"
    else codes "reversal"

-- The postings of an event as they are stored and read.
abbrev pub db_posting : LedgerPosting → LedgerPosting
db_posting posting = record posting {
  posting_type = to_db_posting_type posting.posting_type posting.signed_amount_minor;
}

-- `In(ids)`
abbrev pub is_in : List Text → Text → Bool
is_in ids id = any (λ j. j == id) ids

module _ {P : Type 0} where
  -- `toDomainEvent`.
  abbrev pub to_domain_event : EventRow P → List PostingRow → DomainEvent P
  to_domain_event row rows = record {
    event_id = row.id;
    type = row.event_type;
    aggregate_type = row.aggregate_type;
    aggregate_id = row.aggregate_id;
    aggregate_version = row.version;
    global_position = row.global_position;
    group_id = row.group_id;
    actor_id = row.actor_user_id;
    occurred_at = row.occurred_at;
    payload = row.payload;
    postings = map (λ posting_row. posting_row.posting) rows;
  }

  -- The postings of a row: `postings.filter((posting) => posting.eventId === row.id)`.
  abbrev pub with_postings : List PostingRow → EventRow P → DomainEvent P
  with_postings rows row = to_domain_event row (filter (λ posting. posting.event_id == row.id) rows)

  -- `SELECT COALESCE(MAX(event.version), 0)` for an aggregate.
  unfoldable pub max_version : Text → Text → List (EventRow P) → ℕ
  max_version aggregate_type aggregate_id [] = 0
  max_version aggregate_type aggregate_id (row ∷ rows) =
      let rest = max_version aggregate_type aggregate_id rows in
      if row.aggregate_type == aggregate_type && row.aggregate_id == aggregate_id
      then (if ltb rest row.version then row.version else rest)
      else rest

  -- `SELECT COALESCE(MAX(event.globalPosition), 0)`
  unfoldable pub max_position : List (EventRow P) → ℕ
  max_position [] = 0
  max_position (row ∷ rows) =
      let rest = max_position rows in
      if ltb rest row.global_position then row.global_position else rest

  -- `getVersion`, `getVersionInTransaction` and `getLastGlobalPosition`.
  abbrev pub get_version : Text → Text → Tables P → ℕ
  get_version aggregate_type aggregate_id tables =
      max_version aggregate_type aggregate_id tables.event_rows

  abbrev pub get_last_global_position : Tables P → ℕ
  get_last_global_position tables = max_position tables.event_rows

  -- The row of a stream with the greatest version.
  abbrev pub later_row : EventRow P → Option (EventRow P) → EventRow P
  later_row row none = row
  later_row row (some other) = if ltb other.version row.version then row else other

  unfoldable pub latest_row : Text → List (EventRow P) → Option (EventRow P)
  latest_row stream_id [] = none
  latest_row stream_id (row ∷ rows) =
      let rest = latest_row stream_id rows in
      if row.stream_id == stream_id then some (later_row row rest) else rest

  -- `getLatestEventHash`.
  unfoldable pub get_latest_event_hash : Text → Tables P → Option Text
  unfolding latest_row
  get_latest_event_hash stream_id tables = elim (latest_row stream_id tables.event_rows) [
    | none ↦ none
    | some row ↦ some row.event_hash
  ]

  -- The order of postings that were created at the same time is the database's.
  module _ (ordered : List PostingRow → List PostingRow) where
    -- `hydrate`.
    unfoldable pub hydrate : Tables P → List (EventRow P) → List (DomainEvent P)
    hydrate tables rows =
        let ids = map (λ row. row.id) rows in
        let postings =
          ordered (filter (λ posting. is_in ids posting.event_id) tables.posting_rows) in
        map (with_postings postings) rows

    -- `loadEventsByIds`.
    unfoldable pub load_events_by_ids : Tables P → List Text → List (DomainEvent P)
    unfolding hydrate
    load_events_by_ids tables ids =
        hydrate tables (filter (λ row. is_in ids row.id) tables.event_rows)

    -- `loadStream`, for the order of the versions.
    unfoldable pub load_stream :
        (List (EventRow P) → List (EventRow P)) → Text → Text → Tables P → List (DomainEvent P)
    unfolding hydrate
    load_stream by_version aggregate_type aggregate_id tables = hydrate tables (
        by_version (
          filter (λ row. row.aggregate_type == aggregate_type && row.aggregate_id == aggregate_id)
            tables.event_rows))

    -- `replay`.
    unfoldable pub replay : ReplayOptions → Tables P → List (DomainEvent P)
    unfolding hydrate
    replay options tables = hydrate tables (
        filter
          (λ row.
            not (not_after options.after_global_position row.global_position)
            && not (differs options.aggregate_type row.aggregate_type)
            && not (differs options.aggregate_id row.aggregate_id)
            && not (group_differs options.group_id row.group_id))
          tables.event_rows)

  -- `findIdempotencyRecord`.
  abbrev pub find_idempotency_record : Text → Text → Text → Tables P → Option IdempotencyRow
  find_idempotency_record scope actor_key key tables =
      find (λ row. row.scope == scope && row.actor_key == actor_key && row.idempotency_key == key)
        tables.idempotency_rows
