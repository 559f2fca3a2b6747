-- ===== src/OfflineSync.antt =====
-- Batches of offline commands:
-- apps/api/src/modules/offline-sync/offline-command-sync.service.ts.
pub mod Answers
use splitsaathi.Common.{
  Bool, List, Option, Result, [], err, false, if◌then◌else◌, map, none, ok, or_default, some, true,
  ℕ, ◌∷◌,
}
use splitsaathi.Common.Keys.{Text}
use splitsaathi.Events.{DomainEvent, ReplayOptions}
use splitsaathi.EventStore.{
  Store, StoreError, any_event, get_last_global_position, idempotency_conflict,
  optimistic_concurrency, replay,
}

-- `OfflineCommand`.
pub record OfflineCommand (C : Type 0) : Type 0 where
  pub client_mutation_id : Text
  pub idempotency_key : Text
  pub command_type : Text
  pub payload : C

-- `OfflineCommandResult['status']`.
pub data ResultStatus : Type 0 where
  accepted conflict refused : ResultStatus

-- `OfflineCommandResult`.
pub record OfflineCommandResult : Type 0 where
  pub client_mutation_id : Text
  pub command_type : Text
  pub status : ResultStatus
  pub event_ids : List Text
  pub global_positions : List ℕ
  pub error : Option Text

-- `OfflineCommandBatchResponse`.
pub record BatchResponse (P : Type 0) : Type 0 where
  pub results : List OfflineCommandResult
  pub events : List (DomainEvent P)
  pub next_cursor : ℕ

-- What a routed command throws: an error of the store, or another one with its message.
pub data RouteError : Type 0 where
  from_store : StoreError → RouteError
  other_error : Text → RouteError

-- `error instanceof OptimisticConcurrencyError || error instanceof IdempotencyConflictError`
abbrev pub is_conflict : RouteError → Bool
is_conflict (from_store (idempotency_conflict key)) = true
is_conflict (from_store (optimistic_concurrency type id expected actual)) = true
is_conflict _ = false

-- The services behind `route` are an interface: what the command of each type returns or throws, and
-- the state of the services after it. `message` is the text of an error.
pub record Services (C P : Type 0) : Type 1 where
  pub State : Type 0
  pub store : State → Store P
  pub route : OfflineCommand C → State → Result RouteError (List (DomainEvent P)) × State
  pub message : RouteError → Text

module _ {C P : Type 0} (services : Services C P) where
  -- What `executeOne` makes of the outcome.
  unfoldable pub result_of :
      OfflineCommand C → Result RouteError (List (DomainEvent P)) → OfflineCommandResult
  result_of command (ok events) = record {
    client_mutation_id = command.client_mutation_id;
    command_type = command.command_type;
    status = accepted;
    event_ids = map (λ event. event.event_id) events;
    global_positions = map (λ event. event.global_position) events;
    error = none;
  }
  result_of command (err why) = record {
    client_mutation_id = command.client_mutation_id;
    command_type = command.command_type;
    status = if is_conflict why then conflict else refused;
    event_ids = [];
    global_positions = [];
    error = some (services.message why);
  }

  -- `executeOne`.
  unfoldable pub execute_one :
      OfflineCommand C → services.State → OfflineCommandResult × services.State
  unfolding result_of
  execute_one command state =
      let (outcome, next) = services.route command state in (result_of command outcome, next)

  -- The loop of `executeBatch`.
  unfoldable pub execute_all :
      List (OfflineCommand C) → services.State → List OfflineCommandResult × services.State
  unfolding execute_one
  execute_all [] state = ([], state)
  execute_all (command ∷ commands) state =
      let (result, next) = execute_one command state in
      let (results, last) = execute_all commands next in (result ∷ results, last)

  abbrev after_cursor : ℕ → ReplayOptions
  after_cursor cursor = record any_event { after_global_position = some cursor }

  -- `executeBatch`.
  unfoldable pub execute_batch :
      List (OfflineCommand C) → Option ℕ → services.State → BatchResponse P × services.State
  unfolding execute_all replay get_last_global_position
  execute_batch commands cursor state =
      let (results, next) = execute_all commands state in
      (
        record {
          results = results;
          events = replay (after_cursor (or_default 0 cursor)) (services.store next);
          next_cursor = get_last_global_position (services.store next);
        },
        next,
      )

  -- `sync`.
  unfoldable pub sync : ℕ → services.State → List (DomainEvent P) × ℕ
  unfolding replay get_last_global_position
  sync cursor state = (
    replay (after_cursor cursor) (services.store state),
    get_last_global_position (services.store state),
  )
