-- ===== src/OfflineSync/Answers.antt =====
-- The answers to a batch (apps/api/src/modules/offline-sync/offline-command-sync.service.ts).
use splitsaathi.Events.{DomainEvent}
use splitsaathi.Common.{List, Option, Result, [], ap, err, map, ok, refl, ℕ, ◌∙◌, ◌∷◌, ◌≡◌}
use splitsaathi.OfflineSync.{
  OfflineCommand, RouteError, Services, execute_all, execute_batch, execute_one, result_of,
}

module _ {C P : Type 0} (services : Services C P) where
  client_mutation_id-result_of :
      (command : OfflineCommand C) (outcome : Result RouteError (List (DomainEvent P)))
      → (result_of services command outcome).client_mutation_id ≡ command.client_mutation_id
  unfolding result_of
  client_mutation_id-result_of command (ok events) = refl
  client_mutation_id-result_of command (err why) = refl

  execute_all_answers :
      (commands : List (OfflineCommand C)) (state : services.State)
      → map (λ result. result.client_mutation_id) (execute_all services commands state).0
        ≡ map (λ command. command.client_mutation_id) commands
  unfolding execute_all execute_one
  execute_all_answers [] state = refl
  execute_all_answers (command ∷ commands) state =
      ap
        (λ id.
          id
          ∷ map (λ result. result.client_mutation_id)
              (execute_all services commands (services.route command state).1).0)
        (client_mutation_id-result_of command (services.route command state).0)
      ∙ ap (λ ids. command.client_mutation_id ∷ ids)
          (execute_all_answers commands (services.route command state).1)

  -- Each command is answered once, in the order of the commands.
  pub execute_batch_answers :
      (commands : List (OfflineCommand C)) (cursor : Option ℕ) (state : services.State)
      → map
          (λ result. result.client_mutation_id)
          (execute_batch services commands cursor state).0.results
        ≡ map (λ command. command.client_mutation_id) commands
  unfolding execute_batch
  execute_batch_answers commands cursor state = execute_all_answers commands state
