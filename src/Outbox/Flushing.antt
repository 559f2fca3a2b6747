-- ===== src/Outbox/Flushing.antt =====
-- A flush of the outbox that the server answers (apps/mobile/src/offline/outbox.ts with
-- apps/api/src/modules/offline-sync/offline-command-sync.service.ts).
use splitsaathi.Common.{
  All, Bool, Bool-cases, List, Option, [], any, ap, arith, false, filter, if◌then◌else◌, inl, inr,
  map, not, refl, sym, true, ℕ, ◌&&◌, ◌||◌, ◌∙◌, ◌∷◌, ◌≡◌, ◌⊎◌,
}
use splitsaathi.Common.Keys.{Text, text_beq_iff, text_eq, ◌==◌}
use splitsaathi.OfflineSync.{OfflineCommandResult, Services, execute_batch}
use splitsaathi.Outbox.{
  OutboxRow, accepted_results, command_of, delete_accepted, fail_rejected, failed, finish_flush,
  is_accepted, is_pending, mark, pending_rows, rejected_results, rejection_text, start_flush,
  to_failed,
}
use splitsaathi.OfflineSync.Answers.{execute_batch_answers}

-- One of the results has the id.
abbrev pub has_result : List OfflineCommandResult → Text → Bool
has_result results id = any (λ r. r.client_mutation_id == id) results

any-map {ℓ κ} :
    {A : Type ℓ} {B : Type κ} (f : A → B) (p : B → Bool) (xs : List A)
    → any p (map f xs) ≡ any (λ x. p (f x)) xs
any-map f p [] = refl
any-map f p (x ∷ xs) = ap (λ t. p (f x) || t) (any-map f p xs)

any-filter {ℓ} :
    {A : Type ℓ} (p q : A → Bool) (xs : List A)
    → any (λ x. p x && q x) xs ≡ true
    → any p (filter q xs) ≡ true
any-filter p q [] found = cc
any-filter p q (x ∷ xs) found = ground (arith, any-filter p q xs)

any_split {ℓ} :
    {A : Type ℓ} (p q : A → Bool) (xs : List A)
    → any p xs ≡ true
    → any p (filter q xs) ≡ false
    → any p (filter (λ x. not (q x)) xs) ≡ true
any_split p q [] found absent = cc
any_split p q (x ∷ xs) found absent = ground (arith, any_split p q xs)

-- Each element is related to one of the list, if it is related to itself.
any_self {ℓ} :
    {A : Type ℓ} (related : A → A → Bool) (all_xs xs : List A)
    → ((x : A) → any (related x) xs ≡ true → any (related x) all_xs ≡ true)
    → All (λ x. related x x ≡ true) xs
    → All (λ x. any (related x) all_xs ≡ true) xs
any_self related all_xs [] inside selves = tt
any_self related all_xs (x ∷ xs) inside (self, selves) = (
  inside x (rw self refl),
  any_self related all_xs xs (λ y found. inside y (ground (arith))) selves,
)

All-map_of {ℓ κ μ} :
    {A : Type ℓ} (P : A → Type κ) (Q : A → Type μ) (f : A → A)
    → ((a : A) → P a → Q (f a))
    → (xs : List A) → All P xs
    → All Q (map f xs)
All-map_of P Q f imp [] hold = tt
All-map_of P Q f imp (x ∷ xs) (holds, later) = (imp x holds, All-map_of P Q f imp xs later)

module _ {C : Type 0} where
  abbrev Covered : List OfflineCommandResult → OutboxRow C → Type 0
  Covered results row = has_result results row.client_mutation_id ≡ true

  -- What an answered flush leaves of a row: a failed row, whose command the server has refused.
  abbrev pub IsRefused : List OfflineCommandResult → OutboxRow C → Type 0
  IsRefused results row = (row.status ≡ failed) × (has_result results row.client_mutation_id ≡ true)

  abbrev same_command : OutboxRow C → OutboxRow C → Bool
  same_command row p = p.client_mutation_id == row.client_mutation_id && is_pending p

  same_command_self :
      (rows : List (OutboxRow C))
      → All (λ row. is_pending row ≡ true) rows
      → All (λ row. same_command row row ≡ true) rows
  same_command_self [] pending = tt
  same_command_self (row ∷ rows) (is, later) = (
    rw ((text_beq_iff row.client_mutation_id row.client_mutation_id).1 refl) rw is refl,
    same_command_self rows later,
  )

  delete_accepted-Covered :
      (results : List OfflineCommandResult) (rows : List (OutboxRow C))
      → All (Covered results) rows
      → All (Covered (rejected_results results)) (delete_accepted (accepted_results results) rows)
  unfolding delete_accepted
  delete_accepted-Covered results [] covered = tt
  delete_accepted-Covered results (row ∷ rows) (here, later) =
      let rest = delete_accepted-Covered results rows later in
      elim (Bool-cases (has_result (accepted_results results) row.client_mutation_id)) [
        | inl gone ↦ rw gone rest
        | inr kept ↦ rw kept (
          any_split (λ r. r.client_mutation_id == row.client_mutation_id)
              (λ r. is_accepted r.status) results here kept,
          rest,
        )
      ]

  -- A row that has failed, or that a result to come will fail.
  abbrev Fails : List OfflineCommandResult → List OfflineCommandResult → OutboxRow C → Type 0
  Fails refusals results row = Covered refusals row × ((row.status ≡ failed) ⊎ Covered results row)

  IsRefused-row :
      (refusals : List OfflineCommandResult) (row : OutboxRow C)
      → Fails refusals [] row
      → IsRefused refusals row
  IsRefused-row refusals row (covered, inl done) = (done, covered)
  IsRefused-row refusals row (covered, inr none_left) = cc

  fail_one :
      (refusals results : List OfflineCommandResult) (result : OfflineCommandResult)
      (row : OutboxRow C)
      → Fails refusals (result ∷ results) row
      → Fails refusals results (
          if result.client_mutation_id == row.client_mutation_id
          then to_failed (rejection_text result) row
          else row)
  fail_one refusals results result row (covered, fails) =
      elim (Bool-cases (result.client_mutation_id == row.client_mutation_id)) [
        | inl here ↦ rw here (covered, inl refl)
        | inr other ↦ rw other (covered, still fails other)
      ]
    where
      still :
          (row.status ≡ failed) ⊎ Covered (result ∷ results) row
          → (result.client_mutation_id == row.client_mutation_id) ≡ false
          → (row.status ≡ failed) ⊎ Covered results row
      still (inl done) other = inl done
      still (inr found) other = inr (rw other at found)

  fail_rejected-IsRefused :
      (refusals results : List OfflineCommandResult) (rows : List (OutboxRow C))
      → All (Fails refusals results) rows
      → All (IsRefused refusals) (fail_rejected results rows)
  unfolding fail_rejected
  fail_rejected-IsRefused refusals [] [] fails = tt
  fail_rejected-IsRefused refusals [] (row ∷ rows) (here, later) =
      (IsRefused-row refusals row here, fail_rejected-IsRefused refusals [] rows later)
  fail_rejected-IsRefused refusals (result ∷ results) rows fails =
      fail_rejected-IsRefused refusals results _ (
        All-map_of (Fails refusals (result ∷ results)) (Fails refusals results) _
          (fail_one refusals results result) rows fails)

  All-Fails :
      (results : List OfflineCommandResult) (rows : List (OutboxRow C))
      → All (Covered results) rows
      → All (Fails results results) rows
  All-Fails results [] covered = tt
  All-Fails results (row ∷ rows) (here, later) = ((here, inr here), All-Fails results rows later)

  finish_flush-IsRefused :
      (results : List OfflineCommandResult) (rows : List (OutboxRow C))
      → All (Covered results) rows
      → All (IsRefused (rejected_results results)) (finish_flush results rows)
  unfolding finish_flush
  finish_flush-IsRefused results rows covered =
      fail_rejected-IsRefused (rejected_results results) (rejected_results results) _
        (All-Fails (rejected_results results) _ (delete_accepted-Covered results rows covered))

  module _ (ordered : List (OutboxRow C) → List (OutboxRow C))
      (same_rows : (p : OutboxRow C → Bool) (rows : List (OutboxRow C))
        → any p (ordered rows) ≡ any p rows)
      (rows : List (OutboxRow C)) where
    abbrev is_in_commands : Text → Bool
    is_in_commands id =
        any (λ j. j == id) (map (λ c. c.client_mutation_id) (start_flush ordered rows).1)

    -- Every row that is pending is sent.
    sent_command :
        (id : Text)
        → any (λ p. p.client_mutation_id == id && is_pending p) rows ≡ true
        → is_in_commands id ≡ true
    unfolding start_flush pending_rows
    sent_command id found =
        any-map (λ c. c.client_mutation_id) (λ j. j == id)
          (map command_of (pending_rows ordered rows))
        ∙ any-map command_of (λ c. c.client_mutation_id == id) (pending_rows ordered rows)
        ∙ any-filter (λ p. p.client_mutation_id == id) is_pending (ordered rows)
            (same_rows (λ p. p.client_mutation_id == id && is_pending p) rows ∙ found)

    Covered-by :
        (results : List OfflineCommandResult)
        → map (λ r. r.client_mutation_id) results
          ≡ map (λ c. c.client_mutation_id) (start_flush ordered rows).1
        → (some_rows : List (OutboxRow C))
        → All (λ row. any (same_command row) rows ≡ true) some_rows
        → All (Covered results) some_rows
    Covered-by results answers [] related = tt
    Covered-by results answers (row ∷ more) (here, later) = (
      sym (any-map (λ r. r.client_mutation_id) (λ j. j == row.client_mutation_id) results)
          ∙ ap (any (λ j. j == row.client_mutation_id)) answers
          ∙ sent_command row.client_mutation_id here,
      Covered-by results answers more later,
    )

    mark-Covered :
        (results : List OfflineCommandResult)
        → All (Covered results) rows
        → All (Covered results) (start_flush ordered rows).0
    unfolding start_flush mark
    mark-Covered results covered =
        All-map_of (Covered results) (Covered results) _
          (λ row holds. elim (Bool-cases (any (λ p. p.id == row.id) (pending_rows ordered rows))) [
            | inl found ↦ rw found holds
            | inr other ↦ rw other holds
          ])
          rows covered

    start_flush-Covered :
        (results : List OfflineCommandResult)
        → map (λ r. r.client_mutation_id) results
          ≡ map (λ c. c.client_mutation_id) (start_flush ordered rows).1
        → All (λ row. is_pending row ≡ true) rows
        → All (Covered results) (start_flush ordered rows).0
    start_flush-Covered results answers pending =
        let selves =
          any_self same_command rows rows (λ x found. found) (same_command_self rows pending) in
        mark-Covered results (Covered-by results answers rows selves)

    -- A flush that the server answers settles every command: if no row is syncing before it, then
    -- afterwards each row that is left has failed, and the server has refused its command, so that the next
    -- flush sends it again; the rows of the accepted commands are gone.
    pub flush_settles :
        {P : Type 0} (services : Services C P) (cursor : Option ℕ) (state : services.State)
        → All (λ row. is_pending row ≡ true) rows
        → let results =
            (execute_batch services (start_flush ordered rows).1 cursor state).0.results in
          All
            (IsRefused (rejected_results results))
            (finish_flush results (start_flush ordered rows).0)
    flush_settles services cursor state pending =
        let commands = (start_flush ordered rows).1 in
        let results = (execute_batch services commands cursor state).0.results in
        finish_flush-IsRefused results (start_flush ordered rows).0 (
          start_flush-Covered results (execute_batch_answers services commands cursor state)
            pending)
