-- ===== src/Outbox/Keeping.antt =====
-- The outbox over any sequence of entries, flushes, failures and kills of the app
-- (apps/mobile/src/offline/outbox.ts).
use splitsaathi.Common.{
  All, All-append, Bool, Bool-cases, List, [], any, ap, arith, if◌then◌else◌, inl, inr, map, refl,
  subst, sym, true, ◌++◌, ◌||◌, ◌∙◌, ◌∷◌, ◌≡◌, ◌⊎◌,
}
use splitsaathi.Common.Keys.{Text, text_eq, ◌==◌}
use splitsaathi.OfflineSync.{OfflineCommand, OfflineCommandResult}
use splitsaathi.Outbox.{
  OutboxRow, accepted_results, command_of, delete_accepted, enqueue, fail_flush, fail_rejected,
  finish_flush, mark, pending_rows, rejected_results, rejection_text, start_flush, to_failed,
  to_syncing,
}

-- The table, the rows of the flush that is in flight, and, for the record, the rows as they were entered
-- and the ids that the server has answered with `accepted`.
pub record Device (C : Type 0) : Type 0 where
  pub rows : List (OutboxRow C)
  pub sent : List (OutboxRow C)
  pub entered : List (OutboxRow C)
  pub accepted_ids : List Text

abbrev pub no_rows : {C : Type 0} → Device C
no_rows = record { rows = []; sent = []; entered = []; accepted_ids = [] }

abbrev pub ids_of : List OfflineCommandResult → List Text
ids_of results = map (λ result. result.client_mutation_id) results

-- The server's answers are any. A killed app sees no answer.
pub data Step {C : Type 0} (ordered : List (OutboxRow C) → List (OutboxRow C))
    : Device C → Device C → Type 0 where
  entering :
      (d : Device C) (row : OutboxRow C)
      → Step ordered d (record d { rows = enqueue row d.rows; entered = d.entered ++ row ∷ [] })
  starting :
      (d : Device C)
      → Step ordered d
          (record d { rows = (start_flush ordered d.rows).0; sent = pending_rows ordered d.rows })
  answered :
      (d : Device C) (results : List OfflineCommandResult)
      → Step ordered d (record d {
        rows = finish_flush results d.rows;
        sent = [];
        accepted_ids = d.accepted_ids ++ ids_of (accepted_results results);
      })
  failing :
      (d : Device C) (message : Text)
      → Step ordered d (record d { rows = fail_flush message d.sent d.rows; sent = [] })
  killed : (d : Device C) → Step ordered d (record d { sent = [] })

pub data Reach {C : Type 0} (ordered : List (OutboxRow C) → List (OutboxRow C))
    : Device C → Type 0 where
  installed : Reach ordered no_rows
  next : {d e : Device C} → Reach ordered d → Step ordered d e → Reach ordered e

-- A row of the table has the command.
abbrev pub Holds : {C : Type 0} → OfflineCommand C → List (OutboxRow C) → Type 0
Holds command [] = ⊥
Holds command (row ∷ rows) = (command_of row ≡ command) ⊎ Holds command rows

abbrev pub is_in : Text → List Text → Bool
is_in id ids = any (λ j. j == id) ids

-- A command is still in the table, or the server has accepted it.
abbrev pub IsKept : {C : Type 0} → List (OutboxRow C) → List Text → OutboxRow C → Type 0
IsKept rows accepted_ids row =
    Holds (command_of row) rows ⊎ (is_in row.client_mutation_id accepted_ids ≡ true)

module _ {C : Type 0} (command : OfflineCommand C) where
  Holds-map :
      (change : OutboxRow C → OutboxRow C)
      → ((row : OutboxRow C) → command_of (change row) ≡ command_of row)
      → (rows : List (OutboxRow C)) → Holds command rows
      → Holds command (map change rows)
  Holds-map change keeps [] held = held
  Holds-map change keeps (row ∷ rows) (inl here) = inl (keeps row ∙ here)
  Holds-map change keeps (row ∷ rows) (inr later) = inr (Holds-map change keeps rows later)

  Holds-append :
      (rows more : List (OutboxRow C)) → Holds command rows → Holds command (rows ++ more)
  Holds-append [] more held = absurd held
  Holds-append (row ∷ rows) more (inl here) = inl here
  Holds-append (row ∷ rows) more (inr later) = inr (Holds-append rows more later)

  Holds-last :
      (rows : List (OutboxRow C)) (row : OutboxRow C)
      → command_of row ≡ command
      → Holds command (rows ++ row ∷ [])
  Holds-last [] row same = inl same
  Holds-last (first ∷ rows) row same = inr (Holds-last rows row same)

  Holds-mark :
      (pending : List (OutboxRow C)) (change : OutboxRow C → OutboxRow C)
      → ((row : OutboxRow C) → command_of (change row) ≡ command_of row)
      → (rows : List (OutboxRow C)) → Holds command rows
      → Holds command (mark pending change rows)
  unfolding mark
  Holds-mark pending change keeps rows held =
      Holds-map (λ row. if any (λ p. p.id == row.id) pending then change row else row)
        (λ row. elim (Bool-cases (any (λ p. p.id == row.id) pending)) [
          | inl found ↦ rw found (keeps row)
          | inr other ↦ rw other refl
        ])
        rows held

  Holds-fail_rejected :
      (results : List OfflineCommandResult) (rows : List (OutboxRow C))
      → Holds command rows
      → Holds command (fail_rejected results rows)
  unfolding fail_rejected
  Holds-fail_rejected [] rows held = held
  Holds-fail_rejected (result ∷ results) rows held = Holds-fail_rejected results _ (
      Holds-map
        (λ row.
          if result.client_mutation_id == row.client_mutation_id
          then to_failed (rejection_text result) row
          else row)
        (λ row. elim (Bool-cases (result.client_mutation_id == row.client_mutation_id)) [
          | inl found ↦ rw found refl
          | inr other ↦ rw other refl
        ])
        rows held)

  Holds-delete_accepted :
      (results : List OfflineCommandResult) (rows : List (OutboxRow C))
      → Holds command rows
      → Holds command (delete_accepted results rows)
        ⊎ (any (λ r. r.client_mutation_id == command.client_mutation_id) results ≡ true)
  unfolding delete_accepted
  Holds-delete_accepted results [] held = absurd held
  Holds-delete_accepted results (row ∷ rows) (inl here) =
      elim (Bool-cases (any (λ r. r.client_mutation_id == row.client_mutation_id) results)) [
        | inl gone ↦ inr (
            subst (λ id. any (λ r. r.client_mutation_id == id) results ≡ true)
              (ap (λ c. c.client_mutation_id) here) gone)
        | inr kept ↦ rw kept (inl (inl here))
      ]
  Holds-delete_accepted results (row ∷ rows) (inr later) =
      let rest = Holds-delete_accepted results rows later in
      elim (Bool-cases (any (λ r. r.client_mutation_id == row.client_mutation_id) results)) [
        | inl gone ↦ rw gone rest
        | inr kept ↦ rw kept (behind row _ rest)
      ]
    where
      behind :
          {Q : Type 0} (row : OutboxRow C) (rows : List (OutboxRow C))
          → Holds command rows ⊎ Q
          → Holds command (row ∷ rows) ⊎ Q
      behind row rows (inl held) = inl (inr held)
      behind row rows (inr other) = inr other

is_in-ids_of :
    (id : Text) (results : List OfflineCommandResult)
    → any (λ r. r.client_mutation_id == id) results ≡ is_in id (ids_of results)
is_in-ids_of id [] = refl
is_in-ids_of id (result ∷ results) =
    ap (λ t. result.client_mutation_id == id || t) (is_in-ids_of id results)

is_in-append_left :
    (id : Text) (xs ys : List Text) → is_in id xs ≡ true → is_in id (xs ++ ys) ≡ true
is_in-append_left id [] ys found = cc
is_in-append_left id (x ∷ xs) ys found = ground (arith, is_in-append_left id xs ys)

is_in-append_right :
    (id : Text) (xs ys : List Text) → is_in id ys ≡ true → is_in id (xs ++ ys) ≡ true
is_in-append_right id [] ys found = found
is_in-append_right id (x ∷ xs) ys found = ground (arith, is_in-append_right id xs ys found)

All-imp {ℓ κ μ} :
    {A : Type ℓ} (P : A → Type κ) (Q : A → Type μ)
    → ((a : A) → P a → Q a)
    → (xs : List A) → All P xs
    → All Q xs
All-imp P Q imp [] all_hold = tt
All-imp P Q imp (x ∷ xs) (holds, later) = (imp x holds, All-imp P Q imp xs later)

-- A table that still holds every command keeps the entries.
IsKept-still :
    {C : Type 0} (rows after : List (OutboxRow C)) (accepted_ids : List Text)
    → ((command : OfflineCommand C) → Holds command rows → Holds command after)
    → (row : OutboxRow C) → IsKept rows accepted_ids row
    → IsKept after accepted_ids row
IsKept-still rows after accepted_ids holds row (inl held) = inl (holds (command_of row) held)
IsKept-still rows after accepted_ids holds row (inr done) = inr done

finish_flush-IsKept :
    {C : Type 0} (results : List OfflineCommandResult) (rows : List (OutboxRow C))
    (accepted_ids : List Text) (row : OutboxRow C)
    → IsKept rows accepted_ids row
    → IsKept (finish_flush results rows) (accepted_ids ++ ids_of (accepted_results results)) row
unfolding finish_flush
finish_flush-IsKept results rows accepted_ids row (inr done) =
    inr (is_in-append_left row.client_mutation_id accepted_ids _ done)
finish_flush-IsKept results rows accepted_ids row (inl held) =
    elim (Holds-delete_accepted (command_of row) (accepted_results results) rows held) [
      | inl left ↦ inl (Holds-fail_rejected (command_of row) (rejected_results results) _ left)
      | inr gone ↦ inr (
          is_in-append_right row.client_mutation_id accepted_ids _
            (sym (is_in-ids_of row.client_mutation_id (accepted_results results)) ∙ gone))
    ]

abbrev AllKept : {C : Type 0} → Device C → Type 0
AllKept d = All (IsKept d.rows d.accepted_ids) d.entered

module _ {C : Type 0} (ordered : List (OutboxRow C) → List (OutboxRow C)) where
  Step-AllKept : {d e : Device C} → Step ordered d e → AllKept d → AllKept e
  unfolding enqueue start_flush fail_flush
  Step-AllKept (entering d row) kept =
      All-append (IsKept (d.rows ++ row ∷ []) d.accepted_ids) d.entered (row ∷ [])
        (All-imp _ _
          (IsKept-still d.rows (d.rows ++ row ∷ []) d.accepted_ids
            (λ command held. Holds-append command d.rows (row ∷ []) held))
          d.entered kept)
        (inl (Holds-last (command_of row) d.rows row refl), tt)
  Step-AllKept (starting d) kept =
      All-imp _ _
        (IsKept-still d.rows _ d.accepted_ids (λ command held.
          Holds-mark command (pending_rows ordered d.rows) to_syncing (λ row. refl) d.rows held))
        d.entered kept
  Step-AllKept (answered d results) kept =
      All-imp _ _ (finish_flush-IsKept results d.rows d.accepted_ids) d.entered kept
  Step-AllKept (failing d message) kept =
      All-imp _ _
        (IsKept-still d.rows _ d.accepted_ids
          (λ command held. Holds-mark command d.sent (to_failed message) (λ row. refl) d.rows held))
        d.entered kept
  Step-AllKept (killed d) kept = kept

  -- No command is lost: whatever is entered, sent, answered, refused or interrupted, in any order, each
  -- entered command is still in the table, with its ids, key, type and payload as they were entered, or
  -- the server has answered its id with `accepted`.
  pub Reach-IsKept : {d : Device C} → Reach ordered d → All (IsKept d.rows d.accepted_ids) d.entered
  Reach-IsKept installed = tt
  Reach-IsKept (next before step) = Step-AllKept step (Reach-IsKept before)
