-- ===== src/Expenses/Lifecycle.antt =====
-- The life of an expense: the commands' events, projected and posted
-- (apps/api/src/modules/expenses/expense-command.service.ts and
-- apps/api/src/modules/ledger/expense.projector.ts).
use splitsaathi.Common.{
  Bool, List, Option, [], ap, if◌then◌else◌, inl, inr, none, ok, ok-injective, refl, some, subst,
  sym, ℕ, ◌++◌, ◌∙◌, ◌∷◌, ◌≡◌, ◌⊎◌,
}
use splitsaathi.Common.Int.{pos, sum_by-append, ℤ, ◌+ℤ◌}
use splitsaathi.Common.Keys.{Text, text_beq_iff, text_eq}
use splitsaathi.Common.Dict.{get, get-set}
use splitsaathi.Postings.{LedgerPosting}
use splitsaathi.Events.{DomainEvent, expense_adjusted, expense_created, expense_voided}
use splitsaathi.Expenses.Commands.{
  ExpensePayload, ExpenseProjectionRow, ExpenseSnapshot, ExpenseStatus, active, active_expense,
  revise_postings, snapshot_payload, snapshot_postings, void_payload, void_postings, voided,
}
use splitsaathi.Expenses.Balancing.{counted, revise_postings-sum, sum_of, void_postings-sum}
use splitsaathi.Rounding.{Doubles}
use splitsaathi.EventStore.{stored_events}
use splitsaathi.Expenses.Service.{
  CreateExpenseCommand, ReviseExpenseCommand, VoidExpenseCommand, create_input,
  materialize_snapshot, revise_input, void_input,
}
use splitsaathi.Expenses.Totals.{materialize_snapshot-IsSettled}
use splitsaathi.Expenses.Projection.{
  ExpenseProjection, adjust, adjusted_row, apply, apply_payload, created_row, get_expense,
  record_row, void_row, voided_row,
}

-- The projections that arise as the commands' events are stored, one by one, and projected, with all that
-- the stored events of an expense have posted: createExpense stores its event when there is no such
-- expense; reviseExpense and voidExpense store theirs for an active one; and an event that leaves the row
-- of the expense as it is posts nothing for it.
pub data Lived (d : Doubles) (id : Text) : ExpenseProjection → List LedgerPosting → Type 0 where
  not_yet : (p : ExpenseProjection) → get_expense p id ≡ none → Lived d id p []
  was_created :
      (p next : ExpenseProjection) (command : CreateExpenseCommand d) (expense : ExpenseSnapshot)
      (event : DomainEvent ExpensePayload) (now : Text) (random_uuid : ℕ → Text) (actual count : ℕ)
      → get_expense p id ≡ none
      → materialize_snapshot d id command ≡ ok expense
      → stored_events now random_uuid actual count 0 (create_input d command expense).events
        ≡ event ∷ []
      → apply p event ≡ ok next
      → Lived d id next event.postings
  was_revised :
      (p next : ExpenseProjection) (postings : List LedgerPosting)
      (command : ReviseExpenseCommand d) (existing expense : ExpenseSnapshot)
      (event : DomainEvent ExpensePayload) (now : Text) (random_uuid : ℕ → Text) (actual count : ℕ)
      → Lived d id p postings
      → command.expense_id ≡ id
      → active_expense command.expense_id (get_expense p command.expense_id) ≡ ok existing
      → materialize_snapshot d command.expense_id command.fields ≡ ok expense
      → stored_events now random_uuid actual count 0
          (revise_input d command existing expense).events
        ≡ event ∷ []
      → apply p event ≡ ok next
      → Lived d id next (postings ++ event.postings)
  was_voided :
      (p next : ExpenseProjection) (postings : List LedgerPosting) (command : VoidExpenseCommand d)
      (existing : ExpenseSnapshot) (event : DomainEvent ExpensePayload) (now : Text)
      (random_uuid : ℕ → Text) (actual count : ℕ)
      → Lived d id p postings
      → command.expense_id ≡ id
      → active_expense command.expense_id (get_expense p command.expense_id) ≡ ok existing
      → stored_events now random_uuid actual count 0 (void_input d command existing).events
        ≡ event ∷ []
      → apply p event ≡ ok next
      → Lived d id next (postings ++ event.postings)
  left_alone :
      (p next : ExpenseProjection) (postings : List LedgerPosting)
      (event : DomainEvent ExpensePayload)
      → Lived d id p postings
      → apply p event ≡ ok next
      → get_expense next id ≡ get_expense p id
      → Lived d id next postings

-- What the current row of the expense counts for: the postings of its snapshot while it is active.
abbrev pub current_sum : (Text → Text → Bool) → Option ExpenseProjectionRow → ℤ
current_sum test none = pos 0
current_sum test (some row) = elim row.status [
  | active ↦ sum_of test (snapshot_postings row.snapshot)
  | voided ↦ pos 0
]

-- The row that is found has the id that it is found by.
abbrev IsNamed : Text → Option ExpenseProjectionRow → Type 0
IsNamed id none = Unit
IsNamed id (some row) = row.snapshot.expense_id ≡ id

record_row-get :
    (id : Text) (event : DomainEvent ExpensePayload) (reason : Option Text)
    (before : Option ExpenseProjectionRow) (row : ExpenseProjectionRow) (p : ExpenseProjection)
    → row.snapshot.expense_id ≡ id
    → get_expense (record_row event reason before row p) id ≡ some row
record_row-get id event reason before row p named =
    get-set id row.snapshot.expense_id row p.expenses
    ∙ ap (λ t. if t then some row else get id p.expenses)
        ((text_beq_iff id row.snapshot.expense_id).1 (sym named))

status_cases : (status : ExpenseStatus) → (status ≡ active) ⊎ (status ≡ voided)
status_cases active = inl refl
status_cases voided = inr refl

active_cases :
    (id : Text) (found : Option ExpenseProjectionRow) (existing : ExpenseSnapshot)
    → active_expense id found ≡ ok existing
    → (row : ExpenseProjectionRow) × (found ≡ some row)
      × (row.status ≡ active)
      × (row.snapshot ≡ existing)
unfolding active_expense
active_cases id none existing h = cc
active_cases id (some row) existing h = elim (status_cases row.status) [
  | inl is_active ↦ (row, refl, is_active, ok-injective (rw is_active at h))
  | inr is_voided ↦ let refused = (rw is_voided at h) in cc
]

-- What `apply` does with the events of the three types.
apply-created :
    (p : ExpenseProjection) (event : DomainEvent ExpensePayload) (snapshot : ExpenseSnapshot)
    (reason : Option Text)
    → event.type ≡ expense_created
    → event.payload ≡ snapshot_payload snapshot reason
    → apply p event ≡ ok (record_row event reason none (created_row event snapshot) p)
unfolding apply
apply-created p event snapshot reason type payload =
    ap (apply_payload p event event.type) payload
    ∙ ap (λ t. apply_payload p event t (snapshot_payload snapshot reason)) type

apply-adjusted :
    (p : ExpenseProjection) (event : DomainEvent ExpensePayload) (snapshot : ExpenseSnapshot)
    (reason : Option Text) (row : ExpenseProjectionRow)
    → get_expense p snapshot.expense_id ≡ some row
    → event.type ≡ expense_adjusted
    → event.payload ≡ snapshot_payload snapshot reason
    → apply p event ≡ ok (record_row event reason (some row) (adjusted_row event snapshot row) p)
unfolding apply apply_payload
apply-adjusted p event snapshot reason row found type payload =
    ap (apply_payload p event event.type) payload
    ∙ ap (λ t. apply_payload p event t (snapshot_payload snapshot reason)) type
    ∙ ap (adjust p event snapshot reason) found

apply-voided :
    (p : ExpenseProjection) (event : DomainEvent ExpensePayload) (id group reason : Text)
    (row : ExpenseProjectionRow)
    → get_expense p id ≡ some row
    → event.type ≡ expense_voided
    → event.payload ≡ void_payload id group reason
    → apply p event ≡ ok (record_row event (some reason) (some row) (voided_row event reason row) p)
unfolding apply apply_payload
apply-voided p event id group reason row found type payload =
    ap (apply_payload p event event.type) payload
    ∙ ap (λ t. apply_payload p event t (void_payload id group reason)) type
    ∙ ap (void_row p event id reason) found

-- The event that was stored, for its fields.
first_of : {A : Type 0} {x y : A} {xs ys : List A} → Path (List A) (x ∷ xs) (y ∷ ys) → y ≡ x
first_of same = cc

module _ (d : Doubles) (id : Text) (test : Text → Text → Bool) where
  -- The postings so far are those of the row that is found.
  abbrev IsCurrent : Option ExpenseProjectionRow → List LedgerPosting → Type 0
  IsCurrent found postings = (sum_of test postings ≡ current_sum test found) × IsNamed id found

  current_active :
      (found : Option ExpenseProjectionRow) (row : ExpenseProjectionRow)
      (postings : List LedgerPosting)
      → IsCurrent found postings
      → found ≡ some row
      → row.status ≡ active
      → (sum_of test postings ≡ sum_of test (snapshot_postings row.snapshot))
        × (row.snapshot.expense_id ≡ id)
  current_active found row postings (sum, named) here is_active =
      (sum ∙ ap (current_sum test) here ∙ rw is_active refl, subst (IsNamed id) here named)

  replace_front :
      (front other back : List LedgerPosting)
      → sum_of test front ≡ sum_of test other
      → sum_of test (front ++ back) ≡ sum_of test (other ++ back)
  replace_front front other back same =
      sum_by-append (counted test) front back
      ∙ ap (λ sum. sum +ℤ sum_of test back) same
      ∙ sym (sum_by-append (counted test) other back)

  -- What a revision and what a voiding make of the current row.
  revised-IsCurrent :
      (p next : ExpenseProjection) (earlier : List LedgerPosting)
      (event : DomainEvent ExpensePayload) (existing snapshot : ExpenseSnapshot)
      (reason : Option Text)
      → IsCurrent (get_expense p id) earlier
      → active_expense id (get_expense p id) ≡ ok existing
      → snapshot.expense_id ≡ id
      → event.type ≡ expense_adjusted
      → event.payload ≡ snapshot_payload snapshot reason
      → event.postings ≡ revise_postings existing snapshot
      → apply p event ≡ ok next
      → IsCurrent (get_expense next id) (earlier ++ event.postings)
  revised-IsCurrent p next earlier event existing snapshot reason current live named type payload
        posts run =
      let (row, here, is_active, same) = active_cases id (get_expense p id) existing live in
      let (sum, row_named) = current_active (get_expense p id) row earlier current here is_active in
      let run_row =
        apply-adjusted p event snapshot reason row (ap (get_expense p) named ∙ here) type payload in
      let result = ok-injective (sym run_row ∙ run) in
      let found =
        ap (λ q. get_expense q id) (sym result)
        ∙ record_row-get id event reason (some row) (adjusted_row event snapshot row) p named in
      let total =
        replace_front earlier (snapshot_postings existing) (revise_postings existing snapshot)
          (sum ∙ ap (λ old. sum_of test (snapshot_postings old)) same)
        ∙ revise_postings-sum test existing snapshot in
      rw (found, posts) (total, named)

  voided-IsCurrent :
      (p next : ExpenseProjection) (earlier : List LedgerPosting)
      (event : DomainEvent ExpensePayload) (existing : ExpenseSnapshot) (group reason : Text)
      → IsCurrent (get_expense p id) earlier
      → active_expense id (get_expense p id) ≡ ok existing
      → event.type ≡ expense_voided
      → event.payload ≡ void_payload id group reason
      → event.postings ≡ void_postings existing
      → apply p event ≡ ok next
      → IsCurrent (get_expense next id) (earlier ++ event.postings)
  voided-IsCurrent p next earlier event existing group reason current live type payload posts run =
      let (row, here, is_active, same) = active_cases id (get_expense p id) existing live in
      let (sum, row_named) = current_active (get_expense p id) row earlier current here is_active in
      let run_row = apply-voided p event id group reason row here type payload in
      let result = ok-injective (sym run_row ∙ run) in
      let found =
        ap (λ q. get_expense q id) (sym result)
        ∙ record_row-get id event (some reason) (some row) (voided_row event reason row) p
            row_named in
      let total =
        replace_front earlier (snapshot_postings existing) (void_postings existing)
          (sum ∙ ap (λ old. sum_of test (snapshot_postings old)) same)
        ∙ void_postings-sum test existing in
      rw (found, posts) (total, row_named)

  created-IsCurrent :
      (p next : ExpenseProjection) (event : DomainEvent ExpensePayload) (snapshot : ExpenseSnapshot)
      (reason : Option Text)
      → snapshot.expense_id ≡ id
      → event.type ≡ expense_created
      → event.payload ≡ snapshot_payload snapshot reason
      → event.postings ≡ snapshot_postings snapshot
      → apply p event ≡ ok next
      → IsCurrent (get_expense next id) event.postings
  created-IsCurrent p next event snapshot reason named type payload posts run =
      let result = ok-injective (sym (apply-created p event snapshot reason type payload) ∙ run) in
      let found =
        ap (λ q. get_expense q id) (sym result)
        ∙ record_row-get id event reason none (created_row event snapshot) p named in
      rw (found, posts) (refl, named)

  Lived-IsCurrent :
      (p : ExpenseProjection) (postings : List LedgerPosting)
      → Lived d id p postings
      → IsCurrent (get_expense p id) postings
  unfolding stored_events
  Lived-IsCurrent q postings (not_yet p none_found) = rw none_found (refl, tt)
  Lived-IsCurrent q postings
        (was_created p next command expense event now random_uuid actual count fresh made is run) =
      let (settled, named, group) = materialize_snapshot-IsSettled d id command expense made in
      let stored = first_of is in
      created-IsCurrent p next event expense command.reason named (ap (λ e. e.type) stored)
        (ap (λ e. e.payload) stored) (ap (λ e. e.postings) stored) run
  Lived-IsCurrent q postings
        (was_revised p next earlier command existing expense event now random_uuid actual count
          lived same_id live made is run) =
      let (settled, named, group) =
        materialize_snapshot-IsSettled d command.expense_id command.fields expense made in
      let stored = first_of is in
      revised-IsCurrent p next earlier event existing expense command.fields.reason
        (Lived-IsCurrent p earlier lived)
        (subst (λ k. active_expense k (get_expense p k) ≡ ok existing) same_id live)
        (named ∙ same_id) (ap (λ e. e.type) stored) (ap (λ e. e.payload) stored)
        (ap (λ e. e.postings) stored) run
  Lived-IsCurrent q postings
        (was_voided p next earlier command existing event now random_uuid actual count lived same_id
          live is run) =
      let stored = first_of is in
      voided-IsCurrent p next earlier event existing command.group_id command.reason
        (Lived-IsCurrent p earlier lived)
        (subst (λ k. active_expense k (get_expense p k) ≡ ok existing) same_id live)
        (ap (λ e. e.type) stored)
        (ap (λ e. e.payload) stored
          ∙ ap (λ k. void_payload k command.group_id command.reason) same_id)
        (ap (λ e. e.postings) stored) run
  Lived-IsCurrent q postings (left_alone p next earlier event lived run same) =
      rw same (Lived-IsCurrent p earlier lived)

-- However often an expense has been revised, all that the stored events of its commands have posted sums
-- to what its current snapshot posts while it is active, and to nothing once it is voided, for every
-- choice of participants and currencies.
pub Lived-sum :
    (d : Doubles) (id : Text) (test : Text → Text → Bool) (p : ExpenseProjection)
    (postings : List LedgerPosting)
    → Lived d id p postings
    → sum_of test postings ≡ current_sum test (get_expense p id)
Lived-sum d id test p postings lived = (Lived-IsCurrent d id test p postings lived).0
