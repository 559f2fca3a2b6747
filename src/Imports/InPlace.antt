-- ===== src/Imports/InPlace.antt =====
-- Writes to the items of an import, one payload after the other
-- (apps/api/src/modules/imports-exports/imports-exports.projector.ts, lines 62-68).
use mathlib.Core.Option
use splitsaathi.Common.{
  All, Bool-cases, List, Option, Option-cases, Result, [], ap, arith, err, false, if◌then◌else◌,
  inl, inr, none, ok, refl, some, subst, ◌∷◌, ◌≡◌,
}
use splitsaathi.Common.Keys.{Text, text_beq_iff, text_eq, ◌==◌}
use splitsaathi.Imports.{
  CommitImportCommand, ImportError, ImportItemRow, ImportStatus, bad_amount, committed, failed,
  message, missing_in_row, not_a_debit, not_parsed,
}
use splitsaathi.Imports.Projection.{ItemPayload, is_parsed, settle_found, settle_item}
use splitsaathi.Imports.Committing.{ImportExpenses, outcome_payload, parsed_items, try_item}

-- No item has the id, and the ids of the items are distinct.
abbrev pub IsFresh : Text → List ImportItemRow → Type 0
IsFresh id items = All (λ item. (id == item.item_id) ≡ false) items

abbrev pub HasDistinctIds : List ImportItemRow → Type 0
HasDistinctIds [] = Unit
HasDistinctIds (item ∷ items) = IsFresh item.item_id items × HasDistinctIds items

-- The writes of several payloads, one after the other.
unfoldable pub settle_all : List ItemPayload → List ImportItemRow → Option (List ImportItemRow)
unfolding settle_found
settle_all [] items = some items
settle_all (payload ∷ payloads) items = elim (settle_found payload items) [
  | none ↦ none
  | some settled ↦ settle_all payloads settled
]

settle_all-past :
    (item : ImportItemRow) (payloads : List ItemPayload) (items : List ImportItemRow)
    → All (λ payload. (item.item_id == payload.item_id) ≡ false) payloads
    → settle_all payloads (item ∷ items)
      ≡ Option.map (λ later. item ∷ later) (settle_all payloads items)
unfolding settle_all settle_found
settle_all-past item [] items apart = refl
settle_all-past item (payload ∷ payloads) items apart =
    let differ : (item.item_id == payload.item_id) ≡ false = apart.0 in
    elim (Option-cases (settle_found payload items)) [
      | inl missing ↦ rw (differ, missing, settle_all) refl
      | inr (settled, found) ↦
          rw (differ, found, settle_all) (settle_all-past item payloads settled apart.1)
    ]

module _ (expenses : ImportExpenses) (command : CommitImportCommand) (group_id : Text) where
  abbrev pub payload_of : ImportItemRow → Result ImportError Text → ItemPayload
  payload_of item outcome = outcome_payload command.import_job_id item.item_id outcome

  -- An item with the outcome of its expense. An error with an empty message counts as none.
  abbrev pub outcome_status : ImportError → ImportStatus
  outcome_status (message []) = committed
  outcome_status _ = failed

  abbrev pub with_outcome : ImportItemRow → Result ImportError Text → ImportItemRow
  with_outcome item (ok expense_id) = record item {
    status = committed;
    error = none;
    committed_expense_id = some expense_id;
  }
  with_outcome item (err why) = record item {
    status = outcome_status why;
    error = some why;
    committed_expense_id = none;
  }

  settle_item-with_outcome :
      (item : ImportItemRow) (outcome : Result ImportError Text)
      → settle_item (payload_of item outcome) item ≡ with_outcome item outcome
  settle_item-with_outcome item (ok expense_id) = refl
  settle_item-with_outcome item (err (message [])) = refl
  settle_item-with_outcome item (err (message (c ∷ cs))) = refl
  settle_item-with_outcome item (err (bad_amount why)) = refl
  settle_item-with_outcome item (err (missing_in_row n)) = refl
  settle_item-with_outcome item (err (not_a_debit n)) = refl
  settle_item-with_outcome item (err not_parsed) = refl

  -- Each item that is parsed, with the outcome of its expense, and the other items as they are.
  unfoldable pub in_place : List ImportItemRow → expenses.State → List ImportItemRow
  unfolding try_item
  in_place [] made = []
  in_place (item ∷ items) made =
      let (outcome, next) = try_item expenses command group_id item made in
      let settled = with_outcome item outcome ∷ in_place items next in
      let kept = item ∷ in_place items made in if is_parsed item.status then settled else kept

  unfoldable pub payloads : List ImportItemRow → expenses.State → List ItemPayload
  unfolding try_item
  payloads [] made = []
  payloads (item ∷ items) made =
      let (outcome, next) = try_item expenses command group_id item made in
      payload_of item outcome ∷ payloads items next

  payload_of-item_id :
      (item : ImportItemRow) (outcome : Result ImportError Text)
      → (payload_of item outcome).item_id ≡ item.item_id
  payload_of-item_id item (ok id) = refl
  payload_of-item_id item (err why) = refl

  pub payload_of-import_job_id :
      (item : ImportItemRow) (outcome : Result ImportError Text)
      → (payload_of item outcome).import_job_id ≡ command.import_job_id
  payload_of-import_job_id item (ok id) = refl
  payload_of-import_job_id item (err why) = refl

  payloads-apart :
      (id : Text) (items : List ImportItemRow) (made : expenses.State)
      → IsFresh id items
      → All (λ payload. (id == payload.item_id) ≡ false) (payloads (parsed_items items) made)
  unfolding parsed_items payloads
  payloads-apart id [] made fresh = tt
  payloads-apart id (item ∷ items) made fresh =
      let (outcome, next) = try_item expenses command group_id item made in
      elim (Bool-cases (is_parsed item.status)) [
        | inl is ↦
            rw is
              (rw (payload_of-item_id item outcome) fresh.0, payloads-apart id items next fresh.1)
        | inr isnt ↦ rw isnt (payloads-apart id items made fresh.1)
      ]

  settle_found-head :
      (item : ImportItemRow) (outcome : Result ImportError Text) (items : List ImportItemRow)
      → settle_found (payload_of item outcome) (item ∷ items)
        ≡ some (settle_item (payload_of item outcome) item ∷ items)
  unfolding settle_found
  settle_found-head item outcome items =
      rw (payload_of-item_id item outcome, (text_beq_iff item.item_id item.item_id).1 refl) refl

  pub settle_all-in_place :
      (items : List ImportItemRow) (made : expenses.State)
      → HasDistinctIds items
      → settle_all (payloads (parsed_items items) made) items ≡ some (in_place items made)
  unfolding parsed_items payloads in_place settle_all
  settle_all-in_place [] made distinct = refl
  settle_all-in_place (item ∷ items) made distinct =
      let (outcome, next) = try_item expenses command group_id item made in
      let settled = settle_item (payload_of item outcome) item in
      elim (Bool-cases (is_parsed item.status)) [
        | inl is ↦
            rw
              (
                is,
                settle_found-head item outcome items,
                settle_all,
                settle_all-past settled (payloads (parsed_items items) next) items
                    (payloads-apart item.item_id items next distinct.0),
                settle_all-in_place items next distinct.1,
              )
              (ap (λ i. some (i ∷ in_place items next)) (settle_item-with_outcome item outcome))
        | inr isnt ↦
            rw
              (
                isnt,
                settle_all-past item (payloads (parsed_items items) made) items
                    (payloads-apart item.item_id items made distinct.0),
                settle_all-in_place items made distinct.1,
              )
              refl
      ]

  settle_item-settled :
      (payload : ItemPayload) (item : ImportItemRow)
      → is_parsed (settle_item payload item).status ≡ false
  settle_item-settled payload item = ground arith

  with_outcome-settled :
      (item : ImportItemRow) (outcome : Result ImportError Text)
      → is_parsed (with_outcome item outcome).status ≡ false
  with_outcome-settled item outcome =
      subst (λ i. is_parsed i.status ≡ false) (settle_item-with_outcome item outcome)
        (settle_item-settled (payload_of item outcome) item)

  pub in_place-settled :
      (items : List ImportItemRow) (made : expenses.State) → parsed_items (in_place items made) ≡ []
  unfolding parsed_items in_place
  in_place-settled [] made = refl
  in_place-settled (item ∷ items) made =
      let (outcome, next) = try_item expenses command group_id item made in
      elim (Bool-cases (is_parsed item.status)) [
        | inl is ↦ rw (is, with_outcome-settled item outcome) (in_place-settled items next)
        | inr isnt ↦ rw (isnt, isnt) (in_place-settled items made)
      ]
