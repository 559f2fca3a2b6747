-- ===== src/Ledger/Runs.antt =====
-- Every sequence of calls of the ledger service, from an empty store
-- (apps/api/src/modules/ledger/ledger.service.ts with balance.projector.ts).
use splitsaathi.Common.{
  All, Bool, Bool-cases, List, [], filter, inl, inr, ltb, none, ok, refl, true, ℕ, ◌∷◌, ◌≡◌,
}
use splitsaathi.Common.Keys.{Text}
use splitsaathi.Events.{AppendEventsInput, DomainEvent}
use splitsaathi.EventStore.{Hashed, empty_store, get_last_global_position, replay}
use splitsaathi.EventStore.Invariant.{empty_store-IsValid}
use splitsaathi.Balances.{Balances, apply, apply_all, assert_zero_sum, reset}
use splitsaathi.Balances.ZeroSum.{IsPlainEvent, assert_zero_sum-none}
use splitsaathi.Ledger.{
  LedgerState, Projector, append_and_project, on_module_init, project, rebuild,
}
use splitsaathi.Ledger.Projecting.{IsConsistent, append_and_project-IsConsistent}
use splitsaathi.Balances

-- The ledgers that calls of `appendAndProject`, in any order, with any inputs, times and ids, and
-- restarts of the service, lead to. The calls run one after another, each as one step, and the projector
-- takes every event. A call that throws changes nothing.
pub data Reach {P Q : Type 0} (projector : Projector P) (hash_payload : Hashed P Q → Text)
    : LedgerState projector → Type 0 where
  start :
      Reach projector hash_payload (record { store = empty_store; projection = projector.reset })
  call :
      {before after : LedgerState projector} (now : Text) (random_uuid : ℕ → Text)
      (input : AppendEventsInput P Q) (events : List (DomainEvent P))
      → Reach projector hash_payload before
      → append_and_project projector hash_payload now random_uuid input before ≡ ok (events, after)
      → Reach projector hash_payload after
  restart :
      {before : LedgerState projector}
      → Reach projector hash_payload before
      → Reach projector hash_payload (on_module_init projector before)

module _ {P Q : Type 0} (projector : Projector P) (hash_payload : Hashed P Q → Text) where
  filter_any : (events : List (DomainEvent P)) → filter (λ event. true) events ≡ events
  filter_any [] = refl
  filter_any (event ∷ events) = rw (filter_any events) refl

  on_module_init-IsConsistent :
      (ledger : LedgerState projector)
      → IsConsistent projector ledger
      → IsConsistent projector (on_module_init projector ledger)
  unfolding on_module_init rebuild replay
  on_module_init-IsConsistent ledger c =
      elim (Bool-cases (ltb 0 (get_last_global_position ledger.store))) [
        | inl filled ↦
            rw filled
              (record { valid = c.valid; projected = rw (filter_any ledger.store.events) refl })
        | inr empty ↦ rw empty c
      ]

  -- After calls of `appendAndProject` and restarts, in any order but one after another, each as one step,
  -- with a projector that takes every event, the store is valid and the projection is that of the whole
  -- log: a restart rebuilds exactly the projection that was there.
  pub Reach-IsConsistent :
      {ledger : LedgerState projector}
      → Reach projector hash_payload ledger
      → IsConsistent projector ledger
  unfolding rebuild project
  Reach-IsConsistent start = record { valid = empty_store-IsValid; projected = refl }
  Reach-IsConsistent (call {before} {after} now random_uuid input events reach h) =
      append_and_project-IsConsistent projector hash_payload now random_uuid input before events
        after (Reach-IsConsistent reach) h
  Reach-IsConsistent (restart {before} reach) =
      on_module_init-IsConsistent before (Reach-IsConsistent reach)

abbrev pub balance_projector : {P : Type 0} → Projector P
balance_projector = record { State = Balances; apply = Balances.apply; reset = Balances.reset }

project-eq-apply_all :
    {P : Type 0} (m : Balances) (events : List (DomainEvent P))
    → project balance_projector m events ≡ apply_all m events
unfolding project apply_all
project-eq-apply_all m [] = refl
project-eq-apply_all m (event ∷ events) = project-eq-apply_all (Balances.apply m event) events

-- In every ledger reached, whatever was appended, `assertZeroSum` finds nothing to report for any
-- group, if the ids of groups and participants have no colon.
pub Reach-zero_sum :
    {P Q : Type 0} (hash_payload : Hashed P Q → Text) (earlier : Text → Text → Bool)
    (ledger : LedgerState (balance_projector {P = P})) (g : Text)
    → Reach balance_projector hash_payload ledger
    → All IsPlainEvent ledger.store.events
    → assert_zero_sum earlier g ledger.projection ≡ none
unfolding rebuild
Reach-zero_sum hash_payload earlier ledger g reach plain =
    let c = Reach-IsConsistent balance_projector hash_payload reach in
    rw (c.projected, project-eq-apply_all Balances.reset ledger.store.events)
      (assert_zero_sum-none earlier ledger.store.events g plain c.valid.balanced)
