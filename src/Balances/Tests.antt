-- ===== src/Balances/Tests.antt =====
-- Projected balances, and the theorems about them at concrete inputs.
use splitsaathi.Common.{All, List, [], arith, none, refl, some, ℕ, ◌∷◌, ◌≡◌}
use splitsaathi.Common.Int.{negsuc, pos, sum_by, ℤ, ◌+ℤ◌}
use splitsaathi.Common.Keys.{Text, codes, text_beq}
use splitsaathi.Postings.{LedgerPosting}
use splitsaathi.Events.{DomainEvent, expense_created}
use splitsaathi.Balances.{
  add_posting, apply, apply_all, balance_key, get_participant_balance, reset,
}
use splitsaathi.Balances.Keys.{balance_key-injective}
use splitsaathi.Balances.ZeroSum.{IsPlainEvent}
use splitsaathi.Balances.Projection.{event_amount, get_participant_balance_lem}

abbrev posting : Text → ℤ → LedgerPosting
posting participant amount = record {
  participant_id = participant;
  currency_code = codes "INR";
  signed_amount_minor = amount;
  posting_type = codes "expense_paid";
  source_type = codes "expense";
  source_id = codes "e1";
}

abbrev event : Text → ℕ → List LedgerPosting → DomainEvent ℕ
event group position ps = record {
  event_id = codes "ev";
  type = expense_created;
  aggregate_type = codes "expense";
  aggregate_id = codes "e1";
  aggregate_version = position;
  global_position = position;
  group_id = some group;
  actor_id = none;
  occurred_at = codes "2026-07-10";
  payload = 0;
  postings = ps;
}

abbrev history : List (DomainEvent ℕ)
history =
    event (codes "g") 1 (posting (codes "a") (pos 10) ∷ posting (codes "b") (negsuc 9) ∷ [])
    ∷ event (codes "h") 2 (posting (codes "a") (pos 7) ∷ posting (codes "c") (negsuc 6) ∷ [])
    ∷ event (codes "g") 3 (posting (codes "b") (pos 4) ∷ posting (codes "a") (negsuc 3) ∷ [])
    ∷ []

history-IsPlain : All IsPlainEvent history
history-IsPlain = ground arith

get_participant_balance_lem_example :
    (get_participant_balance
      (codes "g")
      (codes "a")
      (codes "INR")
      (apply_all reset history)).amount_minor
    ≡ sum_by (event_amount (codes "g") (codes "a") (codes "INR")) history
get_participant_balance_lem_example =
    get_participant_balance_lem (codes "g") (codes "a") (codes "INR") history (λ e. cc)
      (ground arith) (ground arith) history-IsPlain

balance-history :
    (get_participant_balance
      (codes "g")
      (codes "a")
      (codes "INR")
      (apply_all reset history)).amount_minor
    ≡ pos 6
unfolding get_participant_balance apply_all apply add_posting ◌+ℤ◌ text_beq
balance-history = refl

-- A colon in an id lets two balances share a key.
keys_collide :
    balance_key (codes "g") (codes "p:q") (codes "INR")
    ≡ balance_key (codes "g:p") (codes "q") (codes "INR")
unfolding balance_key
keys_collide = refl

balance_key_test : (codes "g" ≡ codes "g") × (codes "a" ≡ codes "a") × (codes "INR" ≡ codes "INR")
balance_key_test =
    balance_key-injective (codes "g") (codes "g") (codes "a") (codes "a") (codes "INR")
      (codes "INR") (ground arith) (ground arith) (ground arith) (ground arith) refl
