-- ===== src/Balances/Projection.antt =====
-- The balance of a participant and the postings of all events of the group
-- (apps/api/src/modules/ledger/balance.projector.ts).
use splitsaathi.Balances.ZeroSum.{IsPlainEvent, IsPlainGroup}
use splitsaathi.Balances.Sums.{existing_row, new_row}
use splitsaathi.Common.{
  All, Bool, Bool-cases, List, Option, [], ap, arith, false, if◌then◌else◌, inl, inr, none,
  or_default, refl, some, sym, ◌∙◌, ◌∷◌, ◌≡◌, ◌≢◌,
}
use splitsaathi.Common.Int.{+ℤ_assoc, int_laws, pos, sum_by, zero-+ℤ, ℤ, ◌+ℤ◌}
use splitsaathi.Common.Keys.{Text, text_beq_iff, text_eq, ◌==◌}
use splitsaathi.Common.Dict.{get, get-set}
use splitsaathi.Postings.{LedgerPosting}
use splitsaathi.Events.{DomainEvent}
use splitsaathi.Balances.{
  BalanceRow, Balances, add_posting, add_postings, apply, apply_all, apply_group, balance_key,
  get_participant_balance, reset,
}
use splitsaathi.Balances.Keys.{IsPlain, balance_key-injective}

-- What a posting adds to the balance of participant `p` in currency `c`.
abbrev pub participant_amount : Text → Text → LedgerPosting → ℤ
participant_amount p c q =
    if p == q.participant_id
    then if c == q.currency_code then q.signed_amount_minor else pos 0
    else pos 0

abbrev pub is_group : Text → Option Text → Bool
is_group g none = false
is_group g (some h) = g == h

-- What an event adds to that balance in group `g`.
abbrev pub event_amount : {P : Type 0} → Text → Text → Text → DomainEvent P → ℤ
event_amount g p c event =
    if is_group g event.group_id then sum_by (participant_amount p c) event.postings else pos 0

abbrev balance : Text → Text → Text → Balances → ℤ
balance g p c m = (get_participant_balance g p c m).amount_minor

abbrev amount_found : Option BalanceRow → ℤ
amount_found none = pos 0
amount_found (some row) = row.amount_minor

amount_or_default :
    (o : Option BalanceRow) (d : BalanceRow)
    → d.amount_minor ≡ pos 0
    → (or_default d o).amount_minor ≡ amount_found o
amount_or_default none d z = z
amount_or_default (some row) d z = refl

balance_found :
    (g p c : Text) (m : Balances) → balance g p c m ≡ amount_found (get (balance_key g p c) m)
unfolding get_participant_balance
balance_found g p c m = amount_or_default (get (balance_key g p c) m) _ refl

existing_amount :
    (h : Text) (m : Balances) (q : LedgerPosting)
    → (existing_row h m q).amount_minor
      ≡ amount_found (get (balance_key h q.participant_id q.currency_code) m)
existing_amount h m q =
    amount_or_default (get (balance_key h q.participant_id q.currency_code) m) (new_row h q) refl

-- The same key: the amount is added. Another key: nothing changes.
found_add :
    (k h : Text) (m : Balances) (q : LedgerPosting)
    → amount_found (get k (add_posting h m q))
      ≡ amount_found (get k m)
        +ℤ (if k == balance_key h q.participant_id q.currency_code
            then q.signed_amount_minor
            else pos 0)
unfolding add_posting
found_add k h m q =
    let key = balance_key h q.participant_id q.currency_code in
    rw (get-set k key _ m) (elim (Bool-cases (k == key)) [
      | inl same ↦ rw (same, existing_amount h m q, (text_beq_iff k key).0 same) refl
      | inr other ↦ rw other (omega int_laws)
    ])

key_amount :
    (g h p c : Text) (q : LedgerPosting)
    → IsPlain g
    → IsPlain h
    → IsPlain p
    → IsPlain q.participant_id
    → (if balance_key g p c == balance_key h q.participant_id q.currency_code
        then q.signed_amount_minor
        else pos 0)
      ≡ (if g == h then participant_amount p c q else pos 0)
key_amount g h p c q pg ph pp pq = ground (
  arith,
  text_beq_iff g h,
  text_beq_iff p q.participant_id,
  text_beq_iff c q.currency_code,
  text_beq_iff (balance_key g p c) (balance_key h q.participant_id q.currency_code),
  balance_key-injective g h p q.participant_id c q.currency_code pg ph pp pq,
)

module _ (g p c : Text) (pg : IsPlain g) (pp : IsPlain p) where
  balance-add_postings :
      (h : Text) (m : Balances) (qs : List LedgerPosting)
      → IsPlain h
      → All (λ q. IsPlain q.participant_id) qs
      → balance g p c (add_postings h m qs)
        ≡ balance g p c m +ℤ (if g == h then sum_by (participant_amount p c) qs else pos 0)
  unfolding add_postings
  balance-add_postings h m [] ph pq = elim (Bool-cases (g == h)) [
    | inl own ↦ rw own (omega int_laws)
    | inr foreign ↦ rw foreign (omega int_laws)
  ]
  balance-add_postings h m (q ∷ qs) ph pq =
      let key = balance_key g p c in
      let m' = add_posting h m q in
      balance-add_postings h m' qs ph pq.1
      ∙ ap (λ x. x +ℤ (if g == h then sum_by (participant_amount p c) qs else pos 0))
          (balance_found g p c m'
            ∙ found_add key h m q
            ∙ ap (λ x. amount_found (get key m) +ℤ x) (key_amount g h p c q pg ph pp pq.0)
            ∙ ap (λ x. x +ℤ (if g == h then participant_amount p c q else pos 0))
                (sym (balance_found g p c m)))
      ∙ elim (Bool-cases (g == h)) [
        | inl own ↦ rw own (omega int_laws)
        | inr foreign ↦ rw foreign (omega int_laws)
      ]

  balance-apply_group :
      (o : Option Text) (m : Balances) (qs : List LedgerPosting)
      → g ≢ []
      → IsPlainGroup o
      → All (λ q. IsPlain q.participant_id) qs
      → balance g p c (apply_group o m qs)
        ≡ balance g p c m +ℤ (if is_group g o then sum_by (participant_amount p c) qs else pos 0)
  unfolding apply_group
  balance-apply_group none m qs ne ph pq = omega int_laws
  balance-apply_group (some []) m qs ne ph pq = elim (Bool-cases (g == [])) [
    | inl empty ↦ absurd (ne ((text_beq_iff g []).0 empty))
    | inr other ↦ rw other (omega int_laws)
  ]
  balance-apply_group (some (d ∷ ds)) m qs ne ph pq = balance-add_postings (d ∷ ds) m qs ph pq

  balance-apply_all :
      {P : Type 0} (m : Balances) (events : List (DomainEvent P))
      → g ≢ []
      → All IsPlainEvent events
      → balance g p c (apply_all m events) ≡ balance g p c m +ℤ sum_by (event_amount g p c) events
  unfolding apply_all apply
  balance-apply_all m [] ne h = omega int_laws
  balance-apply_all m (e ∷ es) ne h =
      balance-apply_all (apply m e) es ne h.1
      ∙ ap (λ x. x +ℤ sum_by (event_amount g p c) es)
          (balance-apply_group e.group_id m e.postings ne h.0.0 h.0.1)
      ∙ +ℤ_assoc (balance g p c m) (event_amount g p c e) (sum_by (event_amount g p c) es)

-- The projected balance of a participant is the sum of the amounts that the events of the group post
-- to that participant in that currency, if no group or participant id has a colon.
pub get_participant_balance_lem :
    {P : Type 0} (g p c : Text) (events : List (DomainEvent P))
    → g ≢ []
    → IsPlain g
    → IsPlain p
    → All IsPlainEvent events
    → (get_participant_balance g p c (apply_all reset events)).amount_minor
      ≡ sum_by (event_amount g p c) events
get_participant_balance_lem g p c events ne pg pp h =
    balance-apply_all g p c pg pp reset events ne h
    ∙ ap (λ x. x +ℤ sum_by (event_amount g p c) events) (balance_found g p c reset)
    ∙ zero-+ℤ (sum_by (event_amount g p c) events)
