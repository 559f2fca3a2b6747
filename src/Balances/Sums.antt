-- ===== src/Balances/Sums.antt =====
-- What one posting does to the balances (apps/api/src/modules/ledger/balance.projector.ts).
use splitsaathi.Common.{
  All, Bool-cases, Option-cases, ap, arith, if◌then◌else◌, inl, inr, or_default, refl, sym, ◌∙◌,
  ◌≡◌,
}
use splitsaathi.Common.Int.{cancel_right, int_laws, pos, regroup, ℤ, ◌+ℤ◌}
use splitsaathi.Common.Keys.{Text, text_eq, ◌==◌}
use splitsaathi.Common.Dict.{All-get, get, set-All, sum_values, sum_values-set_default}
use splitsaathi.Postings.{LedgerPosting}
use splitsaathi.Balances.{BalanceRow, Balances, add_posting, balance_key}
use splitsaathi.Balances.Keys.{IsPlain, balance_key-injective}

-- An entry stands under the key of its row, and its ids have no colon.
pub record IsRow (entry : Text × BalanceRow) : Type 0 where
  pub keyed : entry.0 ≡ balance_key entry.1.group_id entry.1.participant_id entry.1.currency_code
  pub plain_group : IsPlain entry.1.group_id
  pub plain_participant : IsPlain entry.1.participant_id

abbrev pub IsValid : Balances → Type 0
IsValid m = All IsRow m

-- What a row counts for in the total of a group and a currency.
abbrev pub row_amount : Text → Text → BalanceRow → ℤ
row_amount g c row =
    if row.group_id == g then if c == row.currency_code then row.amount_minor else pos 0 else pos 0

-- The total of a group in a currency.
abbrev pub group_total : Text → Text → Balances → ℤ
group_total g c m = sum_values (row_amount g c) m

abbrev pub posting_amount : Text → Text → Text → LedgerPosting → ℤ
posting_amount g c h p =
    if h == g then if c == p.currency_code then p.signed_amount_minor else pos 0 else pos 0

abbrev pub new_row : Text → LedgerPosting → BalanceRow
new_row h p = record {
  group_id = h;
  participant_id = p.participant_id;
  currency_code = p.currency_code;
  amount_minor = pos 0;
}

-- The row that `add_posting` adds to: the one in the map, or a new one.
abbrev pub existing_row : Text → Balances → LedgerPosting → BalanceRow
existing_row h m p =
    or_default (new_row h p) (get (balance_key h p.participant_id p.currency_code) m)

existing_row_lem :
    (h : Text) (m : Balances) (p : LedgerPosting)
    → IsValid m
    → IsPlain h
    → IsPlain p.participant_id
    → let r = existing_row h m p in
      (r.group_id ≡ h) × (r.participant_id ≡ p.participant_id) × (r.currency_code ≡ p.currency_code)
existing_row_lem h m p valid ph pp =
    elim (Option-cases (get (balance_key h p.participant_id p.currency_code) m)) [
      | inl new ↦ rw new (refl, refl, refl)
      | inr (row, found) ↦
          let entry = All-get IsRow _ row m valid found in
          let same =
            balance_key-injective h row.group_id p.participant_id row.participant_id p.currency_code
              row.currency_code ph entry.plain_group pp entry.plain_participant entry.keyed in
          rw found (sym same.0, sym same.1, sym same.2)
    ]

pub add_posting-IsValid :
    (h : Text) (m : Balances) (p : LedgerPosting)
    → IsValid m
    → IsPlain h
    → IsPlain p.participant_id
    → IsValid (add_posting h m p)
unfolding add_posting
add_posting-IsValid h m p valid ph pp =
    let (g, q, c) = existing_row_lem h m p valid ph pp in
    set-All IsRow _ _ m valid
      (record { keyed = rw (g, q, c); plain_group = rw g ph; plain_participant = rw q pp })

row_amount_add :
    (g c h : Text) (row : BalanceRow) (p : LedgerPosting)
    → row.group_id ≡ h
    → row.currency_code ≡ p.currency_code
    → row_amount g c (record row { amount_minor = row.amount_minor +ℤ p.signed_amount_minor })
      ≡ row_amount g c row +ℤ posting_amount g c h p
row_amount_add g c h row p gs cs =
    rw (gs, cs)
      (elim (Bool-cases (h == g)) [
        | inl own ↦ rw own (elim (Bool-cases (c == p.currency_code)) [
          | inl same ↦ rw same refl
          | inr other ↦ rw other (omega int_laws)
        ])
        | inr foreign ↦ rw foreign (omega int_laws)
      ])

row_amount_zero :
    (g c : Text) (row : BalanceRow) → row.amount_minor ≡ pos 0 → row_amount g c row ≡ pos 0
row_amount_zero g c row z = ground arith

-- A posting moves the total of its group and currency by its amount, and no other.
pub group_total-add_posting :
    (g c h : Text) (m : Balances) (p : LedgerPosting)
    → IsValid m
    → IsPlain h
    → IsPlain p.participant_id
    → group_total g c (add_posting h m p) ≡ group_total g c m +ℤ posting_amount g c h p
unfolding add_posting
group_total-add_posting g c h m p valid ph pp =
    let row = existing_row h m p in
    let (gs, _, cs) = existing_row_lem h m p valid ph pp in
    let moved = row_amount_add g c h row p gs cs in
    let written =
      sum_values-set_default (row_amount g c) (balance_key h p.participant_id p.currency_code)
        (record row { amount_minor = row.amount_minor +ℤ p.signed_amount_minor }) (new_row h p) m
        (row_amount_zero g c (new_row h p) refl) in
    cancel_right _ _ (row_amount g c row) (
      written
      ∙ ap (λ x. group_total g c m +ℤ x) moved
      ∙ regroup (group_total g c m) (row_amount g c row) (posting_amount g c h p))
