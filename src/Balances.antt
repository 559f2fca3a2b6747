-- ===== src/Balances.antt =====
-- The balances of participants, projected from postings:
-- apps/api/src/modules/ledger/balance.projector.ts.
pub mod Keys
pub mod Sums
pub mod ZeroSum
pub mod Projection
mod Tests
use splitsaathi.Common.{
  Bool, List, Option, [], filter, if◌then◌else◌, none, not, or_default, some, true, ◌&&◌, ◌++◌,
  ◌||◌, ◌∷◌,
}
use splitsaathi.Common.Int.{eqb_ℤ, pos, ℤ, ◌+ℤ◌}
use splitsaathi.Common.Keys.{Text, codes, text_eq, ◌==◌}
use splitsaathi.Common.Dict.{Dict, get, set, values}
use splitsaathi.Common.Sort.{sort}
use splitsaathi.Common.Tally.{add_totals, first_nonzero}
use splitsaathi.Postings.{LedgerPosting}
use splitsaathi.Events.{DomainEvent}

-- `ParticipantBalanceRow`.
pub record BalanceRow : Type 0 where
  pub group_id : Text
  pub participant_id : Text
  pub currency_code : Text
  pub amount_minor : ℤ

-- `${groupId}:${participantId}:${currencyCode}`.
unfoldable pub balance_key : Text → Text → Text → Text
balance_key group participant currency =
    group ++ (codes ":" ++ (participant ++ (codes ":" ++ currency)))

abbrev pub Balances : Type 0
Balances = Dict Text BalanceRow

-- One round of the loop of `apply`.
unfoldable pub add_posting : Text → Balances → LedgerPosting → Balances
unfolding balance_key
add_posting group balances p =
    let key = balance_key group p.participant_id p.currency_code in
    let existing =
      or_default
        (record {
          group_id = group;
          participant_id = p.participant_id;
          currency_code = p.currency_code;
          amount_minor = pos 0;
        })
        (get key balances) in
    set key (record existing { amount_minor = existing.amount_minor +ℤ p.signed_amount_minor })
      balances

-- The loop of `apply`.
unfoldable pub add_postings : Text → Balances → List LedgerPosting → Balances
add_postings group balances [] = balances
add_postings group balances (p ∷ ps) = add_postings group (add_posting group balances p) ps

-- The postings of an event of group `group`; with no group (absent or the empty text) nothing is done.
unfoldable pub apply_group : Option Text → Balances → List LedgerPosting → Balances
unfolding add_postings
apply_group none balances ps = balances
apply_group (some []) balances ps = balances
apply_group (some (c ∷ cs)) balances ps = add_postings (c ∷ cs) balances ps

-- `apply`. An event with no postings leaves the balances unchanged: the loop has no round.
unfoldable pub apply : {P : Type 0} → Balances → DomainEvent P → Balances
unfolding apply_group
apply balances event = apply_group event.group_id balances event.postings

-- The loop of `ProjectionRunner.apply` for this projector.
unfoldable pub apply_all : {P : Type 0} → Balances → List (DomainEvent P) → Balances
apply_all balances [] = balances
apply_all balances (event ∷ events) = apply_all (apply balances event) events

-- `reset`.
abbrev pub reset : Balances
reset = []

-- `localeCompare` is the platform's: `earlier` tells whether a text stands before another.
module _ (earlier : Text → Text → Bool) where
  -- The order that `listGroupBalances` sorts by: whether `left` may stand before `right`.
  abbrev pub row_le : BalanceRow → BalanceRow → Bool
  row_le left right =
      if left.currency_code == right.currency_code
      then not (earlier right.participant_id left.participant_id)
      else not (earlier right.currency_code left.currency_code)

  -- `listGroupBalances`.
  unfoldable pub list_group_balances : Text → Bool → Balances → List BalanceRow
  list_group_balances group include_zero balances = sort row_le (
      filter
        (λ row. (row.group_id == group) && (include_zero || not (eqb_ℤ row.amount_minor (pos 0))))
        (values balances))

  -- `assertZeroSum`: the currency and the total that it reports, if it throws.
  unfoldable pub assert_zero_sum : Text → Balances → Option (Text × ℤ)
  unfolding list_group_balances
  assert_zero_sum group balances = first_nonzero (
      add_totals (λ row. row.currency_code) (λ row. row.amount_minor) []
        (list_group_balances group true balances))

-- `getParticipantBalance`.
unfoldable pub get_participant_balance : Text → Text → Text → Balances → BalanceRow
unfolding balance_key
get_participant_balance group participant currency balances =
    or_default
      (record {
        group_id = group;
        participant_id = participant;
        currency_code = currency;
        amount_minor = pos 0;
      })
      (get (balance_key group participant currency) balances)
