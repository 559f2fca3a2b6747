-- ===== src/Balances/ZeroSum.antt =====
-- The sums of the projected balances of a group by currency, and `assertZeroSum`
-- (apps/api/src/modules/ledger/balance.projector.ts).
use splitsaathi.Common.{
  All, Bool, Bool-cases, List, Option, [], ap, false, filter, if◌then◌else◌, inl, inr, none, not,
  refl, some, true, ◌&&◌, ◌||◌, ◌∙◌, ◌∷◌, ◌≡◌,
}
use splitsaathi.Common.Int.{+ℤ_assoc, eqb_ℤ, int_laws, pos, sum_by, ◌+ℤ◌}
use splitsaathi.Common.Keys.{Text, text_eq, ◌==◌}
use splitsaathi.Common.Dict.{values}
use splitsaathi.Common.Sort.{sort-sum}
use splitsaathi.Common.Tally.{amount_at, first_nonzero_iff, sum_at}
use splitsaathi.Postings.{LedgerPosting}
use splitsaathi.Postings.Balanced.{IsBalanced, total_in}
use splitsaathi.Events.{DomainEvent}
use splitsaathi.Balances.{
  BalanceRow, Balances, add_posting, add_postings, apply, apply_all, apply_group, assert_zero_sum,
  list_group_balances, reset, row_le,
}
use splitsaathi.Balances.Keys.{IsPlain}
use splitsaathi.Balances.Sums.{
  IsValid, add_posting-IsValid, group_total, group_total-add_posting, posting_amount,
}

-- The ids that the projector makes keys of have no colon.
abbrev pub IsPlainGroup : Option Text → Type 0
IsPlainGroup none = Unit
IsPlainGroup (some g) = IsPlain g

abbrev pub IsPlainEvent : {P : Type 0} → DomainEvent P → Type 0
IsPlainEvent event =
    IsPlainGroup event.group_id × All (λ p. IsPlain p.participant_id) event.postings

add_postings-IsValid :
    (h : Text) (m : Balances) (ps : List LedgerPosting)
    → IsValid m
    → IsPlain h
    → All (λ p. IsPlain p.participant_id) ps
    → IsValid (add_postings h m ps)
unfolding add_postings
add_postings-IsValid h m [] v ph pp = v
add_postings-IsValid h m (p ∷ ps) v ph pp =
    add_postings-IsValid h (add_posting h m p) ps (add_posting-IsValid h m p v ph pp.0) ph pp.1

group_total-add_postings :
    (g c h : Text) (m : Balances) (ps : List LedgerPosting)
    → IsValid m
    → IsPlain h
    → All (λ p. IsPlain p.participant_id) ps
    → group_total g c (add_postings h m ps) ≡ group_total g c m +ℤ sum_by (posting_amount g c h) ps
unfolding add_postings
group_total-add_postings g c h m [] v ph pp = omega int_laws
group_total-add_postings g c h m (p ∷ ps) v ph pp =
    let m' = add_posting h m p in
    group_total-add_postings g c h m' ps (add_posting-IsValid h m p v ph pp.0) ph pp.1
    ∙ ap (λ x. x +ℤ sum_by (posting_amount g c h) ps) (group_total-add_posting g c h m p v ph pp.0)
    ∙ +ℤ_assoc (group_total g c m) (posting_amount g c h p) (sum_by (posting_amount g c h) ps)

posting_amount_total :
    (g c h : Text) (ps : List LedgerPosting)
    → sum_by (posting_amount g c h) ps ≡ (if h == g then total_in c ps else pos 0)
unfolding sum_at
posting_amount_total g c h ps = elim (Bool-cases (h == g)) [
  | inl own ↦ rw own (same own ps)
  | inr foreign ↦ rw foreign (zero foreign ps)
]
  where
    same :
        (h == g) ≡ true
        → (qs : List LedgerPosting) → sum_by (posting_amount g c h) qs ≡ total_in c qs
    same own [] = refl
    same own (q ∷ qs) = rw (own, same own qs) refl

    zero : (h == g) ≡ false → (qs : List LedgerPosting) → sum_by (posting_amount g c h) qs ≡ pos 0
    zero foreign [] = refl
    zero foreign (q ∷ qs) = rw (foreign, zero foreign qs) (omega int_laws)

-- A balanced set of postings leaves the totals of every group alone.
balanced_add :
    (g c h : Text) (m : Balances) (ps : List LedgerPosting)
    → IsValid m
    → IsPlain h
    → All (λ p. IsPlain p.participant_id) ps
    → IsBalanced ps
    → group_total g c (add_postings h m ps) ≡ group_total g c m
balanced_add g c h m ps v ph pp b =
    group_total-add_postings g c h m ps v ph pp
    ∙ rw (posting_amount_total g c h ps, b c)
        (elim (Bool-cases (h == g)) [
          | inl own ↦ rw own (omega int_laws)
          | inr foreign ↦ rw foreign (omega int_laws)
        ])

abbrev IsZeroSum : Balances → Type 0
IsZeroSum m = (g c : Text) → group_total g c m ≡ pos 0

apply_group-IsZeroSum :
    (o : Option Text) (m : Balances) (ps : List LedgerPosting)
    → IsPlainGroup o
    → All (λ p. IsPlain p.participant_id) ps
    → IsBalanced ps
    → IsValid m
    → IsZeroSum m
    → IsValid (apply_group o m ps) × IsZeroSum (apply_group o m ps)
unfolding apply_group
apply_group-IsZeroSum none m ps ph pp b v z = (v, z)
apply_group-IsZeroSum (some []) m ps ph pp b v z = (v, z)
apply_group-IsZeroSum (some (d ∷ ds)) m ps ph pp b v z = (
  add_postings-IsValid (d ∷ ds) m ps v ph pp,
  λ g c. balanced_add g c (d ∷ ds) m ps v ph pp b ∙ z g c,
)

apply_all-IsZeroSum :
    {P : Type 0} (m : Balances) (events : List (DomainEvent P))
    → All IsPlainEvent events
    → All (λ e. IsBalanced e.postings) events
    → IsValid m
    → IsZeroSum m
    → IsValid (apply_all m events) × IsZeroSum (apply_all m events)
unfolding apply_all apply
apply_all-IsZeroSum m [] p b v z = (v, z)
apply_all-IsZeroSum m (event ∷ events) p b v z =
    let (v', z') = apply_group-IsZeroSum event.group_id m event.postings p.0.0 p.0.1 b.0 v z in
    apply_all-IsZeroSum (apply m event) events p.1 b.1 v' z'

filter-group_total :
    (g c : Text) (m : Balances)
    → sum_by (amount_at (λ row. row.currency_code) (λ row. row.amount_minor) c) (
        filter
          (λ row. row.group_id == g && (true || not (eqb_ℤ row.amount_minor (pos 0))))
          (values m))
      ≡ group_total g c m
filter-group_total g c [] = refl
filter-group_total g c ((k, row) ∷ m) = elim (Bool-cases (row.group_id == g)) [
  | inl own ↦ rw (own, filter-group_total g c m) refl
  | inr foreign ↦ rw (foreign, filter-group_total g c m) (omega int_laws)
]

-- After any events whose postings balance and whose ids have no colon, `assertZeroSum` reports no
-- currency for any group.
pub assert_zero_sum-none :
    {P : Type 0} (earlier : Text → Text → Bool) (events : List (DomainEvent P)) (g : Text)
    → All IsPlainEvent events
    → All (λ e. IsBalanced e.postings) events
    → assert_zero_sum earlier g (apply_all reset events) ≡ none
unfolding assert_zero_sum sum_at
assert_zero_sum-none earlier events g p b =
    let (_, zero) = apply_all-IsZeroSum reset events p b tt (λ g c. refl) in
    (first_nonzero_iff (λ (row : BalanceRow). row.currency_code) (λ row. row.amount_minor)
        (list_group_balances earlier g true (apply_all reset events))).1
      λ c.
        sort-sum (row_le earlier) _ _ ∙ filter-group_total g c (apply_all reset events) ∙ zero g c
