-- ===== src/StateMachine/Posting.antt =====
-- How often a settlement is posted to the ledger in one run of the state machine.
use splitsaathi.Common.{List, [], arith, ok, refl, suc, zero, ℕ, ◌++◌, ◌+◌, ◌∙◌, ◌∷◌, ◌≡◌, ◌≢◌}
use splitsaathi.StateMachine.{
  SettlementEvent, SettlementState, confirm, confirmed, create_intent, dispute, ledger_posted,
  post_ledger, record_cash, refunded, reversed, run, suggested, transition,
}
use splitsaathi.StateMachine.Runs.{run-append, run_cons}

abbrev is_confirm : SettlementEvent → ℕ
is_confirm confirm = 1
is_confirm _ = 0

abbrev is_post : SettlementEvent → ℕ
is_post post_ledger = 1
is_post _ = 0

abbrev is_dispute : SettlementEvent → ℕ
is_dispute dispute = 1
is_dispute _ = 0

abbrev pub confirms : List SettlementEvent → ℕ
confirms [] = 0
confirms (e ∷ es) = is_confirm e + confirms es

abbrev pub posts : List SettlementEvent → ℕ
posts [] = 0
posts (e ∷ es) = is_post e + posts es

abbrev pub disputes : List SettlementEvent → ℕ
disputes [] = 0
disputes (e ∷ es) = is_dispute e + disputes es

-- A confirmation that waits to be posted.
abbrev pub pending : SettlementState → ℕ
pending confirmed = 1
pending _ = 0

-- Where the ledger holds or has held the postings, if no dispute came between.
abbrev pub posted : SettlementState → ℕ
posted ledger_posted = 1
posted reversed = 1
posted refunded = 1
posted _ = 0

transition-pending :
    (s t : SettlementState) (e : SettlementEvent)
    → transition s e ≡ ok t
    → pending s + is_confirm e ≡ is_post e + pending t
unfolding transition
transition-pending suggested t e h = ground arith
transition-pending _ t e h = ground arith

run-pending :
    (s t : SettlementState) (es : List SettlementEvent)
    → run s es ≡ ok t
    → pending s + confirms es ≡ posts es + pending t
unfolding run
run-pending s t [] h = ground arith
run-pending s t (e ∷ es) h =
    let (u, step, rest) = run_cons s t e es h in
    omega (arith, transition-pending s u e step, run-pending u t es rest)

-- In a run from `suggested` every posting to the ledger follows a confirmation of its own: there are
-- as many confirmations as postings, and one more while the state is `confirmed`.
pub confirms-eq-posts :
    (es : List SettlementEvent) (t : SettlementState)
    → run suggested es ≡ ok t
    → confirms es ≡ posts es + pending t
confirms-eq-posts es t h = omega (arith, run-pending suggested t es h)

-- Before a dispute the states `reversed`, `refunded` and `disputed` are entered from a posted state
-- or not at all.
transition-posted :
    (s t : SettlementState) (e : SettlementEvent)
    → transition s e ≡ ok t
    → is_dispute e ≡ 0
    → s ≢ SettlementState.disputed
    → (posted t ≡ posted s + is_post e) × (t ≢ SettlementState.disputed)
unfolding transition
transition-posted suggested t e h d n = ground arith
transition-posted _ t e h d n = ground arith

run-posted :
    (s t : SettlementState) (es : List SettlementEvent)
    → run s es ≡ ok t
    → disputes es ≡ 0
    → s ≢ SettlementState.disputed
    → posted t ≡ posted s + posts es
unfolding run
run-posted s t [] h d n = ground arith
run-posted s t (e ∷ es) h d n =
    let (u, step, rest) = run_cons s t e es h in
    let (one, free) = transition-posted s u e step (omega arith) n in
    omega (arith, one, run-posted u t es rest (omega arith) free)

-- A run from `suggested` without a dispute posts the settlement exactly once if it ends in
-- `ledger_posted`, `reversed` or `refunded`, and never if it ends elsewhere.
pub posts_without_dispute :
    (es : List SettlementEvent) (t : SettlementState)
    → run suggested es ≡ ok t
    → disputes es ≡ 0
    → posts es ≡ posted t
posts_without_dispute es t h d = omega (arith, run-posted suggested t es h d (λ e. cc))

abbrev again : List SettlementEvent
again = dispute ∷ confirm ∷ post_ledger ∷ []

run-again : run ledger_posted again ≡ ok ledger_posted
unfolding run transition
run-again = refl

abbrev cash : List SettlementEvent
cash = create_intent ∷ record_cash ∷ confirm ∷ post_ledger ∷ []

run-cash : run suggested cash ≡ ok ledger_posted
unfolding run transition
run-cash = refl

posts-append : (es fs : List SettlementEvent) → posts (es ++ fs) ≡ posts es + posts fs
posts-append [] fs = omega arith
posts-append (e ∷ es) fs = omega (arith, posts-append es fs)

-- A posted settlement can be disputed, confirmed and posted again, any number of times: for every n
-- there is a run from `suggested` to `ledger_posted` with n + 1 postings.
pub posts_unbounded :
    (n : ℕ)
    → (es : List SettlementEvent) × (run suggested es ≡ ok ledger_posted) × (posts es ≡ n + 1)
posts_unbounded zero = (cash, run-cash, omega arith)
posts_unbounded (suc n) =
    let (es, reached, count) = posts_unbounded n in
    (
      es ++ again,
      run-append suggested ledger_posted es again reached ∙ run-again,
      omega (arith, posts-append es again),
    )
