-- ===== src/Balances/Keys.antt =====
-- The keys of the balance map: `balanceKey` of apps/api/src/modules/ledger/balance.projector.ts.
use splitsaathi.Common.{All, [], refl, ◌++◌, ◌∷◌, ◌≡◌, ◌≢◌}
use splitsaathi.Common.Keys.{Text}
use splitsaathi.Balances.{balance_key}

-- A text with no colon, such as a UUID.
abbrev pub IsPlain : Text → Type 0
IsPlain t = All (λ c. c ≢ b':') t

-- A text without colon is read off the front of a text that goes on with a colon.
pub plain_prefix :
    (a b x y : Text) → IsPlain a → IsPlain b → a ++ b':' ∷ x ≡ b ++ b':' ∷ y → (a ≡ b) × (x ≡ y)
plain_prefix [] [] x y ha hb e = (refl, cc)
plain_prefix [] (d ∷ b) x y ha hb e = absurd (hb.0 (cc))
plain_prefix (c ∷ a) [] x y ha hb e = absurd (ha.0 (cc))
plain_prefix (c ∷ a) (d ∷ b) x y ha hb e =
    let (same, rest) = plain_prefix a b x y ha.1 hb.1 (cc) in (cc, rest)

-- Two keys are equal only for the same group, participant and currency, if neither the group's nor
-- the participant's id has a colon.
pub balance_key-injective :
    (g h p q c d : Text)
    → IsPlain g
    → IsPlain h
    → IsPlain p
    → IsPlain q
    → balance_key g p c ≡ balance_key h q d
    → (g ≡ h) × (p ≡ q) × (c ≡ d)
unfolding balance_key
balance_key-injective g h p q c d pg ph pp pq e =
    let (gs, rest) = plain_prefix g h (p ++ b':' ∷ c) (q ++ b':' ∷ d) pg ph e in
    let (ps, cs) = plain_prefix p q c d pp pq rest in (gs, ps, cs)
