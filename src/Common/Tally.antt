-- ===== src/Common/Tally.antt =====
-- Totals by key, in a Map: `for (const x of xs) totals.set(key(x), (totals.get(key(x)) ?? 0) + amount(x))`,
-- and the search for a total that is not zero. `BalancedPostingSet.create`, `assertZeroSum` and
-- `ledgerPostingsTotalByCurrency` are such loops.
use splitsaathi.Common.Tests.{Bool-cases, if◌then◌else◌, or_default}
use splitsaathi.Common.Int.{eqb_ℤ, int_laws, pos, sum_by, zero-+ℤ, ℤ, ◌+ℤ◌}
use splitsaathi.Common.Keys.{Text, text_beq_iff, text_eq, ◌==◌}
use splitsaathi.Common.Dict.{Dict, IsKeyed, get, get-set, set, set-IsKeyed}
use mathlib.Core.Path.{◌≡◌, refl, sym, ◌∙◌}
use mathlib.Core.Logic.{◌≢◌, ◌↔◌, inl, inr}
use mathlib.Core.Bool.{not}
use mathlib.Core.Option.{Option, none, some}
use mathlib.Core.List.{List, [], ◌∷◌}
use native.Mathlib.Omega.{arith}

module _ {ℓ} {A : Type ℓ} (key : A → Text) (amount : A → ℤ) where
  -- One round of the loop.
  abbrev pub add_total : Dict Text ℤ → A → Dict Text ℤ
  add_total totals x = set (key x) (or_default (pos 0) (get (key x) totals) +ℤ amount x) totals

  unfoldable pub add_totals : Dict Text ℤ → List A → Dict Text ℤ
  add_totals totals [] = totals
  add_totals totals (x ∷ xs) = add_totals (add_total totals x) xs

  -- What is summed under key `c`.
  abbrev pub amount_at : Text → A → ℤ
  amount_at c x = if c == key x then amount x else pos 0

  unfoldable pub sum_at : Text → List A → ℤ
  sum_at c xs = sum_by (amount_at c) xs

  add_total_lem :
      (c : Text) (m : Dict Text ℤ) (x : A)
      → or_default (pos 0) (get c (add_total m x)) ≡ or_default (pos 0) (get c m) +ℤ amount_at c x
  add_total_lem c m x = rw (get-set c (key x) _ m) (elim (Bool-cases (c == key x)) [
    | inl e ↦ rw (e, (text_beq_iff c (key x)).0 e) refl
    | inr e ↦ rw e (omega int_laws)
  ])

  -- The map holds under each key the sum of its amounts.
  pub add_totals_lem :
      (c : Text) (m : Dict Text ℤ) (xs : List A)
      → or_default (pos 0) (get c (add_totals m xs)) ≡ or_default (pos 0) (get c m) +ℤ sum_at c xs
  unfolding add_totals sum_at
  add_totals_lem c m [] = omega int_laws
  add_totals_lem c m (x ∷ xs) =
      add_totals_lem c (add_total m x) xs ∙ rw (add_total_lem c m x) (omega int_laws)

  add_totals-IsKeyed : (m : Dict Text ℤ) (xs : List A) → IsKeyed m → IsKeyed (add_totals m xs)
  unfolding add_totals
  add_totals-IsKeyed m [] h = h
  add_totals-IsKeyed m (x ∷ xs) h =
      add_totals-IsKeyed (add_total m x) xs (set-IsKeyed (key x) _ m h)

-- `for (const [key, total] of totals.entries()) if (total !== 0) …`: the first that is not zero.
unfoldable pub first_nonzero : Dict Text ℤ → Option (Text × ℤ)
first_nonzero [] = none
first_nonzero ((c, total) ∷ totals) =
    if not (eqb_ℤ total (pos 0)) then some (c, total) else first_nonzero totals

first_nonzero-none :
    (m : Dict Text ℤ) (c : Text) → first_nonzero m ≡ none → or_default (pos 0) (get c m) ≡ pos 0
unfolding first_nonzero
first_nonzero-none [] c h = refl
first_nonzero-none ((k, v) ∷ m) c h = ground (arith, first_nonzero-none m c)

first_nonzero-some :
    (m : Dict Text ℤ) (c : Text) (t : ℤ)
    → IsKeyed m
    → first_nonzero m ≡ some (c, t)
    → (get c m ≡ some t) × (t ≢ pos 0)
unfolding first_nonzero
first_nonzero-some [] c t k h = cc
first_nonzero-some ((k, v) ∷ m) c t (new, keyed) h =
    ground (arith, text_beq_iff c k, first_nonzero-some m c t keyed)

module _ {ℓ} {A : Type ℓ} (key : A → Text) (amount : A → ℤ) where
  -- What it finds is a key that does not sum to zero, with its sum.
  pub first_nonzero_sum :
      (xs : List A) (c : Text) (t : ℤ)
      → first_nonzero (add_totals key amount [] xs) ≡ some (c, t)
      → (sum_at key amount c xs ≡ t) × (t ≢ pos 0)
  first_nonzero_sum xs c t h =
      let (at_key, nonzero) =
        first_nonzero-some (add_totals key amount [] xs) c t
          (add_totals-IsKeyed key amount [] xs tt) h in
      let total = add_totals_lem key amount c [] xs in
      (sym (zero-+ℤ (sum_at key amount c xs)) ∙ sym total ∙ rw at_key refl, nonzero)

  -- The search over the totals finds nothing exactly when each key sums to zero.
  pub first_nonzero_iff :
      (xs : List A)
      → (first_nonzero (add_totals key amount [] xs) ≡ none)
        ↔ ((c : Text) → sum_at key amount c xs ≡ pos 0)
  first_nonzero_iff xs = (
    λ h c.
        sym (zero-+ℤ (sum_at key amount c xs))
        ∙ sym (add_totals_lem key amount c [] xs)
        ∙ first_nonzero-none (add_totals key amount [] xs) c h,
    λ h. all_zero (first_nonzero (add_totals key amount [] xs)) refl h,
  )
    where
      all_zero :
          (o : Option (Text × ℤ))
          → first_nonzero (add_totals key amount [] xs) ≡ o
          → ((c : Text) → sum_at key amount c xs ≡ pos 0)
          → first_nonzero (add_totals key amount [] xs) ≡ none
      all_zero none e h = e
      all_zero (some (c, t)) e h =
          let (sum, nonzero) = first_nonzero_sum xs c t e in absurd (nonzero (sym sum ∙ h c))
