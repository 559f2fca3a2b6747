-- ===== src/Common/Dict.antt =====
-- A JavaScript Map: entries in the order of insertion, and a write to a key that is there keeps its
-- place.
use mathlib.Core.Path.{◌≡◌, subst, refl, sym, ap}
use mathlib.Core.Option.{Option, none, some}
use mathlib.Core.List.{List, [], ◌∷◌}
use native.Mathlib.Omega.{arith}
use mathlib.Core.Logic.{inl, inr}
use splitsaathi.Common.Tests.{Bool-cases, Option-cases, if◌then◌else◌, or_default}
use splitsaathi.Common.Lists.{All}
use splitsaathi.Common.Int.{int_laws, neg_part, pos, pos_part, ℤ, ◌+ℤ◌}
use splitsaathi.Common.Keys.{HasEq, text_eq, ◌==◌}

abbrev pub Dict {ℓ κ} : Type ℓ → Type κ → Type (ℓ ⊔ κ)
Dict K V = List (K × V)

module _ {ℓ κ} {K : Type ℓ} {V : Type κ} ⦃e : HasEq K⦄ where
  -- `m.get(k)`
  abbrev pub get : K → Dict K V → Option V
  get k [] = none
  get k ((j, v) ∷ m) = if k == j then some v else get k m

  -- `m.set(k, v)`
  abbrev pub set : K → V → Dict K V → Dict K V
  set k v [] = (k, v) ∷ []
  set k v ((j, w) ∷ m) = if k == j then (j, v) ∷ m else (j, w) ∷ set k v m

  -- A write is seen at its key, and at no other.
  pub get-set :
      (j k : K) (v : V) (m : Dict K V) → get j (set k v m) ≡ (if j == k then some v else get j m)
  get-set j k v [] = refl
  get-set j k v ((i, w) ∷ m) =
      ground (arith, e.same_iff j k, e.same_iff k i, e.same_iff j i, get-set j k v m)

  -- `[...m.values()]`
  abbrev pub values : Dict K V → List V
  values [] = []
  values ((k, v) ∷ m) = v ∷ values m

  -- No key stands twice.
  abbrev pub IsKeyed : Dict K V → Type κ
  IsKeyed [] = Unit
  IsKeyed ((k, v) ∷ m) = (get k m ≡ none) × IsKeyed m

  pub set-IsKeyed : (k : K) (v : V) (m : Dict K V) → IsKeyed m → IsKeyed (set k v m)
  set-IsKeyed k v [] h = (refl, tt)
  set-IsKeyed k v ((j, w) ∷ m) h =
      ground (arith, set-IsKeyed k v m h.1, get-set j k v m, e.same_iff j k, e.same_iff k j)

  -- A property of all entries holds of what is found, and survives a write that has it.
  pub All-get {μ} :
      (P : K × V → Type μ) (k : K) (v : V) (m : Dict K V) → All P m → get k m ≡ some v → P (k, v)
  All-get P k v [] h f = cc
  All-get P k v ((j, w) ∷ m) h f = elim (Bool-cases (k == j)) [
    | inl same ↦
        let found : w ≡ v = cc (rw same at f) in
        subst (λ x. P (k, x)) found (rw (sym ((e.same_iff k j).0 same)) at h.0)
    | inr other ↦ All-get P k v m h.1 (rw other at f)
  ]

  pub set-All {μ} :
      (P : K × V → Type μ) (k : K) (v : V) (m : Dict K V) → All P m → P (k, v) → All P (set k v m)
  set-All P k v [] h p = (p, tt)
  set-All P k v ((j, w) ∷ m) h p = elim (Bool-cases (k == j)) [
    | inl same ↦ rw same (rw ((e.same_iff k j).0 same) at p, h.1)
    | inr other ↦ rw other (h.0, set-All P k v m h.1 p)
  ]

  -- The sum of `f` over the values.
  abbrev pub sum_values : (V → ℤ) → Dict K V → ℤ
  sum_values f [] = pos 0
  sum_values f ((k, v) ∷ m) = f v +ℤ sum_values f m

  pub sum_values-set_new :
      (f : V → ℤ) (k : K) (v : V) (m : Dict K V)
      → get k m ≡ none
      → sum_values f (set k v m) ≡ sum_values f m +ℤ f v
  sum_values-set_new f k v [] h = omega int_laws
  sum_values-set_new f k v ((j, w) ∷ m) h = elim (Bool-cases (k == j)) [
    | inl same ↦ cc (rw same at h)
    | inr other ↦ rw other (rw (sum_values-set_new f k v m (rw other at h)) (omega int_laws))
  ]

  pub sum_values-set :
      (f : V → ℤ) (k : K) (v old : V) (m : Dict K V)
      → get k m ≡ some old
      → sum_values f (set k v m) +ℤ f old ≡ sum_values f m +ℤ f v
  sum_values-set f k v old [] h = cc
  sum_values-set f k v old ((j, w) ∷ m) h = elim (Bool-cases (k == j)) [
    | inl same ↦ let found : w ≡ old = cc (rw same at h) in rw (same, found) (omega int_laws)
    | inr other ↦
        let rest = sum_values-set f k v old m (rw other at h) in
        rw other (omega (int_laws, ap pos_part rest, ap neg_part rest))
  ]

  -- The same for a write over the value found, or over a default that counts for nothing.
  pub sum_values-set_default :
      (f : V → ℤ) (k : K) (v d : V) (m : Dict K V)
      → f d ≡ pos 0
      → sum_values f (set k v m) +ℤ f (or_default d (get k m)) ≡ sum_values f m +ℤ f v
  sum_values-set_default f k v d m z = elim (Option-cases (get k m)) [
    | inl new ↦ rw (new, z, sum_values-set_new f k v m new) (omega int_laws)
    | inr (old, found) ↦ rw found (sum_values-set f k v old m found)
  ]
