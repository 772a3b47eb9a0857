-- ===== src/Base/Dict/Unseen.antt =====
-- How many entries of a map have a key that a set does not hold: the measure of a walk that marks
-- the keys it visits.
use Prim.Native.Nat.{ℕ, ◌+◌, ◌≤◌, ◌<◌}
use mathlib.Core.Path.{◌≡◌}
use mathlib.Core.Logic.{inl, inr}
use mathlib.Core.Bool.{Bool, true, false}
use mathlib.Core.Option.{some}
use mathlib.Core.List.{List, [], ◌∷◌}
use native.Mathlib.Omega.{arith}
use unified_correctness_orie.Base.Tests.{if◌then◌else◌, Bool-cases}
use unified_correctness_orie.Base.Lists.{length}
use unified_correctness_orie.Base.Equality.{Eq, ◌==◌, ==_refl}
use unified_correctness_orie.Base.Dict.{Dict, get, contains}

abbrev new : Bool → ℕ
new true = 0
new false = 1

module _ {ℓ} {K : Type ℓ} ⦃e : Eq K⦄ where
  contains-new :
      (visited : List K) (key k : K) → new (contains (key ∷ visited) k) ≤ new (contains visited k)
  unfolding contains
  contains-new visited key k = ground arith

module _ {ℓ κ} {K : Type ℓ} {V : Type κ} ⦃e : Eq K⦄ where
  unfoldable pub unseen : List K → Dict K V → ℕ
  unseen visited [] = 0
  unseen visited ((k, v) ∷ m) = new (contains visited k) + unseen visited m

  pub unseen-le-length : (visited : List K) (m : Dict K V) → unseen visited m ≤ length m
  unfolding unseen
  unseen-le-length visited [] = omega arith
  unseen-le-length visited ((k, v) ∷ m) = ground (arith, unseen-le-length visited m)

  unseen-le :
      (visited : List K) (key : K) (m : Dict K V) → unseen (key ∷ visited) m ≤ unseen visited m
  unfolding unseen
  unseen-le visited key [] = omega arith
  unseen-le visited key ((k, v) ∷ m) =
      omega (arith, contains-new visited key k, unseen-le visited key m)

  -- Marking a key of the map that was not marked.
  pub unseen-less :
      (visited : List K) (key : K) (m : Dict K V) {v : V}
      → get key m ≡ some v
      → contains visited key ≡ false
      → unseen (key ∷ visited) m < unseen visited m
  unfolding unseen get contains
  unseen-less visited key [] {v} held fresh = cc
  unseen-less visited key ((k, w) ∷ m) {v} held fresh = elim (Bool-cases (k == key)) [
    | inl same ↦ here ((e.beq_iff k key).0 same)
    | inr other ↦
        let later : get key m ≡ some v = rw other at held in
        let apart : (key == k) ≡ false = ground (arith, e.beq_iff k key, e.beq_iff key k) in
        rw apart (omega (arith, unseen-less visited key m later fresh))
  ]
    where
      here :
          k ≡ key
          → new (if key == k then true else contains visited k) + unseen (key ∷ visited) m
            < new (contains visited k) + unseen visited m
      here same = rw (same, ==_refl key, fresh) (omega (arith, unseen-le visited key m))
