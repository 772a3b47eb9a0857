-- ===== src/Base/Dict/Records.antt =====
-- A map that records the items of a list, each under a key of its own.
use mathlib.Core.Path.{◌≡◌, refl, sym, subst}
use mathlib.Core.Logic.{◌⊎◌, inl, inr}
use mathlib.Core.Bool.{true, false}
use mathlib.Core.Option.{some}
use mathlib.Core.List.{List, [], ◌∷◌, ◌++◌}
use unified_correctness_orie.Base.Tests.{Bool-cases}
use unified_correctness_orie.Base.Lists.{All}
use unified_correctness_orie.Base.Equality.{Eq, ◌==◌}
use unified_correctness_orie.Base.Dict.{Dict, get, insert, has, get-insert}

module _ {X : Type 0} where
  -- An item of the list satisfies the predicate.
  abbrev pub Occurs : (X → Type 0) → List X → Type 0
  Occurs P [] = ⊥
  Occurs P (x ∷ xs) = P x ⊎ Occurs P xs

  module _ (P : X → Type 0) where
    Occurs-left : (xs ys : List X) → Occurs P xs → Occurs P (xs ++ ys)
    Occurs-left [] ys h = absurd h
    Occurs-left (x ∷ xs) ys (inl h) = inl h
    Occurs-left (x ∷ xs) ys (inr later) = inr (Occurs-left xs ys later)

    Occurs-right : (xs ys : List X) → Occurs P ys → Occurs P (xs ++ ys)
    Occurs-right [] ys h = h
    Occurs-right (x ∷ xs) ys h = inr (Occurs-right xs ys h)

    pub Occurs-split : (xs ys : List X) → Occurs P (xs ++ ys) → Occurs P xs ⊎ Occurs P ys
    Occurs-split [] ys h = inr h
    Occurs-split (x ∷ xs) ys (inl h) = inl (inl h)
    Occurs-split (x ∷ xs) ys (inr later) = elim (Occurs-split xs ys later) [
      | inl left ↦ inl (inr left)
      | inr right ↦ inr right
    ]

-- `P key c x`: the item is recorded under the key, with the content.
module _ {X K R C : Type 0} ⦃e : Eq K⦄ (content : R → C) (P : K → C → X → Type 0) where
  -- The second map has the records of the first one, and those of the items, and no other.
  abbrev pub Records : Dict K R → Dict K R → List X → Type 0
  Records d d' xs =
      ((key : K) (r : R) → get key d ≡ some r → get key d' ≡ some r)
      × ((key : K) (r : R)
          → get key d' ≡ some r
          → Occurs (P key (content r)) xs ⊎ (get key d ≡ some r))
      × ((key : K) (c : C)
          → Occurs (P key c) xs
          → (r : R) × (get key d' ≡ some r) × (content r ≡ c))

  pub Records-nil : (d : Dict K R) → Records d d []
  Records-nil d = ((λ key r h. h), (λ key r h. inr h), (λ key c h. absurd h))

  pub Records-append :
      (d d' d'' : Dict K R) (xs ys : List X)
      → Records d d' xs
      → Records d' d'' ys
      → Records d d'' (xs ++ ys)
  Records-append d d' d'' xs ys (keep, source, found) (keep', source', found') = (
    (λ key r h. keep' key r (keep key r h)),
    (λ key r h. elim (source' key r h) [
      | inl o ↦ inl (Occurs-right (P key (content r)) xs ys o)
      | inr before ↦ elim (source key r before) [
        | inl o ↦ inl (Occurs-left (P key (content r)) xs ys o)
        | inr b ↦ inr b
      ]
    ]),
    (λ key c o. elim (Occurs-split (P key c) xs ys o) [
      | inl a ↦ (let (r, g, q) = found key c a in (r, keep' key r g, q))
      | inr b ↦ found' key c b
    ]),
  )

  pub Records-skip :
      (d : Dict K R) (x : X) → ((key : K) (c : C) → P key c x → ⊥) → Records d d (x ∷ [])
  Records-skip d x other = (
    (λ key r h. h),
    (λ key r h. inr h),
    (λ key c o. elim o [ inl h ↦ absurd (other key c h) | inr none_left ↦ absurd none_left ]),
  )

  absent : (d : Dict K R) (key : K) (r : R) → has key d ≡ false → get key d ≡ some r → ⊥
  absent d key r fresh h = let found : true ≡ false = rw (has, h) at fresh in cc

  -- A new key is inserted for an item that is recorded under this key alone.
  pub Records-insert :
      (d : Dict K R) (key₀ : K) (r₀ : R) (x : X)
      → has key₀ d ≡ false
      → P key₀ (content r₀) x
      → ((key : K) (c : C) → P key c x → (key ≡ key₀) × (c ≡ content r₀))
      → Records d (insert key₀ r₀ d) (x ∷ [])
  Records-insert d key₀ r₀ x fresh here only = (
    (λ key r h. elim (Bool-cases (key₀ == key)) [
      | inl same ↦
          absurd
            (absent d key r (subst (λ k. has k d ≡ false) ((e.beq_iff key₀ key).0 same) fresh) h)
      | inr other ↦ rw (get-insert key₀ key r₀ d, other) h
    ]),
    (λ key r h. elim (Bool-cases (key₀ == key)) [
      | inl same ↦
          let stored : some r₀ ≡ some r = rw (get-insert key₀ key r₀ d, same) at h in
          let value : r₀ ≡ r = cc in
          inl (
            inl (
              subst (λ s. P key (content s) x) value
                (subst (λ k. P k (content r₀) x) ((e.beq_iff key₀ key).0 same) here)))
      | inr other ↦ inr (rw (get-insert key₀ key r₀ d, other) at h)
    ]),
    (λ key c o. elim o [
      | inl h ↦
          let (place, value) = only key c h in
          let same : (key₀ == key) ≡ true = (e.beq_iff key₀ key).1 (sym place) in
          (r₀, (rw (get-insert key₀ key r₀ d, same) refl), sym value)
      | inr none_left ↦ absurd none_left
    ]),
  )

-- What holds for the entries of a map holds for what a look-up finds.
pub All-get :
    {K R : Type 0} ⦃e : Eq K⦄ (Q : K × R → Type 0) (d : Dict K R) (key : K) (r : R)
    → All Q d
    → get key d ≡ some r
    → Q (key, r)
unfolding get
All-get Q [] key r all h = cc
All-get ⦃e⦄ Q ((k, v) ∷ d) key r all h = elim (Bool-cases (k == key)) [
  | inl same ↦
      let stored : some v ≡ some r = rw same at h in
      let value : v ≡ r = cc in
      subst (λ j. Q (j, r)) ((e.beq_iff k key).0 same) (subst (λ w. Q (k, w)) value all.0)
  | inr other ↦ All-get Q d key r all.1 (rw other at h)
]
