-- ===== src/Base/Writer.antt =====
-- Code that appends to the trace: the result, and what is recorded, in order.
use mathlib.Core.List.{List, [], ◌++◌}

abbrev pub Writer {ℓ κ} : Type ℓ → Type κ → Type (ℓ ⊔ κ)
Writer W A = A × List W

infixl 5 ◌>>=◌ ◌>>◌
abbrev pub ◌>>=◌ {ℓ κ μ} :
    {W : Type ℓ} {A : Type κ} {B : Type μ} → Writer W A → (A → Writer W B) → Writer W B
m >>= f = let r = f m.0 in (r.0, m.1 ++ r.1)

abbrev pub ◌>>◌ {ℓ μ} : {W : Type ℓ} {B : Type μ} → Writer W (Unit {0}) → Writer W B → Writer W B
m >> k = m >>= λ _. k

abbrev pub pure {ℓ κ} : {W : Type ℓ} {A : Type κ} → A → Writer W A
pure a = (a, [])

abbrev pub tell {ℓ} : {W : Type ℓ} → List W → Writer W (Unit {0})
tell w = (tt, w)
