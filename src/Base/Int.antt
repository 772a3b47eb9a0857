-- ===== src/Base/Int.antt =====
-- `i64` values as integers over the native numbers, with the checked sum.
use Prim.Native.Nat.{ℕ, suc, ◌+◌, ◌-◌, ◌^◌, ◌≤◌}
use mathlib.Core.Path.{◌≡◌}
use mathlib.Core.Logic.{◌↔◌}
use mathlib.Core.Bool.{Bool, true, false}
use mathlib.Core.Option.{Option, none, some}
use native.Mathlib.Omega.{arith}
use unified_correctness_orie.Base.Tests.{leb, eqb, if◌then◌else◌}
use unified_correctness_orie.Base.Equality.{Eq}

-- `negsuc n` is -(n + 1).
pub data ℤ : Type 0 where
  pos : ℕ → ℤ
  negsuc : ℕ → ℤ

abbrev pub pos_part : ℤ → ℕ
pos_part (pos n) = n
pos_part (negsuc n) = 0

abbrev pub neg_part : ℤ → ℕ
neg_part (pos n) = 0
neg_part (negsuc n) = suc n

abbrev pub sub_ℕ : ℕ → ℕ → ℤ
sub_ℕ a b = if leb b a then pos (a - b) else negsuc (b - a - 1)

infixl 65 ◌+ℤ◌
abbrev pub ◌+ℤ◌ : ℤ → ℤ → ℤ
a +ℤ b = sub_ℕ (pos_part a + pos_part b) (neg_part a + neg_part b)

abbrev pub int_beq : ℤ → ℤ → Bool
int_beq (pos a) (pos b) = eqb a b
int_beq (negsuc a) (negsuc b) = eqb a b
int_beq _ _ = false

pub int_beq_iff : (a b : ℤ) → (int_beq a b ≡ true) ↔ (a ≡ b)
int_beq_iff (pos a) (pos b) = ground arith
int_beq_iff (negsuc a) (negsuc b) = ground arith
int_beq_iff (pos a) (negsuc b) = ((λ h. cc), (λ h. cc))
int_beq_iff (negsuc a) (pos b) = ((λ h. cc), (λ h. cc))

instance abbrev pub int_eq : Eq ℤ
int_eq = record { beq = int_beq; beq_iff = int_beq_iff }

abbrev pub i64_limit : ℕ
i64_limit = 2 ^ 63

-- -2^63 up to 2^63 - 1.
abbrev pub in_i64 : ℤ → Bool
in_i64 (pos n) = leb (suc n) i64_limit
in_i64 (negsuc n) = leb (suc n) i64_limit

abbrev pub IsI64 : ℤ → Type 0
IsI64 (pos n) = suc n ≤ i64_limit
IsI64 (negsuc n) = suc n ≤ i64_limit

-- `i64::checked_add`
unfoldable pub checked_add : ℤ → ℤ → Option ℤ
checked_add a b = if in_i64 (a +ℤ b) then some (a +ℤ b) else none

pub checked_add-IsI64 : (a b : ℤ) {c : ℤ} → checked_add a b ≡ some c → (c ≡ a +ℤ b) × IsI64 c
unfolding checked_add
checked_add-IsI64 a b {c} h = ground arith
