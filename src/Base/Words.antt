-- ===== src/Base/Words.antt =====
-- `u64` and `u128` arithmetic as the source uses it: saturating, wrapping, and `+= 1`.
use Prim.Native.Nat.{ℕ, ◌+◌, ◌%◌, ◌^◌, ◌<◌, min}
use native.Mathlib.Omega.{arith}

abbrev pub u64_mod : ℕ
u64_mod = 2 ^ 64

abbrev pub u128_mod : ℕ
u128_mod = 2 ^ 128

-- `u64::saturating_add`
abbrev pub sat_add : ℕ → ℕ → ℕ
sat_add a b = min (a + b) 0xffff_ffff_ffff_ffff

-- `*seq += 1` on a `u64`, as a release build computes it
abbrev pub wrap_inc : ℕ → ℕ
wrap_inc a = (a + 1) % u64_mod

-- `u128::wrapping_add`
abbrev pub wrap_add : ℕ → ℕ → ℕ
wrap_add a b = (a + b) % u128_mod

pub sat_add-lt : (a b : ℕ) → sat_add a b < u64_mod
sat_add-lt a b = omega arith
