-- ===== src/Base/Text/Numbers.antt =====
-- What parsing gives back of a printed number.
use Prim.Native.Nat.{ℕ, zero, suc, ◌+◌, ◌*◌, ◌/◌, ◌%◌, ◌^◌, ◌-◌, ◌≤◌, ◌<◌}
use mathlib.Core.Path.{◌≡◌, refl, sym, ap, ◌∙◌}
use mathlib.Core.Logic.{inl, inr}
use mathlib.Core.Bool.{true, false}
use mathlib.Core.Option.{Option, none, some}
use mathlib.Core.List.{[], ◌∷◌}
use native.Mathlib.Omega.{arith}
use native.Mathlib.Numerals.{unary_clauses}
use unified_correctness_orie.Base.Tests.{ltb, leb, eqb, if◌then◌else◌, Bool-cases, ltb→lt, lt→ltb}
use unified_correctness_orie.Base.Lists.{All, length}
use unified_correctness_orie.Base.Int.{ℤ, pos, negsuc, IsI64, i64_limit}
use unified_correctness_orie.Base.Words.{u64_mod}
use unified_correctness_orie.Base.Text.{
  Text, decimal, decimal_from, digits, digits_from, parse_u64, parse_i64, below, positive, negative,
}

abbrev pub IsDigit : ℕ → Type 0
IsDigit c = (48 ≤ c) × (c ≤ 57)

decimal_from-digits :
    (fuel n : ℕ) (out : Text) → All IsDigit out → All IsDigit (decimal_from fuel n out)
unfolding decimal_from
decimal_from-digits zero n out h = h
decimal_from-digits (suc fuel) n out h = elim (Bool-cases (ltb n 10)) [
  | inl small ↦ rw small ((omega arith, omega (arith, ltb→lt n 10 small)), h)
  | inr big ↦ rw big (decimal_from-digits fuel (n / 10) _ ((omega arith, omega arith), h))
]

pub decimal-digits : (n : ℕ) → All IsDigit (decimal n)
unfolding decimal
decimal-digits n = decimal_from-digits 20 n [] tt

decimal_from-positive :
    (fuel n : ℕ) (out : Text) → 0 < fuel + length out → 0 < length (decimal_from fuel n out)
unfolding decimal_from
decimal_from-positive zero n out h = omega arith
decimal_from-positive (suc fuel) n out h = elim (Bool-cases (ltb n 10)) [
  | inl small ↦ rw small (omega arith)
  | inr big ↦ rw big (decimal_from-positive fuel (n / 10) ((48 + n % 10) ∷ out) (omega arith))
]

digit_read :
    (n d : ℕ) (out : Text) → d ≤ 9 → digits_from n ((48 + d) ∷ out) ≡ digits_from (n * 10 + d) out
unfolding digits_from
digit_read n d out h =
    let low : leb 48 (48 + d) ≡ true = ground arith in
    let high : leb (48 + d) 57 ≡ true = ground arith in
    let value : 48 + d - 48 ≡ d = omega arith in rw (low, high, value) refl

digits_from-decimal_from :
    (fuel n : ℕ) (out : Text)
    → n < 10 ^ fuel
    → digits_from 0 (decimal_from fuel n out) ≡ digits_from n out
unfolding decimal_from
digits_from-decimal_from zero n out h =
    let none_left : n ≡ 0 = omega arith in ap (λ m. digits_from m out) (sym none_left)
digits_from-decimal_from (suc fuel) n out h = elim (Bool-cases (ltb n 10)) [
  | inl small ↦
      let value : 0 * 10 + n ≡ n = omega arith in
      rw small
        (digit_read 0 n out (omega (arith, ltb→lt n 10 small)) ∙ ap (λ m. digits_from m out) value)
  | inr big ↦
      let value : n / 10 * 10 + n % 10 ≡ n = omega arith in
      rw big (
        digits_from-decimal_from fuel (n / 10) ((48 + n % 10) ∷ out)
          (omega (arith, simp unary_clauses at h))
        ∙ digit_read (n / 10) (n % 10) out (omega arith)
        ∙ ap (λ m. digits_from m out) value)
]

-- A text of digits is read as a number, and not as one with a sign.
parse_u64-digits :
    (c : ℕ) (cs : Text)
    → All IsDigit (c ∷ cs)
    → parse_u64 (c ∷ cs) ≡ below u64_mod (digits_from 0 (c ∷ cs))
unfolding parse_u64 digits
parse_u64-digits c cs h = let unsigned : eqb c b'+' ≡ false = ground arith in rw unsigned refl

parse_u64-of_digits :
    (s : Text) → All IsDigit s → 0 < length s → parse_u64 s ≡ below u64_mod (digits_from 0 s)
parse_u64-of_digits [] h long = absurd (omega arith)
parse_u64-of_digits (c ∷ cs) h long = parse_u64-digits c cs h

decimal-length : (n : ℕ) → 0 < length (decimal n)
unfolding decimal decimal_from
decimal-length n = decimal_from-positive 20 n [] (omega arith)

below-lt : (n : ℕ) → n < u64_mod → below u64_mod (some n) ≡ some n
below-lt n h = rw (lt→ltb n u64_mod h) refl

-- A number of 64 bits that is printed is read back.
pub parse_u64-decimal : (n : ℕ) → n < u64_mod → parse_u64 (decimal n) ≡ some n
unfolding decimal digits_from
parse_u64-decimal n h =
    parse_u64-of_digits (decimal n) (decimal-digits n) (decimal-length n)
    ∙ ap (below u64_mod) (digits_from-decimal_from 20 n [] (omega arith))
    ∙ below-lt n h

digits-of_digits : (s : Text) → 0 < length s → digits s ≡ digits_from 0 s
unfolding digits
digits-of_digits [] h = absurd (omega arith)
digits-of_digits (c ∷ cs) h = refl

-- The digits of a printed number are its value.
digits-decimal : (n : ℕ) → n < u64_mod → digits (decimal n) ≡ some n
unfolding decimal digits_from
digits-decimal n h =
    digits-of_digits (decimal n) (decimal-length n) ∙ digits_from-decimal_from 20 n [] (omega arith)

-- `to_string` of an `i64`
abbrev pub int_text : ℤ → Text
int_text (pos n) = decimal n
int_text (negsuc n) = b'-' ∷ decimal (suc n)

positive_read : (s : Text) → All IsDigit s → 0 < length s → parse_i64 s ≡ positive (digits s)
unfolding parse_i64
positive_read [] h long = absurd (omega arith)
positive_read (c ∷ cs) h long =
    let no_minus : eqb c b'-' ≡ false = ground arith in
    let no_plus : eqb c b'+' ≡ false = ground arith in rw (no_minus, no_plus) refl

negative_read : (s : Text) → parse_i64 (b'-' ∷ s) ≡ negative (digits s)
unfolding parse_i64
negative_read s = refl

-- An integer of 64 bits that is printed is read back.
pub parse_i64-int_text : (z : ℤ) → IsI64 z → parse_i64 (int_text z) ≡ some z
parse_i64-int_text (pos n) h =
    positive_read (decimal n) (decimal-digits n) (decimal-length n)
    ∙ ap positive (digits-decimal n (omega arith))
    ∙ (rw (lt→ltb n i64_limit (omega arith)) refl)
parse_i64-int_text (negsuc n) h =
    negative_read (decimal (suc n))
    ∙ ap negative (digits-decimal (suc n) (omega arith))
    ∙ (rw (lt→ltb n i64_limit (omega arith)) refl)

from_below : (o : Option ℕ) {n : ℕ} → below u64_mod o ≡ some n → n < u64_mod
from_below none {n} h = ground arith
from_below (some m) {n} h = ground arith

-- A number that is read fits into 64 bits.
pub parse_u64-lt : (s : Text) {n : ℕ} → parse_u64 s ≡ some n → n < u64_mod
unfolding parse_u64
parse_u64-lt [] {n} h = ground arith
parse_u64-lt (c ∷ cs) {n} h = from_below (if eqb c b'+' then digits cs else digits (c ∷ cs)) h

positive-IsI64 : (o : Option ℕ) {z : ℤ} → positive o ≡ some z → IsI64 z
positive-IsI64 none {z} h = ground arith
positive-IsI64 (some n) {z} h = ground arith

negative-IsI64 : (o : Option ℕ) {z : ℤ} → negative o ≡ some z → IsI64 z
negative-IsI64 none {z} h = ground arith
negative-IsI64 (some zero) {z} h = ground arith
negative-IsI64 (some (suc n)) {z} h = ground arith

-- An integer that is read fits into 64 bits.
pub parse_i64-IsI64 : (s : Text) {z : ℤ} → parse_i64 s ≡ some z → IsI64 z
unfolding parse_i64
parse_i64-IsI64 [] {z} h = ground arith
parse_i64-IsI64 (c ∷ cs) {z} h = elim (Bool-cases (eqb c b'-')) [
  | inl minus ↦ negative-IsI64 (digits cs) (rw minus at h)
  | inr other ↦ positive-IsI64 (if eqb c b'+' then digits cs else digits (c ∷ cs)) (rw other at h)
]
