-- ===== src/Tool/Diagnostics/Extract.antt =====
-- That the number behind a marker is found again in a message (crates/tool/src/main.rs).
use unified_correctness_orie.Base.{
  ℕ, ◌<◌, ◌≡◌, refl, ap, true, false, some, [], ◌∷◌, ◌++◌, arith, leb, All, length, drop, u64_mod,
}
use unified_correctness_orie.Base.Text.{Text, decimal, starts_with}
use unified_correctness_orie.Base.Text.Numbers.{IsDigit, decimal-digits, parse_u64-decimal}
use unified_correctness_orie.Tool.Diagnostics.{after, is_digit, take_while, extract_first_u64_after}

-- The marker does not begin in the first text, when the second stands behind it.
abbrev pub IsClear : Text → Text → Text → Type 0
IsClear marker [] rest = Unit
IsClear marker (c ∷ before) rest =
    (starts_with marker ((c ∷ before) ++ rest) ≡ false) × IsClear marker before rest

abbrev pub EndsNumber : Text → Type 0
EndsNumber [] = Unit
EndsNumber (c ∷ cs) = is_digit c ≡ false

starts_with-append : (p s : Text) → starts_with p (p ++ s) ≡ true
unfolding starts_with
starts_with-append [] s = refl
starts_with-append (c ∷ p) s = ground (arith, starts_with-append p s)

drop-append : (p s : Text) → drop (length p) (p ++ s) ≡ s
drop-append [] s = refl
drop-append (c ∷ p) s = drop-append p s

after-here : (marker rest : Text) → after marker (marker ++ rest) ≡ some rest
unfolding after starts_with
after-here [] [] = refl
after-here [] (c ∷ rest) = refl
after-here (m ∷ marker) rest =
    rw (starts_with-append (m ∷ marker) rest) (ap some (drop-append marker rest))

after-behind :
    (marker before rest : Text)
    → IsClear marker before (marker ++ rest)
    → after marker (before ++ (marker ++ rest)) ≡ some rest
unfolding after
after-behind marker [] rest h = after-here marker rest
after-behind marker (c ∷ before) rest h = rw h.0 (after-behind marker before rest h.1)

take_while-digits :
    (s rest : Text) → All IsDigit s → EndsNumber rest → take_while is_digit (s ++ rest) ≡ s
unfolding take_while
take_while-digits [] [] h k = refl
take_while-digits [] (c ∷ rest) h k = rw k refl
take_while-digits (c ∷ s) rest h k =
    let low : leb 48 c ≡ true = ground arith in
    let high : leb c 57 ≡ true = ground arith in rw (low, high, take_while-digits s rest h.1 k) refl

-- A number below 2 ^ 64 that stands in a message behind the first place of a marker, and is
-- followed by no further digit, is what extract_first_u64_after finds.
pub extract_first_u64_after-decimal :
    (marker before rest : Text) (n : ℕ)
    → n < u64_mod
    → IsClear marker before (marker ++ (decimal n ++ rest))
    → EndsNumber rest
    → extract_first_u64_after (before ++ (marker ++ (decimal n ++ rest))) marker ≡ some n
unfolding extract_first_u64_after
extract_first_u64_after-decimal marker before rest n small clear end =
    rw
      (
        extract_first_u64_after,
        after-behind marker before (decimal n ++ rest) clear,
        take_while-digits (decimal n) rest (decimal-digits n) end,
      )
      (parse_u64-decimal n small)
