-- ===== src/Base/Text.antt =====
-- Rust strings as lists of code points, and the operations of `str` that the source calls.
pub mod Numbers
pub mod Pieces
use Prim.Native.Nat.{ℕ, zero, suc, ◌+◌, ◌-◌, ◌*◌, ◌/◌, ◌%◌}
use Prim.Native.Char.{code}
use Prim.Native.String.{String}
use mathlib.Core.Bool.{Bool, true, false, ◌&&◌, ◌||◌}
use mathlib.Core.Option.{Option, none, some}
use mathlib.Core.List.{List, [], ◌∷◌, ◌++◌, reverse}
use unified_correctness_orie.Base.Tests.{ltb, leb, eqb, if◌then◌else◌}
use unified_correctness_orie.Base.Lists.{length}
use unified_correctness_orie.Base.Words.{u64_mod}
use unified_correctness_orie.Base.Int.{ℤ, pos, negsuc, i64_limit}

abbrev pub Text : Type 0
Text = List ℕ

-- The code points of a literal.
abbrev pub codes : String → Text
codes String.[] = []
codes (String.◌∷◌ c s) = code c ∷ codes s

-- `char::is_whitespace`
unfoldable pub is_whitespace : ℕ → Bool
is_whitespace c =
    (leb 9 c && leb c 13)
    || (eqb c 32)
    || (eqb c 0x85)
    || (eqb c 0xa0)
    || (eqb c 0x1680)
    || (leb 0x2000 c && leb c 0x200a)
    || (eqb c 0x2028)
    || (eqb c 0x2029)
    || (eqb c 0x202f)
    || (eqb c 0x205f)
    || (eqb c 0x3000)

unfoldable pub trim_start : Text → Text
trim_start [] = []
trim_start (c ∷ cs) = let rest = trim_start cs in if is_whitespace c then rest else c ∷ cs

unfoldable pub trim : Text → Text
unfolding trim_start is_whitespace
trim s = reverse (trim_start (reverse (trim_start s)))

unfoldable pub starts_with : Text → Text → Bool
starts_with [] s = true
starts_with (p ∷ ps) [] = false
starts_with (p ∷ ps) (c ∷ cs) = eqb p c && starts_with ps cs

-- `split(sep)` on one character; `cur` is the piece read so far, in reverse.
split_from : ℕ → Text → Text → List Text
split_from sep cur [] = reverse cur ∷ []
split_from sep cur (c ∷ cs) =
    let rest = split_from sep [] cs in
    let more = split_from sep (c ∷ cur) cs in if eqb c sep then reverse cur ∷ rest else more

unfoldable pub split : ℕ → Text → List Text
unfolding split_from
split sep s = split_from sep [] s

-- `split_once`: at the first separator.
unfoldable pub split_once : ℕ → Text → Option (Text × Text)
split_once sep [] = none
split_once sep (c ∷ cs) =
    let later = split_once sep cs in
    if eqb c sep then some ([], cs) else elim later [ none ↦ none | some (a, b) ↦ some (c ∷ a, b) ]

-- `replace`: leftmost matches that do not overlap; `skip` characters are left of a match.
replace_from : Text → Text → ℕ → Text → Text
replace_from pat to skip [] = []
replace_from pat to (suc skip) (c ∷ cs) = replace_from pat to skip cs
replace_from pat to zero (c ∷ cs) =
    let hit = starts_with pat (c ∷ cs) in
    let rest = replace_from pat to (if hit then length pat - 1 else 0) cs in
    if hit then to ++ rest else c ∷ rest

-- On a pattern that is not empty, as all of the source's are.
unfoldable pub replace : Text → Text → Text → Text
unfolding replace_from starts_with
replace s pat to = replace_from pat to 0 s

-- `join(" ")`
unfoldable pub join_spaces : List Text → Text
join_spaces [] = []
join_spaces (w ∷ []) = w
join_spaces (w ∷ v ∷ ws) = w ++ (32 ∷ join_spaces (v ∷ ws))

-- Decimal digits; `none` at any other character or at an empty text.
digits_from : ℕ → Text → Option ℕ
digits_from n [] = some n
digits_from n (c ∷ cs) =
    let rest = digits_from (n * 10 + (c - 48)) cs in if leb 48 c && leb c 57 then rest else none

unfoldable pub digits : Text → Option ℕ
unfolding digits_from
digits [] = none
digits (c ∷ cs) = digits_from 0 (c ∷ cs)

abbrev below : ℕ → Option ℕ → Option ℕ
below limit none = none
below limit (some n) = if ltb n limit then some n else none

-- `parse::<u64>()`, which takes a leading `+`; `usize` is 64 bits wide.
unfoldable pub parse_u64 : Text → Option ℕ
unfolding digits
parse_u64 [] = none
parse_u64 (c ∷ cs) = below u64_mod (if eqb c b'+' then digits cs else digits (c ∷ cs))

abbrev positive : Option ℕ → Option ℤ
positive none = none
positive (some n) = if ltb n i64_limit then some (pos n) else none

abbrev negative : Option ℕ → Option ℤ
negative none = none
negative (some zero) = some (pos 0)
negative (some (suc n)) = if ltb n i64_limit then some (negsuc n) else none

-- `parse::<i64>()`
unfoldable pub parse_i64 : Text → Option ℤ
unfolding digits
parse_i64 [] = none
parse_i64 (c ∷ cs) =
    if eqb c b'-'
    then negative (digits cs)
    else positive (if eqb c b'+' then digits cs else digits (c ∷ cs))

-- `to_string` of a number: twenty digits hold every `u64`.
decimal_from : ℕ → ℕ → Text → Text
decimal_from zero n out = out
decimal_from (suc fuel) n out =
    let rest = decimal_from fuel (n / 10) ((48 + n % 10) ∷ out) in
    if ltb n 10 then (48 + n) ∷ out else rest

unfoldable pub decimal : ℕ → Text
unfolding decimal_from
decimal n = decimal_from 20 n []

unfoldable pub int_decimal : ℤ → Text
unfolding decimal
int_decimal (pos n) = decimal n
int_decimal (negsuc n) = b'-' ∷ decimal (suc n)

-- `Ord` on strings: bytes in UTF-8 compare as the code points do.
unfoldable pub text_le : Text → Text → Bool
text_le [] t = true
text_le (a ∷ s) [] = false
text_le (a ∷ s) (b ∷ t) = if ltb a b then true else if ltb b a then false else text_le s t
