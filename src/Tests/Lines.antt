-- ===== src/Tests/Lines.antt =====
-- Files and connections, at which the theorems on lines are applied. A value is a truth value,
-- written as one digit.
use unified_correctness_orie.Base.{
  ℕ, ◌≡◌, ◌≢◌, refl, true, false, Bool, Option, none, some, List, [], ◌∷◌, Result, ok, err, ltb,
  if◌then◌else◌, All, eqb, ◌++◌,
}
use unified_correctness_orie.Base.Text.{Text, codes}
use unified_correctness_orie.Runtime.Lines.{
  Json, IsJson, out_of_fuel, newline, write_all, read_events, read_stream, connect_with_retry,
}
use unified_correctness_orie.Runtime.Lines.Read.{
  read_events-total, read_events-write_all, read_stream-write_all,
}
use unified_correctness_orie.Runtime.Lines.Connect.{IsFirst, connect_with_retry-IsFirst}

abbrev print_digit : Bool → Text
print_digit true = codes "1"
print_digit false = codes "0"

abbrev parse_digit : Text → Option Bool
parse_digit [] = none
parse_digit (c ∷ cs) = some (eqb c 49)

abbrev digit_json : Json Bool
digit_json = record { print = print_digit; parse = parse_digit }

digit_one_line : (b : Bool) → All (λ c. eqb c newline ≡ false) (print_digit b)
digit_one_line true = (refl, tt)
digit_one_line false = (refl, tt)

digit_read : (b : Bool) → parse_digit (print_digit b ++ (newline ∷ [])) ≡ some b
digit_read true = refl
digit_read false = refl

digit_json-IsJson : IsJson digit_json
digit_json-IsJson = record { one_line = digit_one_line; parse-print = digit_read }

abbrev values : List Bool
values = true ∷ false ∷ false ∷ []

read_events-write_all_example : read_events digit_json (write_all digit_json [] values) ≡ ok values
read_events-write_all_example = read_events-write_all digit_json digit_json-IsJson values

read_stream-write_all_example :
    read_stream digit_json 2 (write_all digit_json [] values) ≡ (true ∷ false ∷ [], ok tt)
read_stream-write_all_example = read_stream-write_all digit_json digit_json-IsJson 2 values

read_events-total_example : read_events digit_json (codes "1\n2\n") ≢ err out_of_fuel
read_events-total_example = read_events-total digit_json (codes "1\n2\n")

-- The listener is there at the fourth attempt.
abbrev connect : ℕ → Result ℕ Bool
connect i = if ltb i 3 then err i else ok true

connect_with_retry-IsFirst_example : IsFirst connect 0 40 (connect_with_retry connect 40)
connect_with_retry-IsFirst_example = connect_with_retry-IsFirst connect 40
