-- ===== src/Lang/Tokens.antt =====
-- tokenize of crates/lang/src/parser.rs.
pub mod Quoted
use unified_correctness_orie.Base.{ℕ, List, [], ◌∷◌, ◌++◌, eqb, if◌then◌else◌, ok, ◌≡◌, refl}
use unified_correctness_orie.Base.Text.{Text, is_whitespace, codes}
use unified_correctness_orie.Lang.Errors.{Parsed, fail, unterminated_escape, unterminated_quote}

-- Where the scanner stands: outside quotes, inside, or behind a backslash inside.
pub data Mode : Type 0 where
  plain quoted escaped : Mode

pub record Scan : Type 0 where
  pub mode : Mode
  pub cur : Text
  pub out : List Text

abbrev pub push_token : Scan → List Text
push_token s = elim s.cur [ [] ↦ s.out | c ∷ cs ↦ s.out ++ (c ∷ cs) ∷ [] ]

abbrev scan_plain : ℕ → Scan → Scan
scan_plain ch s =
    if eqb ch b'"'
    then record s { mode = quoted }
    else if is_whitespace ch
    then record s { out = push_token s; cur = [] }
    else record s { cur = s.cur ++ ch ∷ [] }

abbrev scan_quoted : ℕ → Scan → Scan
scan_quoted ch s =
    if eqb ch b'"'
    then record s { mode = plain }
    else if eqb ch b'\\'
    then record s { mode = escaped }
    else record s { cur = s.cur ++ ch ∷ [] }

abbrev pub scan_char : ℕ → Scan → Scan
scan_char ch s = elim s.mode [
  | plain ↦ scan_plain ch s
  | quoted ↦ scan_quoted ch s
  | escaped ↦ record s { mode = quoted; cur = s.cur ++ ch ∷ [] }
]

unfoldable pub scan : Text → Scan → Scan
scan [] s = s
scan (ch ∷ chs) s = scan chs (scan_char ch s)

abbrev pub finish : ℕ → Scan → Parsed (List Text)
finish line_no s = elim s.mode [
  | plain ↦ ok (push_token s)
  | quoted ↦ fail line_no unterminated_quote
  | escaped ↦ fail line_no unterminated_escape
]

unfoldable pub tokenize : Text → ℕ → Parsed (List Text)
unfolding scan
tokenize line line_no = finish line_no (scan line (record { mode = plain; cur = []; out = [] }))

quoted_template :
    tokenize (codes "log \"first \\\"x\\\" send\"  end") 1
    ≡ ok (codes "log" ∷ codes "first \"x\" send" ∷ codes "end" ∷ [])
unfolding tokenize is_whitespace
quoted_template = refl
