-- ===== src/Lang/Tokens/Quoted.antt =====
-- What tokenize of crates/lang/src/parser.rs makes of quoted tokens.
use mathlib.Core.List.{append-nil, append_assoc}
use unified_correctness_orie.Base.{
  ℕ, ◌<◌, ◌≡◌, refl, sym, ap, ◌∙◌, false, ◌||◌, List, [], ◌∷◌, ◌++◌, map, eqb, length, arith, ok,
  All, if◌then◌else◌, Bool-cases, inl, inr,
}
use unified_correctness_orie.Base.Text.{Text, is_whitespace, join_spaces}
use unified_correctness_orie.Lang.Tokens.{Mode, Scan, scan, push_token, scan_char, finish, tokenize}

-- A backslash before each quote and each backslash.
abbrev escape : Text → Text
escape [] = []
escape (c ∷ cs) = if eqb c b'"' || eqb c b'\\' then b'\\' ∷ (c ∷ escape cs) else c ∷ escape cs

abbrev pub quote : Text → Text
quote t = b'"' ∷ (escape t ++ (b'"' ∷ []))

abbrev pub IsFilled : Text → Type 0
IsFilled t = 0 < length t

abbrev at : Mode → Text → List Text → Scan
at mode cur out = record { mode = mode; cur = cur; out = out }

scan-letter :
    (c : ℕ) (cur : Text) (out : List Text)
    → eqb c b'"' ≡ false
    → eqb c b'\\' ≡ false
    → scan_char c (at Mode.quoted cur out) ≡ at Mode.quoted (cur ++ (c ∷ [])) out
scan-letter c cur out n m = rw (n, m) refl

scan-escape :
    (t rest cur : Text) (out : List Text)
    → scan (escape t ++ rest) (at Mode.quoted cur out) ≡ scan rest (at Mode.quoted (cur ++ t) out)
unfolding scan
scan-escape [] rest cur out = rw (append-nil cur) refl
scan-escape (c ∷ cs) rest cur out =
    let more =
      scan-escape cs rest (cur ++ (c ∷ [])) out
      ∙ ap (λ x. scan rest (at Mode.quoted x out)) (append_assoc cur (c ∷ []) cs) in
    elim (Bool-cases (eqb c b'"')) [
      | inl q ↦ rw q more
      | inr n ↦ elim (Bool-cases (eqb c b'\\')) [
        | inl q ↦ rw (n, q) more
        | inr m ↦ rw (n, m) (ap (scan (escape cs ++ rest)) (scan-letter c cur out n m) ∙ more)
      ]
    ]

scan-quote :
    (t rest : Text) (out : List Text)
    → scan (quote t ++ rest) (at Mode.plain [] out) ≡ scan rest (at Mode.plain t out)
unfolding scan
scan-quote t rest out =
    ap (λ x. scan x (at Mode.quoted [] out)) (append_assoc (escape t) (b'"' ∷ []) rest)
    ∙ scan-escape t (b'"' ∷ rest) [] out

push-filled :
    (t : Text) (out : List Text) → IsFilled t → push_token (at Mode.plain t out) ≡ out ++ (t ∷ [])
push-filled [] out h = absurd (omega arith)
push-filled (c ∷ cs) out h = refl

scan-space :
    (t rest : Text) (out : List Text)
    → IsFilled t
    → scan (32 ∷ rest) (at Mode.plain t out) ≡ scan rest (at Mode.plain [] (out ++ (t ∷ [])))
unfolding scan is_whitespace
scan-space t rest out h = ap (λ x. scan rest (at Mode.plain [] x)) (push-filled t out h)

last_token :
    (line : ℕ) (t : Text) (out : List Text)
    → IsFilled t
    → finish line (scan [] (at Mode.plain t out)) ≡ ok (out ++ (t ∷ []))
unfolding scan
last_token line t out h = ap ok (push-filled t out h)

scan-printed :
    (line : ℕ) (t : Text) (ts : List Text) (out : List Text)
    → All IsFilled (t ∷ ts)
    → finish line (scan (join_spaces (map quote (t ∷ ts))) (at Mode.plain [] out))
      ≡ ok (out ++ (t ∷ ts))
unfolding join_spaces
scan-printed line t [] out h =
    ap (λ x. finish line (scan x (at Mode.plain [] out))) (sym (append-nil (quote t)))
    ∙ ap (finish line) (scan-quote t [] out)
    ∙ last_token line t out h.0
scan-printed line t (v ∷ ts) out h =
    let spaced = 32 ∷ join_spaces (map quote (v ∷ ts)) in
    ap (finish line) (scan-quote t spaced out)
    ∙ ap (finish line) (scan-space t (join_spaces (map quote (v ∷ ts))) out (h.0))
    ∙ scan-printed line v ts (out ++ (t ∷ [])) (h.1)
    ∙ ap ok (append_assoc out (t ∷ []) (v ∷ ts))

-- Tokens that are quoted and joined by spaces are read back, unless one is empty.
pub tokenize-quoted :
    (t : Text) (ts : List Text) (line : ℕ)
    → All IsFilled (t ∷ ts)
    → tokenize (join_spaces (map quote (t ∷ ts))) line ≡ ok (t ∷ ts)
unfolding tokenize
tokenize-quoted t ts line h = scan-printed line t ts [] h
