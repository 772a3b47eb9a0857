-- ===== src/Base/Text/Pieces.antt =====
-- What `split` and `split_once` give back of pieces that are joined by the separator.
use Prim.Native.Nat.{ℕ}
use mathlib.Core.Path.{◌≡◌, refl, sym, ap, ◌∙◌}
use mathlib.Core.Bool.{true, false}
use mathlib.Core.Option.{some}
use mathlib.Core.List.{List, [], ◌∷◌, ◌++◌, reverse, reverse-cons, append_assoc, append-nil}
use native.Mathlib.Omega.{arith}
use unified_correctness_orie.Base.Tests.{eqb}
use unified_correctness_orie.Base.Lists.{All}
use unified_correctness_orie.Base.Text.{Text, split_from, split, split_once}

-- No character of the text is the separator.
abbrev pub Lacks : ℕ → Text → Type 0
Lacks sep = All (λ c. eqb c sep ≡ false)

-- Pieces with the separator between them.
abbrev pub join : ℕ → List Text → Text
join sep [] = []
join sep (w ∷ []) = w
join sep (w ∷ v ∷ ws) = w ++ (sep ∷ join sep (v ∷ ws))

eqb_refl : (c : ℕ) → eqb c c ≡ true
eqb_refl c = ground arith

shift : (c : ℕ) (cur w : Text) → reverse (c ∷ cur) ++ w ≡ reverse cur ++ (c ∷ w)
shift c cur w = ap (λ r. r ++ w) (reverse-cons c cur) ∙ append_assoc (reverse cur) (c ∷ []) w

split_from-last :
    (sep : ℕ) (cur w : Text) → Lacks sep w → split_from sep cur w ≡ (reverse cur ++ w) ∷ []
unfolding split_from
split_from-last sep cur [] h = ap (λ r. r ∷ []) (sym (append-nil (reverse cur)))
split_from-last sep cur (c ∷ w) h =
    rw h.0 (split_from-last sep (c ∷ cur) w h.1 ∙ ap (λ r. r ∷ []) (shift c cur w))

split_from-piece :
    (sep : ℕ) (cur w rest : Text)
    → Lacks sep w
    → split_from sep cur (w ++ (sep ∷ rest)) ≡ (reverse cur ++ w) ∷ split sep rest
unfolding split_from split
split_from-piece sep cur [] rest h =
    rw (eqb_refl sep) (ap (λ r. r ∷ split sep rest) (sym (append-nil (reverse cur))))
split_from-piece sep cur (c ∷ w) rest h =
    rw h.0
      (split_from-piece sep (c ∷ cur) w rest h.1 ∙ ap (λ r. r ∷ split sep rest) (shift c cur w))

-- Pieces without the separator, of which there is one, are what splitting the joined text gives.
pub split-join :
    (sep : ℕ) (w : Text) (ws : List Text)
    → All (Lacks sep) (w ∷ ws)
    → split sep (join sep (w ∷ ws)) ≡ w ∷ ws
unfolding split
split-join sep w [] h = split_from-last sep [] w h.0
split-join sep w (v ∷ ws) h =
    split_from-piece sep [] w (join sep (v ∷ ws)) h.0 ∙ ap (◌∷◌ w) (split-join sep v ws h.1)

-- The first separator is the one behind a piece without it.
pub split_once-piece :
    (sep : ℕ) (w rest : Text) → Lacks sep w → split_once sep (w ++ (sep ∷ rest)) ≡ some (w, rest)
unfolding split_once
split_once-piece sep [] rest h = ground arith
split_once-piece sep (c ∷ w) rest h = rw (h.0, split_once-piece sep w rest h.1) refl
