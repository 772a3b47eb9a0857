-- ===== src/Runtime/Lines/Read.antt =====
-- What is read back of the lines that were written, and that the reading loops end (trace.rs and
-- net.rs of crates/runtime/src).
use mathlib.Core.List.{append_assoc, append-nil}
use unified_correctness_orie.Base.{
  ℕ, zero, suc, ◌≤◌, ◌<◌, ◌≡◌, ◌≢◌, refl, sym, ap, ◌∙◌, false, Option, some, List, [], ◌∷◌, ◌++◌,
  arith, eqb, length, All, Result, ok, err, ◌>>=◌, or_fail, Bool-cases, inl, inr, Option-cases,
  length-append, take, >>=-eq-ok, ok-injective,
}
use unified_correctness_orie.Base.Text.{Text}
use unified_correctness_orie.Runtime.Lines.{
  Json, IsJson, LineError, bad_json, out_of_fuel, newline, read_line, write, write_all, next,
  read_loop, read_events, send_on, stream_loop, read_stream,
}

-- A line that ends in a newline is read with it.
read_line-append :
    (w rest : Text)
    → All (λ c. eqb c newline ≡ false) w
    → read_line (w ++ (newline ∷ rest)) ≡ (w ++ (newline ∷ []), rest)
unfolding read_line
read_line-append [] rest h = refl
read_line-append (c ∷ w) rest h = rw (h.0, read_line-append w rest h.1) refl

read_line-shorter : (c : ℕ) (cs : Text) → suc (length ((read_line (c ∷ cs)).1)) ≤ length (c ∷ cs)
unfolding read_line
read_line-shorter c [] = elim (Bool-cases (eqb c newline)) [
  | inl e ↦ rw e (omega arith)
  | inr e ↦ rw e (omega arith)
]
read_line-shorter c (d ∷ cs) = elim (Bool-cases (eqb c newline)) [
  | inl e ↦ rw e (omega arith)
  | inr e ↦ rw e (omega (arith, read_line-shorter d cs))
]

-- A sequence that only ends well in its last part fails where its first part does.
err_before :
    {E A B : Type 0} (first : Result E A) (f : A → B) {reason : E}
    → (first >>= λ a. ok (f a)) ≡ err reason
    → first ≡ err reason
err_before (ok a) f h = cc
err_before (err e) f h = cc

module _ {T : Type 0} (json : Json T) where
  -- The lines of values.
  abbrev pub lines : List T → Text
  lines [] = []
  lines (t ∷ ts) = (json.print t ++ (newline ∷ [])) ++ lines ts

  write_all-lines : (file : Text) (ts : List T) → write_all json file ts ≡ file ++ lines ts
  unfolding write_all
  write_all-lines file [] = sym (append-nil file)
  write_all-lines file (t ∷ ts) =
      write_all-lines (write json file t) ts
      ∙ append_assoc file (json.print t ++ (newline ∷ [])) (lines ts)

  -- The line at the front is what is parsed.
  next-front :
      (w rest : Text)
      → All (λ c. eqb c newline ≡ false) w
      → next json (w ++ (newline ∷ rest))
        ≡ (or_fail (json.parse (w ++ (newline ∷ []))) bad_json >>= λ t. ok (some t, rest))
  unfolding next
  next-front [] rest h = refl
  next-front (c ∷ w) rest h = rw (read_line-append (c ∷ w) rest h) refl

  next-shorter :
      (c : ℕ) (cs left : Text) (read : Option T)
      → next json (c ∷ cs) ≡ ok (read, left)
      → length left < length (c ∷ cs)
  unfolding next
  next-shorter c cs left read h =
      let (t, parsed, done) =
        >>=-eq-ok (or_fail (json.parse (read_line (c ∷ cs)).0) bad_json) _ h in
      omega (arith, ap (λ p. length (p.1)) (ok-injective done), read_line-shorter c cs)

  -- The fuel of read_events is enough for the lines of any file.
  read_loop-total :
      (fuel : ℕ) (file : Text) → length file < fuel → read_loop json fuel file ≢ err out_of_fuel
  unfolding read_loop
  read_loop-total zero file h e = absurd (omega arith)
  read_loop-total (suc fuel) [] h e = cc
  read_loop-total (suc fuel) (c ∷ cs) h e =
      elim (Option-cases (json.parse (read_line (c ∷ cs)).0)) [
        | inl bad ↦ let stopped : err bad_json ≡ err out_of_fuel = rw bad at e in cc
        | inr (t, good) ↦
            let left = (read_line (c ∷ cs)).1 in
            let rest : (read_loop json fuel left >>= λ ts. ok (t ∷ ts)) ≡ err out_of_fuel =
              rw good at e in
            read_loop-total fuel left (omega (arith, read_line-shorter c cs))
              (err_before (read_loop json fuel left) (◌∷◌ t) rest)
      ]

  -- Reading a file of any content ends: the fuel of read_events is enough.
  pub read_events-total : (file : Text) → read_events json file ≢ err out_of_fuel
  unfolding read_events
  read_events-total file = read_loop-total (suc (length file)) file (omega arith)

  module _ (lawful : IsJson json) where
    next-line :
        (t : T) (rest : Text)
        → next json ((json.print t ++ (newline ∷ [])) ++ rest) ≡ ok (some t, rest)
    next-line t rest =
        ap (next json) (append_assoc (json.print t) (newline ∷ []) rest)
        ∙ next-front (json.print t) rest (lawful.one_line t)
        ∙ rw (lawful.parse-print t) refl

    read_loop-lines :
        (fuel : ℕ) (ts : List T) → length (lines ts) < fuel → read_loop json fuel (lines ts) ≡ ok ts
    unfolding read_loop
    read_loop-lines zero ts h = absurd (omega arith)
    read_loop-lines (suc fuel) [] h = refl
    read_loop-lines (suc fuel) (t ∷ ts) h =
        let shorter = length-append (json.print t ++ (newline ∷ [])) (lines ts) in
        let enough =
          read_loop-lines fuel ts
            (omega (arith, shorter, length-append (json.print t) (newline ∷ []))) in
        rw (next-line t (lines ts), enough) refl

    -- When JSON is printed on one line and read back, what a trace writer wrote is what is read,
    -- in the same order.
    pub read_events-write_all : (ts : List T) → read_events json (write_all json [] ts) ≡ ok ts
    unfolding read_events
    read_events-write_all ts =
        ap (read_events json) (write_all-lines [] ts)
        ∙ read_loop-lines (suc (length (lines ts))) ts (omega arith)

    -- The stream whose first line is read as a value, while the receiver takes more and when it does
    -- not.
    stream_loop-front :
        (fuel takes : ℕ) (w rest : Text) (t : T)
        → All (λ c. eqb c newline ≡ false) w
        → json.parse (w ++ (newline ∷ [])) ≡ some t
        → (stream_loop json (suc fuel) (suc takes) (w ++ (newline ∷ rest))
            ≡ (t ∷ (stream_loop json fuel takes rest).0, (stream_loop json fuel takes rest).1))
          × (stream_loop json (suc fuel) 0 (w ++ (newline ∷ rest)) ≡ ([], ok tt))
    unfolding stream_loop
    stream_loop-front fuel takes [] rest t h good = (rw good refl, rw good refl)
    stream_loop-front fuel takes (c ∷ w) rest t h good =
        let line = read_line-append (c ∷ w) rest h in
        let sent : (n : ℕ) (l : Text × Text) → List T × Result LineError (Unit {0}) =
          λ n l. send_on (json.parse (l.0)) n (λ more. stream_loop json fuel more (l.1)) in
        (ap (sent (suc takes)) line ∙ rw good refl, ap (sent 0) line ∙ rw good refl)

    front :
        (fuel takes : ℕ) (t : T) (rest : Text)
        → (stream_loop json (suc fuel) (suc takes) (json.print t ++ (newline ∷ rest))
            ≡ (t ∷ (stream_loop json fuel takes rest).0, (stream_loop json fuel takes rest).1))
          × (stream_loop json (suc fuel) 0 (json.print t ++ (newline ∷ rest)) ≡ ([], ok tt))
    front fuel takes t rest =
        stream_loop-front fuel takes (json.print t) rest t (lawful.one_line t)
          (lawful.parse-print t)

    stream_end : (fuel takes : ℕ) → stream_loop json (suc fuel) takes [] ≡ ([], ok tt)
    unfolding stream_loop
    stream_end fuel takes = refl

    stream_loop-lines :
        (fuel takes : ℕ) (ts : List T)
        → length (lines ts) < fuel
        → stream_loop json fuel takes (lines ts) ≡ (take takes ts, ok tt)
    stream_loop-lines zero takes ts h = absurd (omega arith)
    stream_loop-lines (suc fuel) zero [] h = stream_end fuel 0
    stream_loop-lines (suc fuel) (suc takes) [] h = stream_end fuel (suc takes)
    stream_loop-lines (suc fuel) zero (t ∷ ts) h =
        ap (stream_loop json (suc fuel) zero)
          (append_assoc (json.print t) (newline ∷ []) (lines ts))
        ∙ (front fuel zero t (lines ts)).1
    stream_loop-lines (suc fuel) (suc takes) (t ∷ ts) h =
        let shorter = length-append (json.print t ++ (newline ∷ [])) (lines ts) in
        let more =
          stream_loop-lines fuel takes ts
            (omega (arith, shorter, length-append (json.print t) (newline ∷ []))) in
        ap (stream_loop json (suc fuel) (suc takes))
          (append_assoc (json.print t) (newline ∷ []) (lines ts))
        ∙ (front fuel takes t (lines ts)).0
        ∙ ap (λ r. (t ∷ r.0, r.1)) more

    -- When JSON is printed on one line and read back, what was sent over one connection is what
    -- the receiver gets, in the same order, up to the value at which it stops taking them.
    pub read_stream-write_all :
        (takes : ℕ) (ts : List T)
        → read_stream json takes (write_all json [] ts) ≡ (take takes ts, ok tt)
    unfolding read_stream
    read_stream-write_all takes ts =
        ap (read_stream json takes) (write_all-lines [] ts)
        ∙ stream_loop-lines (suc (length (lines ts))) takes ts (omega arith)
