-- ===== src/Runtime/Lines.antt =====
-- Values as lines of JSON: the trace file (crates/runtime/src/trace.rs, read_events of
-- crates/tool/src/main.rs) and the wire (crates/runtime/src/net.rs).
pub mod Read
pub mod Connect
use unified_correctness_orie.Base.{
  ℕ, zero, suc, ◌+◌, ◌≡◌, Bool, true, false, Option, none, some, List, [], ◌∷◌, ◌++◌, eqb,
  if◌then◌else◌, length, All, Result, ok, err, ◌>>=◌, or_fail,
}
use unified_correctness_orie.Base.Text.{Text}

-- What the source uses of `serde_json`, which is not part of the repository: to_writer and
-- from_str at one type.
pub record Json (T : Type 0) : Type 0 where
  pub print : T → Text
  pub parse : Text → Option T

abbrev pub newline : ℕ
newline = 10

-- Its documented behaviour: what it prints has no newline in it, and is read back, also with white
-- space behind it.
pub record IsJson {T : Type 0} (json : Json T) : Type 0 where
  pub one_line : (t : T) → All (λ c. eqb c newline ≡ false) (json.print t)
  pub parse-print : (t : T) → json.parse (json.print t ++ (newline ∷ [])) ≡ some t

pub data LineError : Type 0 where
  bad_json out_of_fuel : LineError

-- `BufRead::read_line`: up to the newline, with it, or to the end; and what is left.
unfoldable pub read_line : Text → Text × Text
read_line [] = ([], [])
read_line (c ∷ cs) =
    let rest = read_line cs in if eqb c newline then (c ∷ [], cs) else (c ∷ rest.0, rest.1)

-- One round of the loop of `read_stream` on what its line parses to; `takes` is how many values
-- the receiver still takes.
abbrev pub send_on :
    {T : Type 0}
    → Option T
    → ℕ
    → (ℕ → List T × Result LineError (Unit {0}))
    → List T × Result LineError (Unit {0})
send_on none takes rest = ([], err bad_json)
send_on (some t) zero rest = ([], ok tt)
send_on (some t) (suc more) rest = (t ∷ (rest more).0, (rest more).1)

module _ {T : Type 0} (json : Json T) where
  -- `TraceWriter::write`, and the body of `send_envelope` once it is connected: what is in the
  -- file, or in the stream, and the value behind it.
  unfoldable pub write : Text → T → Text
  write file t = file ++ (json.print t ++ (newline ∷ []))

  unfoldable pub write_all : Text → List T → Text
  unfolding write
  write_all file [] = file
  write_all file (t ∷ ts) = write_all (write file t) ts

  -- `TraceReader::next`, with what is left of the file: `none` where no byte is left.
  unfoldable pub next : Text → Result LineError (Option T × Text)
  unfolding read_line
  next [] = ok (none, [])
  next (c ∷ cs) = do
    let line = read_line (c ∷ cs)
    t ← or_fail (json.parse (line.0)) bad_json
    ok (some t, line.1)

  -- The loop of `read_events`.
  unfoldable pub read_loop : ℕ → Text → Result LineError (List T)
  unfolding next
  read_loop zero file = err out_of_fuel
  read_loop (suc fuel) file = next file >>= λ (read, left). elim read [
    | none ↦ ok []
    | some t ↦ read_loop fuel left >>= λ ts. ok (t ∷ ts)
  ]

  -- A line takes at least one character.
  unfoldable pub read_events : Text → Result LineError (List T)
  unfolding read_loop
  read_events file = read_loop (suc (length file)) file

  -- The values that are sent on, and whether the stream ended well.
  unfoldable pub stream_loop : ℕ → ℕ → Text → List T × Result LineError (Unit {0})
  unfolding read_line
  stream_loop zero takes file = ([], err out_of_fuel)
  stream_loop (suc fuel) takes [] = ([], ok tt)
  stream_loop (suc fuel) takes (c ∷ cs) =
      let line = read_line (c ∷ cs) in
      send_on (json.parse (line.0)) takes (λ more. stream_loop fuel more (line.1))

  unfoldable pub read_stream : ℕ → Text → List T × Result LineError (Unit {0})
  unfolding stream_loop
  read_stream takes file = stream_loop (suc (length file)) takes file

-- `connect_with_retry`: the first connection among the attempts from `i` on, and how often it slept.
module _ {S E : Type 0} where
  unfoldable pub connect_from : (ℕ → Result E S) → ℕ → ℕ → Option E → Result (Option E) S × ℕ
  connect_from connect i zero last_err = (err last_err, 0)
  connect_from connect i (suc attempts) last_err = elim (connect i) [
    | ok stream ↦ (ok stream, 0)
    | err reason ↦
        let rest = connect_from connect (i + 1) attempts (some reason) in (rest.0, suc (rest.1))
  ]

  unfoldable pub connect_with_retry : (ℕ → Result E S) → ℕ → Result (Option E) S × ℕ
  unfolding connect_from
  connect_with_retry connect attempts = connect_from connect 0 attempts none
