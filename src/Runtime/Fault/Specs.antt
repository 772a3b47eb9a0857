-- ===== src/Runtime/Fault/Specs.antt =====
-- The printed form of a fault phase, as print_usage shows it: <start:end:drop:delay:window>.
use unified_correctness_orie.Base.{
  ℕ, ◌<◌, ◌≡◌, refl, ap, ◌∙◌, false, Option, none, some, List, [], ◌∷◌, arith, eqb, All, u64_mod,
  ok, ◌==◌, nat_eq, list_eq, list_beq,
}
use unified_correctness_orie.Base.Text.{Text, codes, decimal, parse_u64}
use unified_correctness_orie.Base.Text.Numbers.{IsDigit, decimal-digits, parse_u64-decimal}
use unified_correctness_orie.Base.Text.Pieces.{Lacks, join, split-join}
use unified_correctness_orie.Runtime.Fault.{
  FaultPhase, nonzero, end_of, phase_of_parts, parse_fault_phase_spec,
}

abbrev pub drop_text : Option ℕ → Text
drop_text none = codes "0"
drop_text (some n) = decimal n

abbrev end_text : Option ℕ → Text
end_text none = codes "*"
end_text (some n) = decimal n

abbrev tail_parts : FaultPhase → List Text
tail_parts p =
    end_text p.end_step
    ∷ drop_text p.policy.drop_every
    ∷ decimal p.policy.delay_steps
    ∷ decimal p.policy.reorder_window
    ∷ []

abbrev spec_parts : FaultPhase → List Text
spec_parts p = decimal p.start_step ∷ tail_parts p

unfoldable pub phase_spec : FaultPhase → Text
phase_spec p = join b':' (spec_parts p)

abbrev pub DropFits : Option ℕ → Type 0
DropFits none = Unit
DropFits (some n) = (0 < n) × (n < u64_mod)

abbrev pub EndFits : Option ℕ → Type 0
EndFits none = Unit
EndFits (some n) = n < u64_mod

-- The numbers of a phase are ones that the fields can hold, and a window or a drop count is not 0.
abbrev pub Fits : FaultPhase → Type 0
Fits p =
    (p.start_step < u64_mod)
    × EndFits p.end_step
    × DropFits p.policy.drop_every
    × (p.policy.delay_steps < u64_mod)
    × (0 < p.policy.reorder_window)
    × (p.policy.reorder_window < u64_mod)

digits-lack : (sep : ℕ) (s : Text) → 57 < sep → All IsDigit s → Lacks sep s
digits-lack sep [] far h = tt
digits-lack sep (c ∷ s) far h = (ground arith, digits-lack sep s far h.1)

number-Lacks : (n : ℕ) → Lacks b':' (decimal n)
number-Lacks n = digits-lack b':' (decimal n) (omega arith) (decimal-digits n)

drop-Lacks : (d : Option ℕ) → Lacks b':' (drop_text d)
drop-Lacks none = (refl, tt)
drop-Lacks (some n) = number-Lacks n

end-Lacks : (e : Option ℕ) → Lacks b':' (end_text e)
end-Lacks none = (refl, tt)
end-Lacks (some n) = number-Lacks n

-- A number is not read as the star of an open end.
not_star : (s : Text) → All IsDigit s → (s == codes "*") ≡ false
unfolding list_beq
not_star [] h = refl
not_star (c ∷ s) h = let other : eqb c 42 ≡ false = ground arith in rw other refl

end_read : (e : Option ℕ) → EndFits e → end_of (end_text e) ≡ ok e
unfolding end_of list_beq
end_read none h = refl
end_read (some n) h = rw (not_star (decimal n) (decimal-digits n), parse_u64-decimal n h) refl

pub drop_read :
    (d : Option ℕ) → DropFits d → (n : ℕ) × (parse_u64 (drop_text d) ≡ some n) × (nonzero n ≡ d)
unfolding parse_u64 nonzero
drop_read none h = (0, refl, refl)
drop_read (some n) h = (n, parse_u64-decimal n h.1, ground arith)

parts_read : (p : FaultPhase) → Fits p → phase_of_parts (spec_parts p) ≡ ok p
unfolding phase_of_parts
parts_read p (start, end, drop, delay, positive, window) =
    let (n, read, same) = drop_read p.policy.drop_every drop in
    let some_window : eqb p.policy.reorder_window 0 ≡ false = ground arith in
    rw
      (
        parse_u64-decimal p.start_step start,
        end_read p.end_step end,
        read,
        parse_u64-decimal p.policy.delay_steps delay,
        parse_u64-decimal p.policy.reorder_window window,
        some_window,
        same,
      )
      refl

lacks : (p : FaultPhase) → All (Lacks b':') (spec_parts p)
lacks p = (
  number-Lacks p.start_step,
  (
    end-Lacks p.end_step,
    (
      drop-Lacks p.policy.drop_every,
      (number-Lacks p.policy.delay_steps, (number-Lacks p.policy.reorder_window, tt)),
    ),
  ),
)

-- A phase that is printed in the form of the usage text is read back, when its numbers fit, and
-- its window and its count of drops are not 0.
pub parse_fault_phase_spec-phase_spec :
    (p : FaultPhase) → Fits p → parse_fault_phase_spec (phase_spec p) ≡ ok p
unfolding parse_fault_phase_spec phase_spec
parse_fault_phase_spec-phase_spec p h =
    ap phase_of_parts (split-join b':' (decimal p.start_step) (tail_parts p) (lacks p))
    ∙ parts_read p h
