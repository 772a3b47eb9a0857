-- ===== src/Runtime/CommandLine/Values.antt =====
-- The numbers that parse_config accepts, one by one (crates/runtime/src/main.rs).
use unified_correctness_orie.Base.{
  ℕ, ◌<◌, ◌≡◌, subst, Option, none, List, [], ◌∷◌, arith, eqb, not, Bool-cases, inl, inr, All,
  u64_mod, Result, ok, err, or_fail, guard, nat_eq, >>=-eq-ok, ok-injective,
}
use unified_correctness_orie.Base.{◌==◌, list_eq}
use unified_correctness_orie.Base.Sort.{All-sort_by}
use unified_correctness_orie.Base.Text.{Text, codes, parse_u64}
use unified_correctness_orie.Base.Text.Numbers.{parse_u64-lt}
use unified_correctness_orie.Runtime.Event.{Uuid}
use unified_correctness_orie.Runtime.Fault.{
  FaultPhase, FaultConfig, SpecError, nonzero, end_of, phase_of_parts, parse_fault_phase_spec,
  sort_and_validate_phases, start_le, PhaseError,
}
use unified_correctness_orie.Runtime.Fault.Phases.{AreDisjoint, is_sorted, validated-AreDisjoint}
use unified_correctness_orie.Runtime.Fault.Specs.{Fits, DropFits, EndFits}
use unified_correctness_orie.Runtime.Node.{Config}
use unified_correctness_orie.Runtime.CommandLine.{
  Switch, Setting, Stop, apply_switch, number, positive_number, initial_config, lift_spec,
  lift_phases,
}

or_fail-lt :
    {E : Type 0} (s : Text) (reason : E) {n : ℕ} → or_fail (parse_u64 s) reason ≡ ok n → n < u64_mod
or_fail-lt s reason {n} h = parse_u64-lt s (ground arith)

pub nonzero-DropFits : (n : ℕ) → n < u64_mod → DropFits (nonzero n)
unfolding nonzero
nonzero-DropFits n h = elim (Bool-cases (eqb n 0)) [
  | inl zero ↦ rw zero tt
  | inr differs ↦ rw differs (ground arith, h)
]

end_of-EndFits : (s : Text) {e : Option ℕ} → end_of s ≡ ok e → EndFits e
unfolding end_of
end_of-EndFits s {e} h = elim (Bool-cases (s == codes "*")) [
  | inl star ↦ let no_end : ok none ≡ ok e = rw star at h in subst EndFits (ok-injective no_end) tt
  | inr other ↦
      let (n, read, same) =
        >>=-eq-ok (or_fail (parse_u64 s) SpecError.bad_number) _ (rw other at h) in
      subst EndFits (ok-injective same) (or_fail-lt s SpecError.bad_number read)
]

phase_of_parts-Fits : (parts : List Text) {p : FaultPhase} → phase_of_parts parts ≡ ok p → Fits p
unfolding phase_of_parts
phase_of_parts-Fits (start ∷ end ∷ drop ∷ delay ∷ window ∷ []) {p} h =
    let (start_step, a, h1) = >>=-eq-ok (or_fail (parse_u64 start) SpecError.bad_number) _ h in
    let (end_step, b, h2) = >>=-eq-ok (end_of end) _ h1 in
    let (drop_every, c, h3) = >>=-eq-ok (or_fail (parse_u64 drop) SpecError.bad_number) _ h2 in
    let (delay_steps, d, h4) = >>=-eq-ok (or_fail (parse_u64 delay) SpecError.bad_number) _ h3 in
    let (n, e, h5) = >>=-eq-ok (or_fail (parse_u64 window) SpecError.bad_number) _ h4 in
    let (_, f, h6) = >>=-eq-ok (guard (not (eqb n 0)) SpecError.zero_window) _ h5 in
    subst Fits (ok-injective h6) (
      or_fail-lt start SpecError.bad_number a,
      end_of-EndFits end b,
      nonzero-DropFits drop_every (or_fail-lt drop SpecError.bad_number c),
      or_fail-lt delay SpecError.bad_number d,
      ground arith,
      or_fail-lt window SpecError.bad_number e,
    )
phase_of_parts-Fits _ {p} h = cc

pub parse_fault_phase_spec-Fits :
    (s : Text) {p : FaultPhase} → parse_fault_phase_spec s ≡ ok p → Fits p
unfolding parse_fault_phase_spec
parse_fault_phase_spec-Fits s {p} h = phase_of_parts-Fits _ h

pub number-lt : (key : Setting) (s : Text) {n : ℕ} → number key s ≡ ok n → n < u64_mod
unfolding number
number-lt key s h = or_fail-lt s (Stop.invalid_value key) h

abbrev pub IsPositive : ℕ → Type 0
IsPositive n = (0 < n) × (n < u64_mod)

pub positive_number-lt :
    (key : Setting) (s : Text) {n : ℕ} → positive_number key s ≡ ok n → IsPositive n
unfolding positive_number
positive_number-lt key s {n} h =
    let (m, read, h1) = >>=-eq-ok (number key s) _ h in
    let (_, tested, h2) = >>=-eq-ok (guard (not (eqb m 0)) (Stop.zero_value key)) _ h1 in
    subst IsPositive (ok-injective h2) (ground arith, number-lt key s read)

-- The numbers of a configuration fit into the fields, a burst and a window are not 0, and so it is
-- in each of the phases.
abbrev pub IsBounded : Config → Type 0
IsBounded cfg =
    IsPositive cfg.bootstrap_burst
    × (cfg.steps < u64_mod)
    × (cfg.idle_sleep_ms < u64_mod)
    × (cfg.startup_wait_ms < u64_mod)
    × DropFits cfg.fault.drop_every
    × (cfg.fault.delay_steps < u64_mod)
    × IsPositive cfg.fault.reorder_window
    × All Fits cfg.fault.phases

pub apply_switch-IsBounded :
    (s : Switch) (cfg : Config) → IsBounded cfg → IsBounded (apply_switch s cfg)
unfolding apply_switch
apply_switch-IsBounded Switch.replay cfg h = h
apply_switch-IsBounded Switch.bootstrap_hello cfg h = h

pub lift_spec-ok : {A : Type 0} (r : Result SpecError A) {a : A} → lift_spec r ≡ ok a → r ≡ ok a
unfolding lift_spec
lift_spec-ok (ok b) h = cc
lift_spec-ok (err reason) h = cc

pub lift_phases-ok :
    {A : Type 0} (r : Result PhaseError A) {a : A} → lift_phases r ≡ ok a → r ≡ ok a
unfolding lift_phases
lift_phases-ok (ok b) h = cc
lift_phases-ok (err reason) h = cc

pub initial-IsBounded : (fresh : Uuid) → IsBounded (initial_config fresh)
initial-IsBounded fresh = (
  (omega arith, omega arith),
  omega arith,
  omega arith,
  omega arith,
  tt,
  omega arith,
  (omega arith, omega arith),
  tt,
)

pub validated :
    (cfg : Config) (fault : FaultConfig)
    → IsBounded cfg
    → sort_and_validate_phases cfg.fault ≡ ok fault
    → IsBounded (record cfg { fault = fault }) × AreDisjoint fault.phases
validated cfg fault (burst, steps, idle, wait, drop, delay, window, phases) h =
    let sorted = All-sort_by Fits start_le cfg.fault.phases phases in
    let (disjoint, same) = validated-AreDisjoint cfg.fault fault h in
    (
      rw (is_sorted cfg.fault fault h) (burst, steps, idle, wait, drop, delay, window, sorted),
      disjoint,
    )
