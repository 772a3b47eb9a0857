-- ===== src/Runtime/Fault.antt =====
-- Fault policies, phases and their configuration (crates/runtime/src/main.rs).
pub mod Phases
pub mod Specs
use unified_correctness_orie.Base.{
  ℕ, ◌+◌, ◌<◌, ◌≤◌, ◌≡◌, refl, Bool, true, false, ◌&&◌, not, Option, none, some, List, [], ◌∷◌,
  arith, ltb, leb, eqb, if◌then◌else◌, length, get_elem?, Result, ok, err, ◌>>=◌, ◌>>◌, guard,
  or_fail,
}
use unified_correctness_orie.Base.Sort.{sort_by}
use unified_correctness_orie.Base.Text.{Text, codes, split, parse_u64}
use unified_correctness_orie.Base.{◌==◌, list_eq, nat_eq, list_beq}

pub record FaultPolicy : Type 0 where
  pub drop_every : Option ℕ
  pub delay_steps : ℕ
  pub reorder_window : ℕ

pub record FaultPhase : Type 0 where
  pub start_step : ℕ
  pub end_step : Option ℕ
  pub policy : FaultPolicy

unfoldable pub is_active : FaultPhase → ℕ → Bool
is_active phase step =
    if ltb step phase.start_step
    then false
    else elim phase.end_step [ some end ↦ leb step end | none ↦ true ]

pub record FaultConfig : Type 0 where
  pub drop_every : Option ℕ
  pub delay_steps : ℕ
  pub reorder_window : ℕ
  pub phases : List FaultPhase

abbrev pub default_fault_config : FaultConfig
default_fault_config = record {
  drop_every = none;
  delay_steps = 0;
  reorder_window = 1;
  phases = [];
}

unfoldable pub base_policy : FaultConfig → FaultPolicy
base_policy cfg = record {
  drop_every = cfg.drop_every;
  delay_steps = cfg.delay_steps;
  reorder_window = cfg.reorder_window;
}

-- The loop over the phases: a later active phase replaces an earlier one.
unfoldable pub apply_phases : ℕ → FaultPolicy → List FaultPhase → FaultPolicy
unfolding is_active
apply_phases step policy [] = policy
apply_phases step policy (phase ∷ phases) =
    apply_phases step (if is_active phase step then phase.policy else policy) phases

unfoldable pub policy_for_step : FaultConfig → ℕ → FaultPolicy
unfolding apply_phases base_policy
policy_for_step cfg step = apply_phases step (base_policy cfg) cfg.phases

pub data PhaseError : Type 0 where
  end_before_start overlap open_ended_not_last : PhaseError

abbrev option_test : Option ℕ → (ℕ → Bool) → Bool
option_test none test = true
option_test (some n) test = test n

abbrev is_none : Option ℕ → Bool
is_none none = true
is_none (some n) = false

-- The loop of `sort_and_validate_phases`, at phase `idx`.
unfoldable pub check_phases : ℕ → Option ℕ → List FaultPhase → Result PhaseError (Unit {0})
check_phases idx prev_end [] = ok tt
check_phases idx prev_end (phase ∷ phases) = do
  guard (option_test phase.end_step (λ end. leb phase.start_step end)) end_before_start
  guard (option_test prev_end (λ end. ltb end phase.start_step)) overlap
  guard (not (is_none prev_end && ltb 0 idx)) open_ended_not_last
  check_phases (idx + 1) phase.end_step phases

abbrev pub start_le : FaultPhase → FaultPhase → Bool
start_le a b = leb a.start_step b.start_step

unfoldable pub sort_and_validate_phases : FaultConfig → Result PhaseError FaultConfig
unfolding check_phases sort_by
sort_and_validate_phases cfg = do
  let phases = sort_by start_le cfg.phases
  check_phases 0 none phases
  ok (record cfg { phases = phases })

pub data SpecError : Type 0 where
  wrong_part_count bad_number zero_window : SpecError

unfoldable pub nonzero : ℕ → Option ℕ
nonzero n = if eqb n 0 then none else some n

unfoldable pub end_of : Text → Result SpecError (Option ℕ)
end_of part =
    if part == codes "*" then ok none else (do n ← or_fail (parse_u64 part) bad_number; ok (some n))

-- `parts` is `spec.split(':')`.
unfoldable pub phase_of_parts : List Text → Result SpecError FaultPhase
unfolding nonzero end_of list_beq
phase_of_parts (start ∷ end ∷ drop_every ∷ delay_steps ∷ window ∷ []) = do
  start_step ← or_fail (parse_u64 start) bad_number
  end_step ← end_of end
  drop_every_raw ← or_fail (parse_u64 drop_every) bad_number
  delay ← or_fail (parse_u64 delay_steps) bad_number
  reorder_window ← or_fail (parse_u64 window) bad_number
  guard (not (eqb reorder_window 0)) zero_window
  ok (record {
    start_step = start_step;
    end_step = end_step;
    policy = record {
      drop_every = nonzero drop_every_raw;
      delay_steps = delay;
      reorder_window = reorder_window;
    };
  })
phase_of_parts _ = err wrong_part_count

unfoldable pub parse_fault_phase_spec : Text → Result SpecError FaultPhase
unfolding phase_of_parts
parse_fault_phase_spec spec = phase_of_parts (split b':' spec)

-- The unit test `parses_fault_phase_spec_with_open_end` of the source.
open_end :
    parse_fault_phase_spec (codes "10:*:3:2:4")
    ≡ ok (record {
      start_step = 10;
      end_step = none;
      policy = record { drop_every = some 3; delay_steps = 2; reorder_window = 4 };
    })
unfolding parse_fault_phase_spec parse_u64 split
open_end = refl
