-- ===== src/Runtime/Fault/Phases.antt =====
-- What the validation of fault phases gives (sort_and_validate_phases and policy_for_step).
use mathlib.Core.List.{Perm, Mem, mem-cons, mem-cons_self, not-mem-nil}
use mathlib.Core.List.Perm
use mathlib.Core.Logic.Or
use unified_correctness_orie.Base.{
  ℕ, ◌+◌, ◌<◌, ◌≤◌, ◌≡◌, refl, true, false, Option, none, some, List, [], ◌∷◌, arith, All, ok, inl,
  inr, ◌⊎◌, ◌↔◌, Bool-cases, ltb, leb, if◌then◌else◌,
}
use unified_correctness_orie.Base.Sort.{sort_by, sort_by-perm, sort_by-sorted, IsSorted, All-map}
use unified_correctness_orie.Runtime.Fault.{
  FaultPolicy, FaultPhase, FaultConfig, is_active, apply_phases, base_policy, policy_for_step,
  check_phases, sort_and_validate_phases, start_le,
}

abbrev pub Over : Option ℕ → FaultPhase → Type 0
Over none q = ⊥
Over (some end) q = end < q.start_step

-- What starts ends no earlier.
abbrev Ends : ℕ → Option ℕ → Type 0
Ends start none = Unit
Ends start (some end) = start ≤ end

-- The phases are in order, each ends before every later one starts, and only the last is open.
abbrev pub AreDisjoint : List FaultPhase → Type 0
AreDisjoint [] = Unit
AreDisjoint (p ∷ ps) = Ends p.start_step p.end_step × All (Over p.end_step) ps × AreDisjoint ps

Over-trans :
    (prev end : Option ℕ) (p q : FaultPhase)
    → Over prev p
    → Ends p.start_step end
    → Over end q
    → Over prev q
Over-trans none end p q h e k = h
Over-trans (some a) none p q h e k = absurd k
Over-trans (some a) (some b) p q h e k = omega arith

head_ok :
    (idx : ℕ) (prev : Option ℕ) (p : FaultPhase) (ps : List FaultPhase)
    → check_phases idx prev (p ∷ ps) ≡ ok tt
    → Ends p.start_step p.end_step
      × (0 < idx → Over prev p)
      × (check_phases (idx + 1) p.end_step ps ≡ ok tt)
unfolding check_phases
head_ok idx prev p ps h = (ground arith, (λ pos. ground arith), ground arith)

check_phases-AreDisjoint :
    (idx : ℕ) (prev : Option ℕ) (ps : List FaultPhase)
    → check_phases idx prev ps ≡ ok tt
    → AreDisjoint ps × (0 < idx → All (Over prev) ps)
unfolding check_phases
check_phases-AreDisjoint idx prev [] h = (tt, λ _. tt)
check_phases-AreDisjoint idx prev (p ∷ ps) h =
    let (ends, after, rest) = head_ok idx prev p ps h in
    let (disjoint, later) = check_phases-AreDisjoint (idx + 1) p.end_step ps rest in
    let over = later (omega arith) in
    (
      (ends, over, disjoint),
      λ pos.
          (after pos, All-map (λ q k. Over-trans prev p.end_step p q (after pos) ends k) ps over),
    )

inactive_before :
    (p q : FaultPhase) (step : ℕ)
    → Over p.end_step q
    → is_active p step ≡ true
    → is_active q step ≡ false
unfolding is_active
inactive_before p q step h k = ground arith

none_active :
    (p : FaultPhase) (qs : List FaultPhase) (step : ℕ) (base : FaultPolicy)
    → All (Over p.end_step) qs
    → is_active p step ≡ true
    → apply_phases step base qs ≡ base
unfolding apply_phases
none_active p [] step base h a = refl
none_active p (q ∷ qs) step base h a =
    rw (inactive_before p q step h.0 a) (none_active p qs step base h.1 a)

-- The policy at a step is that of the phase that is active then.
apply_phases-active :
    (ps : List FaultPhase) (p : FaultPhase) (step : ℕ) (base : FaultPolicy)
    → AreDisjoint ps
    → Mem p ps
    → is_active p step ≡ true
    → apply_phases step base ps ≡ p.policy
unfolding apply_phases
apply_phases-active [] p step base d m a = absurd (not-mem-nil m)
apply_phases-active (q ∷ ps) p step base (ends, over, d) m a =
    Or.elim (hlevel) (mem-cons.0 m)
      (λ e. rw (← e, a) (none_active p ps step p.policy (rw (← e) at over) a))
      (λ later. apply_phases-active ps p step _ d later a)

apply_phases-idle :
    (ps : List FaultPhase) (step : ℕ) (base : FaultPolicy)
    → ((p : FaultPhase) → Mem p ps → is_active p step ≡ false)
    → apply_phases step base ps ≡ base
unfolding apply_phases
apply_phases-idle [] step base h = refl
apply_phases-idle (q ∷ ps) step base h =
    rw (h q mem-cons_self) (apply_phases-idle ps step base (λ p m. h p (mem-cons.1 (Or.inr m))))

-- A step from the start of a phase up to its end, both included.
abbrev pub Covers : FaultPhase → ℕ → Type 0
Covers p step = (p.start_step ≤ step) × Ends step p.end_step

active_up_to :
    (start : ℕ) (end : Option ℕ) (step : ℕ)
    → ((if ltb step start then false else elim end [ some e ↦ leb step e | none ↦ true ]) ≡ true)
      ↔ ((start ≤ step) × Ends step end)
active_up_to start none step = ground arith
active_up_to start (some end) step = ground arith

is_active-Covers : (p : FaultPhase) (step : ℕ) → (is_active p step ≡ true) ↔ Covers p step
unfolding is_active
is_active-Covers p step = active_up_to p.start_step p.end_step step

not_covered : (p : FaultPhase) (step : ℕ) → ¬ Covers p step → is_active p step ≡ false
not_covered p step h = elim (Bool-cases (is_active p step)) [
  | inl active ↦ absurd (h ((is_active-Covers p step).0 active))
  | inr idle ↦ idle
]

module _ (cfg valid : FaultConfig) (checked : sort_and_validate_phases cfg ≡ ok valid) where
  pub is_sorted : valid ≡ record cfg { phases = sort_by start_le cfg.phases }
  unfolding sort_and_validate_phases
  is_sorted = ground arith

  -- Validation, when it accepts, keeps the phases that were given and orders them without
  -- overlap, with none but the last open.
  pub validated-AreDisjoint : AreDisjoint valid.phases × Perm valid.phases cfg.phases
  unfolding sort_and_validate_phases
  validated-AreDisjoint =
      let h : check_phases 0 none (sort_by start_le cfg.phases) ≡ ok tt = ground arith in
      rw is_sorted (
        (check_phases-AreDisjoint 0 none (sort_by start_le cfg.phases) h).0,
        sort_by-perm start_le cfg.phases,
      )

  -- After the phases are validated, the one of the given phases that covers a step, from its
  -- start up to its end with both included, sets the policy of the step.
  pub policy-active :
      (p : FaultPhase) (step : ℕ)
      → Mem p cfg.phases
      → Covers p step
      → policy_for_step valid step ≡ p.policy
  unfolding policy_for_step
  policy-active p step m a =
      let (d, perm) = validated-AreDisjoint in
      apply_phases-active valid.phases p step (base_policy valid) d ((Perm.mem_iff perm).1 m)
        ((is_active-Covers p step).1 a)

  -- After the phases are validated, the base policy holds at a step that none of the given phases
  -- covers.
  pub policy-idle :
      (step : ℕ)
      → ((p : FaultPhase) → Mem p cfg.phases → ¬ Covers p step)
      → policy_for_step valid step ≡ base_policy cfg
  unfolding policy_for_step base_policy
  policy-idle step h =
      let perm = validated-AreDisjoint.1 in
      rw is_sorted (
        apply_phases-idle (sort_by start_le cfg.phases) step (base_policy cfg)
          (λ p m. not_covered p step (h p ((Perm.mem_iff (sort_by-perm start_le cfg.phases)).0 m))))

EndsLater :
    (p : FaultPhase) (qs : List FaultPhase)
    → Ends p.start_step p.end_step
    → All (Over p.end_step) qs
    → All (λ q. start_le p q ≡ true) qs
EndsLater p [] e h = tt
EndsLater p (q ∷ qs) e h = (starts p.end_step e h.0, EndsLater p qs e h.1)
  where
    starts : (end : Option ℕ) → Ends p.start_step end → Over end q → start_le p q ≡ true
    starts none e o = absurd o
    starts (some end) e o = ground arith

AreDisjoint-IsSorted : (ps : List FaultPhase) → AreDisjoint ps → IsSorted start_le ps
AreDisjoint-IsSorted [] d = tt
AreDisjoint-IsSorted (p ∷ ps) (e, h, d) = (EndsLater p ps e h, AreDisjoint-IsSorted ps d)

accepted_from :
    (idx : ℕ) (prev : Option ℕ) (ps : List FaultPhase)
    → AreDisjoint ps
    → ((prev ≡ none) × (idx ≡ 0)) ⊎ All (Over prev) ps
    → check_phases idx prev ps ≡ ok tt
unfolding check_phases
accepted_from idx prev [] d h = refl
accepted_from idx prev (p ∷ ps) (e, o, d) h =
    let rest = accepted_from (idx + 1) p.end_step ps d (inr o) in ground (arith, rest)

-- Phases that are given in order and without overlap are accepted as they are.
pub disjoint_accepted :
    (cfg : FaultConfig) → AreDisjoint cfg.phases → sort_and_validate_phases cfg ≡ ok cfg
unfolding sort_and_validate_phases
disjoint_accepted cfg d = rw (
  sort_by-sorted start_le cfg.phases (AreDisjoint-IsSorted cfg.phases d),
  accepted_from 0 none cfg.phases d (inl (refl, refl)),
)
