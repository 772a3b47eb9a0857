-- ===== src/Runtime/Totality.antt =====
-- How the handlers of a loaded program end: load_program and execute_actions of
-- crates/runtime/src/main.rs.
use unified_correctness_orie.Base.{
  ℤ, ◌≡◌, refl, inl, inr, true, Option, none, some, List, [], ◌∷◌, arith, Bool-cases, Option-cases,
  Result, ok, err, ◌==◌, list_eq, nat_eq, pair_eq, >>=-eq-ok, checked_add, int_eq, ◌>>=◌,
}
use unified_correctness_orie.Base.Dict
use unified_correctness_orie.Base.Dict.{Dict, get-insert}
use unified_correctness_orie.Base.Text.{Text}
use unified_correctness_orie.Lang.Ast.{Module, ActionDecl, HandlerEffect}
use unified_correctness_orie.Runtime.Event.{Uuid}
use unified_correctness_orie.Runtime.Host.{Host, RuntimeMessage}
use unified_correctness_orie.Runtime.Actor.{ActorContext}
use unified_correctness_orie.Runtime.Program.{
  Program, HandlerPlan, validate_action, validate_actions, load_program, effect_set,
}
use unified_correctness_orie.Runtime.Actions.{
  Effects, observe, ExecError, state_overflow, ExecutedEffects, execute_action, execute_each,
  run_plan, execute_actions,
}
use unified_correctness_orie.Runtime.Contract.{IsChecked, load_program-IsChecked}

-- Every variable of `init` is still there.
abbrev pub Covers : Dict Text ℤ → Dict Text ℤ → Type 0
Covers init state = (k : Text) → Dict.has k init ≡ true → Dict.has k state ≡ true

Covers-insert :
    (init state : Dict Text ℤ) (key : Text) (v : ℤ)
    → Covers init state
    → Covers init (Dict.insert key v state)
Covers-insert init state key v c k h = ground (arith, get-insert key k v state, c k h)

-- The run keeps the variables, or ends in an overflow.
abbrev Sound : {V : Type 0} → Dict Text ℤ → Result ExecError (Effects V) → Type 0
Sound init (ok s) = Covers init s.state
Sound init (err e) = e ≡ state_overflow

found :
    (init state : Dict Text ℤ) (key : Text)
    → Covers init state
    → Dict.has key init ≡ true
    → (v : ℤ) × (Dict.get key state ≡ some v)
found init state key c h = elim (Option-cases (Dict.get key state)) [
  | inl e ↦ absurd (ground (arith, c key h))
  | inr r ↦ r
]

module _ {V : Type 0} (host : Host V) (service : Text) (id : Uuid) (incoming : RuntimeMessage)
    (peers : Dict Uuid Text) (init : Dict Text ℤ) (names : List Text) where
  execute_action-Sound :
      (a : ActionDecl) (s : Effects V)
      → validate_action host init names a ≡ ok tt
      → Covers init s.state
      → Sound init (execute_action host service id incoming peers a s)
  unfolding execute_action validate_action
  execute_action-Sound (ActionDecl.log _) s v c = c
  execute_action-Sound (ActionDecl.timer_local _ _ _ _) s v c = c
  execute_action-Sound (ActionDecl.timer_remote _ _ _ _ _) s v c = c
  execute_action-Sound (ActionDecl.send_local _ _ _) s v c = c
  execute_action-Sound (ActionDecl.send_remote _ _ _ _) s v c = c
  execute_action-Sound (ActionDecl.set_state key value) s v c =
      let (old, e) = found init s.state key c (ground arith) in
      rw e (Covers-insert init s.state key value c)
  execute_action-Sound (ActionDecl.inc_state key by) s v c =
      let (old, e) = found init s.state key c (ground arith) in
      elim (Option-cases (checked_add old by)) [
        | inl over ↦ rw (e, over) refl
        | inr (sum, fits) ↦ rw (e, fits) (Covers-insert init s.state key sum c)
      ]
  execute_action-Sound (ActionDecl.if_state_eq key value a) s v c =
      let (old, e) = found init s.state key c (ground arith) in
      elim (Bool-cases (old == value)) [
        | inl same ↦
            rw (e, same)
              (execute_action-Sound a (observe HandlerEffect.state_read s) (ground arith) c)
        | inr other ↦ rw (e, other) c
      ]

  execute_each-Sound :
      (actions : List ActionDecl) (s : Effects V)
      → validate_actions host init names actions ≡ ok tt
      → Covers init s.state
      → Sound init (execute_each host service id incoming peers actions s)
  unfolding execute_each validate_actions
  execute_each-Sound [] s v c = c
  execute_each-Sound (a ∷ actions) s v c =
      let (_, first, rest) =
        >>=-eq-ok (validate_action host init names a)
          (λ _. validate_actions host init names actions) v in
      step (execute_action host service id incoming peers a s) (execute_action-Sound a s first c)
        (λ s'. execute_each-Sound actions s' rest)
    where
      step :
          (r : Result ExecError (Effects V))
          → Sound init r
          → ((s' : Effects V)
              → Covers init s'.state
              → Sound init (execute_each host service id incoming peers actions s'))
          → Sound init (r >>= execute_each host service id incoming peers actions)
      step (ok s') k go = go s' k
      step (err e) k go = k

-- The outcome of a handler: the variables are kept, or a sum left the range of `i64`.
abbrev pub Outcome :
    {V : Type 0}
    → Dict Text ℤ
    → Result ExecError (ExecutedEffects × Dict Text ℤ × ActorContext V)
    → Type 0
Outcome init (ok (effects, state, ctx)) = Covers init state
Outcome init (err e) = e ≡ state_overflow

module _ {V : Type 0} (host : Host V) (m : Module) (program : Program)
    (loaded : load_program host m ≡ ok program) (service : Text) (id : Uuid)
    (incoming : RuntimeMessage) (peers : Dict Uuid Text) where
  run_plan-Outcome :
      (o : Option HandlerPlan) (init : Dict Text ℤ)
      → ((plan : HandlerPlan) → o ≡ some plan → IsChecked host program service plan)
      → Dict.get service program.service_initial_state ≡ some init
      → (state : Dict Text ℤ) (ctx : ActorContext V) → Covers init state
      → Outcome init (run_plan host o service id incoming peers state ctx)
  unfolding run_plan
  run_plan-Outcome none init checked g state ctx c = c
  run_plan-Outcome (some plan) init checked g state ctx c =
      step (execute_each host service id incoming peers plan.actions start) (
        execute_each-Sound host service id incoming peers init program.services plan.actions start
          valid c)
    where
      start : Effects V
      start = record { state = state; ctx = ctx; observed = [] }

      same : (checked plan refl).state ≡ init
      same = cc ((checked plan refl).state_found)

      valid : validate_actions host init program.services plan.actions ≡ ok tt
      valid = rw same at ((checked plan refl).valid)

      step :
          (r : Result ExecError (Effects V))
          → Sound init r
          → Outcome init (
              r >>= λ d. ok (
                record { declared = effect_set plan.declared_effects; observed = d.observed },
                d.state,
                d.ctx,
              ))
      step (ok s') k = k
      step (err e) k = k

  -- In a program that load_program accepts, a handler that begins with the variables of its
  -- service ends with these variables still present, or in an overflow of a sum; it meets no
  -- unknown variable.
  pub execute_actions-Outcome :
      (init state : Dict Text ℤ) (ctx : ActorContext V)
      → Dict.get service program.service_initial_state ≡ some init
      → Covers init state
      → Outcome init (execute_actions host program service id incoming peers state ctx)
  unfolding execute_actions
  execute_actions-Outcome init state ctx g c =
      run_plan-Outcome (Dict.get (service, incoming.msg_type) program.handlers) init
        (load_program-IsChecked host m program loaded service incoming.msg_type) g state ctx c
