-- ===== src/Runtime/Contract.antt =====
-- The effect contract between load_program and execute_actions (crates/runtime/src/main.rs): the
-- effects that a handler is inferred to have, and those that its run observes.
use unified_correctness_orie.Base.{
  ℤ, ◌≡◌, refl, inl, inr, true, Option, none, some, List, [], ◌∷◌, arith, Bool-cases, Option-cases,
  ok, ◌>>=◌, >>=-eq-ok, ok-injective, if◌then◌else◌, ◌==◌, nat_eq, list_eq, pair_eq, pair_beq_iff,
  list_beq_iff, ap, subst, int_eq,
}
use mathlib.Core.Path.{subst₂}
use unified_correctness_orie.Base.Dict
use unified_correctness_orie.Base.Dict.{Dict, get-insert}
use unified_correctness_orie.Base.Text.{Text}
use unified_correctness_orie.Lang.Ast.{Module, ActionDecl, HandlerEffect, effect_eq, effect_beq_iff}
use unified_correctness_orie.Runtime.Event.{Uuid}
use unified_correctness_orie.Runtime.Host.{Host, RuntimeMessage}
use unified_correctness_orie.Runtime.Actor.{ActorContext}
use unified_correctness_orie.Runtime.Program.{
  Program, HandlerPlan, set_insert, effect_set, infer_action_effects, infer_effects, infer_from,
  validate_actions, check_handlers, load_services, load_program,
}
use unified_correctness_orie.Runtime.Actions.{
  Effects, observe, ExecutedEffects, execute_action, execute_each, run_plan, execute_actions,
}

abbrev pub Has : List HandlerEffect → HandlerEffect → Type 0
Has es e = Dict.contains es e ≡ true

abbrev pub Within : List HandlerEffect → List HandlerEffect → Type 0
Within xs ys = (e : HandlerEffect) → Has xs e → Has ys e

pub contains-set_insert :
    (e f : HandlerEffect) (es : List HandlerEffect)
    → Dict.contains (set_insert e es) f ≡ (if e == f then true else Dict.contains es f)
unfolding set_insert Dict.contains
contains-set_insert e f [] = refl
contains-set_insert e f (g ∷ es) =
    ground (
      arith,
      effect_beq_iff e f,
      effect_beq_iff e g,
      effect_beq_iff g f,
      contains-set_insert e f es,
    )

set_insert-Within :
    (e : HandlerEffect) (xs ys : List HandlerEffect)
    → Within xs ys
    → Within (set_insert e xs) (set_insert e ys)
set_insert-Within e xs ys w f h =
    ground (arith, contains-set_insert e f xs, contains-set_insert e f ys, w f)

Within-set_insert : (e : HandlerEffect) (xs : List HandlerEffect) → Within xs (set_insert e xs)
Within-set_insert e xs f h = ground (arith, contains-set_insert e f xs)

-- Inference only adds.
Within-infer : (a : ActionDecl) (out : List HandlerEffect) → Within out (infer_action_effects a out)
unfolding infer_action_effects
Within-infer (ActionDecl.if_state_eq k v a) out f h =
    Within-infer a (set_insert HandlerEffect.state_read out) f
      (Within-set_insert HandlerEffect.state_read out f h)
Within-infer (ActionDecl.log _) out f h = Within-set_insert _ out f h
Within-infer (ActionDecl.set_state _ _) out f h = Within-set_insert _ out f h
Within-infer (ActionDecl.inc_state _ _) out f h = Within-set_insert _ out f h
Within-infer (ActionDecl.timer_local _ _ _ _) out f h = Within-set_insert _ out f h
Within-infer (ActionDecl.timer_remote _ _ _ _ _) out f h = Within-set_insert _ out f h
Within-infer (ActionDecl.send_local _ _ _) out f h = Within-set_insert _ out f h
Within-infer (ActionDecl.send_remote _ _ _ _) out f h = Within-set_insert _ out f h

Within-observe :
    {V : Type 0} (e : HandlerEffect) (s s' : Effects V) (out : List HandlerEffect)
    → s'.observed ≡ set_insert e s.observed
    → Within s.observed out
    → Within s'.observed (set_insert e out)
Within-observe e s s' out h w = rw h (set_insert-Within e s.observed out w)

module _ {V : Type 0} (host : Host V) (service : Text) (id : Uuid) (incoming : RuntimeMessage)
    (peers : Dict Uuid Text) where
  execute_action-Within :
      (a : ActionDecl) (s s' : Effects V) (out : List HandlerEffect)
      → execute_action host service id incoming peers a s ≡ ok s'
      → Within s.observed out
      → Within s'.observed (infer_action_effects a out)
  unfolding execute_action infer_action_effects
  execute_action-Within (ActionDecl.log _) s s' out h w = Within-observe _ s s' out (ground arith) w
  execute_action-Within (ActionDecl.set_state _ _) s s' out h w =
      Within-observe _ s s' out (ground arith) w
  execute_action-Within (ActionDecl.inc_state _ _) s s' out h w =
      Within-observe _ s s' out (ground arith) w
  execute_action-Within (ActionDecl.timer_local _ _ _ _) s s' out h w =
      Within-observe _ s s' out (ground arith) w
  execute_action-Within (ActionDecl.timer_remote _ _ _ _ _) s s' out h w =
      Within-observe _ s s' out (ground arith) w
  execute_action-Within (ActionDecl.send_local _ _ _) s s' out h w =
      Within-observe _ s s' out (ground arith) w
  execute_action-Within (ActionDecl.send_remote _ _ _ _) s s' out h w =
      Within-observe _ s s' out (ground arith) w
  execute_action-Within (ActionDecl.if_state_eq key v a) s s' out h w =
      elim (Option-cases (Dict.get key s.state)) [
        | inl e ↦ absurd (cc (rw e at h))
        | inr (current, e) ↦ elim (Bool-cases (current == v)) [
          | inl same ↦
              execute_action-Within a (observe HandlerEffect.state_read s) s'
                (set_insert HandlerEffect.state_read out) (rw (e, same) at h)
                (set_insert-Within _ s.observed out w)
          | inr other ↦ λ f k.
              Within-infer a (set_insert HandlerEffect.state_read out) f
                (Within-observe HandlerEffect.state_read s s' out (cc (rw (e, other) at h)) w f k)
        ]
      ]

  execute_each-Within :
      (actions : List ActionDecl) (s s' : Effects V) (out : List HandlerEffect)
      → execute_each host service id incoming peers actions s ≡ ok s'
      → Within s.observed out
      → Within s'.observed (infer_from out actions)
  unfolding execute_each infer_from
  execute_each-Within [] s s' out h w = let e : s ≡ s' = cc in rw (← e) w
  execute_each-Within (a ∷ actions) s s' out h w =
      let (m, first, rest) =
        >>=-eq-ok (execute_action host service id incoming peers a s)
          (execute_each host service id incoming peers actions) h in
      execute_each-Within actions m s' (infer_action_effects a out) rest
        (execute_action-Within a s m out first w)

-- What `load_program` has checked of a handler.
pub record IsChecked {V : Type 0} (host : Host V) (program : Program) (service : Text)
    (plan : HandlerPlan) : Type 0 where
  pub state : Dict Text ℤ
  pub state_found : Dict.get service program.service_initial_state ≡ some state
  pub valid : validate_actions host state program.services plan.actions ≡ ok tt
  pub contract : infer_effects plan.actions ≡ effect_set plan.declared_effects

module _ {V : Type 0} (host : Host V) (program : Program) where
  abbrev Checked : Dict (Text × Text) HandlerPlan → Type 0
  Checked hs = check_handlers host program.service_initial_state program.services hs ≡ ok tt

  check_handlers-head :
      (s t : Text) (p : HandlerPlan) (hs : Dict (Text × Text) HandlerPlan)
      → Checked (((s, t), p) ∷ hs)
      → IsChecked host program s p × Checked hs
  unfolding check_handlers
  check_handlers-head s t p hs h = elim (Option-cases (Dict.get s program.service_initial_state)) [
    | inl e ↦ absurd (cc (rw e at h))
    | inr (state, e) ↦ (
      record {
        state = state;
        state_found = e;
        valid = ground arith;
        contract =
            ground (arith, list_beq_iff (infer_effects p.actions) (effect_set p.declared_effects));
      },
      ground arith,
    )
  ]

  check_handlers-IsChecked :
      (hs : Dict (Text × Text) HandlerPlan) (service msg_type : Text) (plan : HandlerPlan)
      → Checked hs
      → Dict.get (service, msg_type) hs ≡ some plan
      → IsChecked host program service plan
  unfolding Dict.get
  check_handlers-IsChecked [] service msg_type plan h g = absurd (cc)
  check_handlers-IsChecked (((s, t), p) ∷ hs) service msg_type plan h g =
      let (checked, rest) = check_handlers-head s t p hs h in
      elim (Bool-cases (◌==◌ {T = Text × Text} (s, t) (service, msg_type))) [
        | inl e ↦
            let same : s ≡ service =
              ap (λ (k : Text × Text). k.0) ((pair_beq_iff (s, t) (service, msg_type)).0 e) in
            let found : p ≡ plan = cc (rw e at g) in
            subst₂ (IsChecked host program) same found checked
        | inr e ↦ check_handlers-IsChecked hs service msg_type plan rest (rw e at g)
      ]

module _ {V : Type 0} (host : Host V) (m : Module) (program : Program)
    (loaded : load_program host m ≡ ok program) where
  load_program-Checked : Checked host program program.handlers
  unfolding load_program
  load_program-Checked =
      let (p, _, h) =
        >>=-eq-ok
          (load_services (record { services = []; service_initial_state = []; handlers = [] })
            m.services)
          (λ p. check_handlers host p.service_initial_state p.services p.handlers >>= λ _. ok p)
          loaded in
      let (_, checked, same) =
        >>=-eq-ok (check_handlers host p.service_initial_state p.services p.handlers) (λ _. ok p)
          h in
      subst (λ q. Checked host q q.handlers) (ok-injective same) checked

  pub load_program-IsChecked :
      (service msg_type : Text) (plan : HandlerPlan)
      → Dict.get (service, msg_type) program.handlers ≡ some plan
      → IsChecked host program service plan
  load_program-IsChecked service msg_type plan g =
      check_handlers-IsChecked host program program.handlers service msg_type plan
        load_program-Checked g

  module _ (service : Text) (id : Uuid) (incoming : RuntimeMessage) (peers : Dict Uuid Text) where
    run_plan-Within :
        (o : Option HandlerPlan)
        → ((plan : HandlerPlan) → o ≡ some plan → IsChecked host program service plan)
        → (state state' : Dict Text ℤ) (ctx ctx' : ActorContext V) (effects : ExecutedEffects)
        → run_plan host o service id incoming peers state ctx ≡ ok (effects, state', ctx')
        → Within effects.observed effects.declared
    unfolding run_plan infer_effects
    run_plan-Within none checked state state' ctx ctx' effects h =
        let nothing : effects ≡ record { declared = []; observed = [] } = cc in
        rw nothing (λ f k. k)
    run_plan-Within (some plan) checked state state' ctx ctx' effects h =
        let start : Effects V = record { state = state; ctx = ctx; observed = [] } in
        let (done, ran, rest) =
          >>=-eq-ok (execute_each host service id incoming peers plan.actions start)
            (λ (d : Effects V). ok (
              (let r : ExecutedEffects = record {
                declared = effect_set plan.declared_effects;
                observed = d.observed;
              } in
                  r),
              d.state,
              d.ctx,
            ))
            h in
        let seen : effects.observed ≡ done.observed = cc rest in
        let said : effects.declared ≡ effect_set plan.declared_effects = cc rest in
        rw (seen, said, ← (checked plan refl).contract)
          (execute_each-Within host service id incoming peers plan.actions start done [] ran
            (λ f k. k))

    -- When load_program accepts a module and a handler of the program runs without an error,
    -- every effect that the run observes is one that the handler declares.
    pub observed-Within-declared :
        (state state' : Dict Text ℤ) (ctx ctx' : ActorContext V) (effects : ExecutedEffects)
        → execute_actions host program service id incoming peers state ctx
          ≡ ok (effects, state', ctx')
        → Within effects.observed effects.declared
    unfolding execute_actions
    observed-Within-declared =
        run_plan-Within (Dict.get (service, incoming.msg_type) program.handlers)
          (load_program-IsChecked service incoming.msg_type)
