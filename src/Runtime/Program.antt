-- ===== src/Runtime/Program.antt =====
-- Loading a service program: duplicate checks, validation of the actions, and the contract between
-- declared and inferred effects (crates/runtime/src/main.rs).
use unified_correctness_orie.Base.{
  ℤ, Bool, true, false, not, Option, none, some, List, [], ◌∷◌, ◌++◌, ltb, eqb, if◌then◌else◌,
  Result, ok, err, ◌>>=◌, ◌>>◌, guard, or_fail, ◌==◌, nat_eq, list_eq, pair_eq, map,
}
use unified_correctness_orie.Base.Dict
use unified_correctness_orie.Base.Dict.{Dict}
use unified_correctness_orie.Base.Text.{Text}
use unified_correctness_orie.Lang.Ast.{
  Module, ServiceDecl, StateDecl, HandlerDecl, HandlerEffect, ActionDecl, RemoteTarget, rank,
  effect_eq,
}
use unified_correctness_orie.Runtime.Event.{Uuid, EffectKind}
use unified_correctness_orie.Runtime.Actor.{Actor, ActorSystem}
use unified_correctness_orie.Runtime.Host.{Host}

pub record HandlerPlan : Type 0 where
  pub actions : List ActionDecl
  pub declared_effects : List HandlerEffect

pub record Program : Type 0 where
  pub services : List Text
  pub service_initial_state : Dict Text (Dict Text ℤ)
  pub handlers : Dict (Text × Text) HandlerPlan

pub data ProgramError : Type 0 where
  duplicate_service duplicate_state effects_twice missing_state undeclared_state : ProgramError
  unknown_service zero_steps invalid_node effect_mismatch : ProgramError

-- `BTreeSet::insert`, on the list of the set's elements in their order.
unfoldable pub set_insert : HandlerEffect → List HandlerEffect → List HandlerEffect
set_insert e [] = e ∷ []
set_insert e (f ∷ fs) =
    if ltb (rank e) (rank f)
    then e ∷ (f ∷ fs)
    else if eqb (rank e) (rank f)
    then f ∷ fs
    else f ∷ set_insert e fs

unfoldable pub effect_set : List HandlerEffect → List HandlerEffect
unfolding set_insert
effect_set [] = []
effect_set (e ∷ es) = set_insert e (effect_set es)

unfoldable pub infer_action_effects : ActionDecl → List HandlerEffect → List HandlerEffect
unfolding set_insert
infer_action_effects (ActionDecl.log _) out = set_insert HandlerEffect.log out
infer_action_effects (ActionDecl.set_state _ _) out = set_insert HandlerEffect.state_write out
infer_action_effects (ActionDecl.inc_state _ _) out = set_insert HandlerEffect.state_write out
infer_action_effects (ActionDecl.timer_local _ _ _ _) out = set_insert HandlerEffect.timer_local out
infer_action_effects (ActionDecl.timer_remote _ _ _ _ _) out =
    set_insert HandlerEffect.timer_remote out
infer_action_effects (ActionDecl.send_local _ _ _) out = set_insert HandlerEffect.send_local out
infer_action_effects (ActionDecl.send_remote _ _ _ _) out = set_insert HandlerEffect.send_remote out
infer_action_effects (ActionDecl.if_state_eq _ _ then_action) out =
    infer_action_effects then_action (set_insert HandlerEffect.state_read out)

unfoldable pub infer_from : List HandlerEffect → List ActionDecl → List HandlerEffect
infer_from out [] = out
infer_from out (a ∷ actions) = infer_from (infer_action_effects a out) actions

unfoldable pub infer_effects : List ActionDecl → List HandlerEffect
unfolding infer_from infer_action_effects
infer_effects actions = infer_from [] actions

unfoldable pub to_runtime_effect : HandlerEffect → EffectKind
to_runtime_effect HandlerEffect.log = EffectKind.log
to_runtime_effect HandlerEffect.state_read = EffectKind.state_read
to_runtime_effect HandlerEffect.state_write = EffectKind.state_write
to_runtime_effect HandlerEffect.send_local = EffectKind.send_local
to_runtime_effect HandlerEffect.send_remote = EffectKind.send_remote
to_runtime_effect HandlerEffect.timer_local = EffectKind.timer_local
to_runtime_effect HandlerEffect.timer_remote = EffectKind.timer_remote

unfoldable pub effect_vec : List HandlerEffect → List EffectKind
unfolding to_runtime_effect
effect_vec effects = map to_runtime_effect effects

module _ {V : Type 0} (host : Host V) where
  known_node : RemoteTarget → Result ProgramError (Unit {0})
  known_node (RemoteTarget.node raw) = elim (host.parse_uuid raw) [
    | none ↦ err invalid_node
    | some _ ↦ ok tt
  ]
  known_node _ = ok tt

  unfoldable pub validate_action :
      Dict Text ℤ → List Text → ActionDecl → Result ProgramError (Unit {0})
  unfolding known_node
  validate_action state service_names (ActionDecl.log _) = ok tt
  validate_action state service_names (ActionDecl.set_state key _) =
      guard (Dict.has key state) undeclared_state
  validate_action state service_names (ActionDecl.inc_state key _) =
      guard (Dict.has key state) undeclared_state
  validate_action state service_names (ActionDecl.timer_local steps service _ _) = do
    guard (Dict.contains service_names service) unknown_service
    guard (not (eqb steps 0)) zero_steps
  validate_action state service_names (ActionDecl.timer_remote steps target service _ _) = do
    guard (Dict.contains service_names service) unknown_service
    guard (not (eqb steps 0)) zero_steps
    known_node target
  validate_action state service_names (ActionDecl.send_local service _ _) =
      guard (Dict.contains service_names service) unknown_service
  validate_action state service_names (ActionDecl.send_remote target service _ _) = do
    guard (Dict.contains service_names service) unknown_service
    known_node target
  validate_action state service_names (ActionDecl.if_state_eq key _ then_action) =
      let nested = validate_action state service_names then_action in
      do guard (Dict.has key state) undeclared_state; nested

  unfoldable pub validate_actions :
      Dict Text ℤ → List Text → List ActionDecl → Result ProgramError (Unit {0})
  unfolding validate_action
  validate_actions state service_names [] = ok tt
  validate_actions state service_names (a ∷ actions) = do
    validate_action state service_names a
    validate_actions state service_names actions

  -- The second loop of `load_program`, over the handlers.
  unfoldable pub check_handlers :
      Dict Text (Dict Text ℤ)
      → List Text
      → Dict (Text × Text) HandlerPlan
      → Result ProgramError (Unit {0})
  unfolding validate_actions infer_effects effect_set
  check_handlers states services [] = ok tt
  check_handlers states services (((service, msg_type), plan) ∷ handlers) = do
    state ← or_fail (Dict.get service states) missing_state
    validate_actions state services plan.actions
    guard (infer_effects plan.actions == effect_set plan.declared_effects) effect_mismatch
    check_handlers states services handlers

unfoldable pub load_states : Dict Text ℤ → List StateDecl → Result ProgramError (Dict Text ℤ)
load_states state [] = ok state
load_states state (decl ∷ decls) = do
  guard (not (Dict.has decl.name state)) duplicate_state
  load_states (Dict.insert decl.name decl.initial state) decls

abbrev empty_plan : HandlerPlan
empty_plan = record { actions = []; declared_effects = [] }

abbrev is_empty {ℓ} : {A : Type ℓ} → List A → Bool
is_empty [] = true
is_empty (x ∷ xs) = false

abbrev plan_or_empty : Option HandlerPlan → HandlerPlan
plan_or_empty none = empty_plan
plan_or_empty (some plan) = plan

unfoldable pub load_handlers :
    Text
    → Dict (Text × Text) HandlerPlan
    → List HandlerDecl
    → Result ProgramError (Dict (Text × Text) HandlerPlan)
load_handlers service handlers [] = ok handlers
load_handlers service handlers (h ∷ hs) = do
  let plan = plan_or_empty (Dict.get (service, h.on) handlers)
  guard (is_empty plan.declared_effects) effects_twice
  let updated : HandlerPlan = record {
    actions = plan.actions ++ h.actions;
    declared_effects = h.effects;
  }
  load_handlers service (Dict.insert (service, h.on) updated handlers) hs

-- The first loop of `load_program`, over the services.
unfoldable pub load_services : Program → List ServiceDecl → Result ProgramError Program
unfolding load_states load_handlers
load_services program [] = ok program
load_services program (service ∷ rest) = do
  guard (not (Dict.contains program.services service.name)) duplicate_service
  state ← load_states [] service.states
  handlers ← load_handlers service.name program.handlers service.handlers
  load_services
      (record {
        services = program.services ++ service.name ∷ [];
        service_initial_state = Dict.insert service.name state program.service_initial_state;
        handlers = handlers;
      })
      rest

-- `load_program`, past reading and parsing the file.
unfoldable pub load_program : {V : Type 0} → Host V → Module → Result ProgramError Program
unfolding load_services check_handlers
load_program host m = do
  program ←
      load_services (record { services = []; service_initial_state = []; handlers = [] }) m.services
  check_handlers host program.service_initial_state program.services program.handlers
  ok program

abbrev or_no_state : Option (Dict Text ℤ) → Dict Text ℤ
or_no_state none = []
or_no_state (some state) = state

-- `build_actor_system`; a loaded program has an initial state for each service.
unfoldable pub build_actors :
    {V : Type 0}
    → Host V
    → Program
    → List Text
    → ActorSystem V × Dict Text Uuid
    → ActorSystem V × Dict Text Uuid
build_actors host program [] built = built
build_actors {V} host program (service ∷ services) (sys, service_to_actor) =
    let actor_id = host.new_v5 service in
    let actor : Actor V = record {
      id = actor_id;
      service = service;
      state = or_no_state (Dict.get service program.service_initial_state);
      inbox = [];
    } in
    build_actors host program services
      (Dict.insert actor_id actor sys, Dict.insert service actor_id service_to_actor)

unfoldable pub build_actor_system : {V : Type 0} → Host V → Program → ActorSystem V × Dict Text Uuid
unfolding build_actors
build_actor_system host program = build_actors host program program.services ([], [])
