-- ===== src/Runtime/Actions.antt =====
-- Executing the actions of a handler, with the provenance of what it sends
-- (crates/runtime/src/main.rs).
use unified_correctness_orie.Base.{
  ℕ, ℤ, Option, none, some, List, [], ◌∷◌, leb, if◌then◌else◌, sat_add, Result, ok, ◌>>=◌, or_fail,
  ◌==◌, nat_eq, list_eq, pair_eq, int_eq, checked_add,
}
use unified_correctness_orie.Base.Dict
use unified_correctness_orie.Base.Dict.{Dict}
use unified_correctness_orie.Base.Sort.{sort_by}
use unified_correctness_orie.Base.Text.{Text}
use unified_correctness_orie.Lang.Ast.{ActionDecl, HandlerEffect, RemoteTarget}
use unified_correctness_orie.Runtime.Event.{Uuid}
use unified_correctness_orie.Runtime.Host.{Host, RuntimeMessage, Provenance}
use unified_correctness_orie.Runtime.Actor
use unified_correctness_orie.Runtime.Actor.{ActorContext}
use unified_correctness_orie.Runtime.Program.{Program, HandlerPlan, set_insert, effect_set}
use unified_correctness_orie.Runtime.Template.{render_template}

pub data ExecError : Type 0 where
  unknown_state state_overflow : ExecError

-- What an action changes: the actor's state, the context and the observed effects.
pub record Effects (V : Type 0) : Type 0 where
  pub state : Dict Text ℤ
  pub ctx : ActorContext V
  pub observed : List HandlerEffect

pub record ExecutedEffects : Type 0 where
  pub declared : List HandlerEffect
  pub observed : List HandlerEffect

abbrev pub observe : {V : Type 0} → HandlerEffect → Effects V → Effects V
observe effect s = record s { observed = set_insert effect s.observed }

unfoldable pub sorted_peer_ids : Dict Uuid Text → List Uuid
unfolding sort_by
sorted_peer_ids peers = sort_by leb (Dict.keys peers)

module _ {V : Type 0} (host : Host V) where
  unfoldable pub next_outbound_provenance : RuntimeMessage → Uuid → Provenance
  next_outbound_provenance incoming incoming_msg_id = elim incoming.provenance [
    | some prev ↦ record {
      origin_node = prev.origin_node;
      origin_service = prev.origin_service;
      origin_msg_id = prev.origin_msg_id;
      parent_node = incoming.from_node;
      parent_msg_id = host.uuid_text incoming_msg_id;
      hops = sat_add prev.hops 1;
    }
    | none ↦ record {
      origin_node = incoming.from_node;
      origin_service = incoming.from_service;
      origin_msg_id = host.uuid_text incoming_msg_id;
      parent_node = incoming.from_node;
      parent_msg_id = host.uuid_text incoming_msg_id;
      hops = 1;
    }
  ]

  unfoldable pub build_outbound_message :
      Text → Text → Uuid → Text → RuntimeMessage → Uuid → RuntimeMessage
  unfolding next_outbound_provenance
  build_outbound_message msg_type text self_node service incoming incoming_msg_id = record {
    msg_type = msg_type;
    from_node = host.uuid_text self_node;
    from_service = service;
    text = text;
    provenance = some (next_outbound_provenance incoming incoming_msg_id);
  }

  -- To this node locally, to another over the wire, after `steps` (0: at once).
  unfoldable pub send_to_node : ℕ → Uuid → Text → V → ActorContext V → ActorContext V
  send_to_node steps node service payload ctx =
      if node == ctx.self_node
      then Actor.send_local_service_after steps service payload ctx
      else Actor.send_remote_service_after steps node service payload ctx

  unfoldable pub send_to_each : ℕ → List Uuid → Text → V → ActorContext V → ActorContext V
  unfolding send_to_node
  send_to_each steps [] service payload ctx = ctx
  send_to_each steps (peer ∷ peers) service payload ctx =
      send_to_each steps peers service payload (send_to_node steps peer service payload ctx)

  unfoldable pub send_to_peers : ℕ → List Uuid → Text → V → ActorContext V → ActorContext V
  unfolding send_to_each
  send_to_peers steps [] service payload ctx =
      Actor.send_local_service_after steps service payload ctx
  send_to_peers steps peer_ids service payload ctx = send_to_each steps peer_ids service payload ctx

  -- A node that does not parse is reported and skipped.
  unfoldable pub send_to_parsed : ℕ → Option Uuid → Text → V → ActorContext V → ActorContext V
  unfolding send_to_node
  send_to_parsed steps none service payload ctx = ctx
  send_to_parsed steps (some node) service payload ctx = send_to_node steps node service payload ctx

  -- The `match target` that `SendRemote` and `TimerRemote` share.
  unfoldable pub send_to_target :
      ℕ
      → RemoteTarget
      → Text
      → V
      → RuntimeMessage
      → Dict Uuid Text
      → ActorContext V
      → ActorContext V
  unfolding send_to_peers send_to_parsed
  send_to_target steps RemoteTarget.peers service payload incoming peers ctx =
      send_to_peers steps (sorted_peer_ids peers) service payload ctx
  send_to_target steps RemoteTarget.sender service payload incoming peers ctx =
      send_to_parsed steps (host.parse_uuid incoming.from_node) service payload ctx
  send_to_target steps (RemoteTarget.node raw) service payload incoming peers ctx =
      send_to_parsed steps (host.parse_uuid raw) service payload ctx

  module _ (service : Text) (incoming_msg_id : Uuid) (incoming : RuntimeMessage)
      (peers : Dict Uuid Text) where
    -- The rendered and encoded message of a sending action.
    unfoldable pub outbound_payload : Text → Text → Effects V → V
    unfolding build_outbound_message
    outbound_payload message template s =
        let text = render_template host template s.ctx.self_node service incoming s.state in
        host.encode
          (build_outbound_message message text s.ctx.self_node service incoming incoming_msg_id)

    unfoldable pub execute_action : ActionDecl → Effects V → Result ExecError (Effects V)
    unfolding outbound_payload send_to_target
    execute_action (ActionDecl.log template) s =
        let msg = render_template host template s.ctx.self_node service incoming s.state in
        ok (record (observe HandlerEffect.log s) { ctx = Actor.log service msg s.ctx })
    execute_action (ActionDecl.set_state key value) s = do
      _ ← or_fail (Dict.get key s.state) unknown_state
      ok (record (observe HandlerEffect.state_write s) { state = Dict.insert key value s.state })
    execute_action (ActionDecl.inc_state key by) s = do
      slot ← or_fail (Dict.get key s.state) unknown_state
      sum ← or_fail (checked_add slot by) state_overflow
      ok (record (observe HandlerEffect.state_write s) { state = Dict.insert key sum s.state })
    execute_action (ActionDecl.timer_local steps target message template) s =
        let payload = outbound_payload message template s in
        ok (record (observe HandlerEffect.timer_local s) {
          ctx = Actor.send_local_service_after steps target payload s.ctx;
        })
    execute_action (ActionDecl.timer_remote steps target to message template) s =
        let payload = outbound_payload message template s in
        ok (record (observe HandlerEffect.timer_remote s) {
          ctx = send_to_target steps target to payload incoming peers s.ctx;
        })
    execute_action (ActionDecl.send_local target message template) s =
        let payload = outbound_payload message template s in
        ok (record (observe HandlerEffect.send_local s) {
          ctx = Actor.send_local_service target payload s.ctx;
        })
    execute_action (ActionDecl.send_remote target to message template) s =
        let payload = outbound_payload message template s in
        ok (record (observe HandlerEffect.send_remote s) {
          ctx = send_to_target 0 target to payload incoming peers s.ctx;
        })
    execute_action (ActionDecl.if_state_eq key value then_action) s =
        let taken = execute_action then_action (observe HandlerEffect.state_read s) in
        do
          current ← or_fail (Dict.get key s.state) unknown_state
          (if current == value then taken else ok (observe HandlerEffect.state_read s))

    unfoldable pub execute_each : List ActionDecl → Effects V → Result ExecError (Effects V)
    unfolding execute_action
    execute_each [] s = ok s
    execute_each (a ∷ actions) s = do s' ← execute_action a s; execute_each actions s'

  -- The handler's actions, if there is a handler. A message without one does nothing.
  unfoldable pub run_plan :
      Option HandlerPlan
      → Text
      → Uuid
      → RuntimeMessage
      → Dict Uuid Text
      → Dict Text ℤ
      → ActorContext V
      → Result ExecError (ExecutedEffects × Dict Text ℤ × ActorContext V)
  unfolding execute_each
  run_plan none service incoming_msg_id incoming peers state ctx =
      ok (record { declared = []; observed = [] }, state, ctx)
  run_plan (some plan) service incoming_msg_id incoming peers state ctx = do
    done ←
        execute_each service incoming_msg_id incoming peers plan.actions
          (record { state = state; ctx = ctx; observed = [] })
    ok (
      record { declared = effect_set plan.declared_effects; observed = done.observed },
      done.state,
      done.ctx,
    )

  -- The effects, the actor's state after, and the context.
  unfoldable pub execute_actions :
      Program
      → Text
      → Uuid
      → RuntimeMessage
      → Dict Uuid Text
      → Dict Text ℤ
      → ActorContext V
      → Result ExecError (ExecutedEffects × Dict Text ℤ × ActorContext V)
  unfolding run_plan
  execute_actions program service incoming_msg_id incoming peers state ctx =
      run_plan (Dict.get (service, incoming.msg_type) program.handlers) service incoming_msg_id
        incoming peers state ctx
