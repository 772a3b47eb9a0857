-- ===== src/Runtime/Node.antt =====
-- The state of a running node, its configuration, sending, and the handling of one delivery
-- (crates/runtime/src/main.rs). Both modes of the runtime share this part.
pub mod Silent
use unified_correctness_orie.Base.{
  ℕ, suc, ◌+◌, Bool, true, false, ◌&&◌, not, Option, none, some, List, [], ◌∷◌, ◌++◌, map, ltb,
  if◌then◌else◌, sat_add, Result, ok, err, ◌>>=◌, ◌>>◌, guard, or_fail, ◌==◌, nat_eq, list_eq,
}
use unified_correctness_orie.Base.Dict
use unified_correctness_orie.Base.Dict.{Dict}
use unified_correctness_orie.Base.Text.{Text}
use unified_correctness_orie.Runtime.Event.{Uuid, EventKind, WireEnvelope}
use unified_correctness_orie.Runtime.Host.{Host, RuntimeMessage}
use unified_correctness_orie.Runtime.Ids.{next_deterministic_msg_id, next_deterministic_timer_id}
use unified_correctness_orie.Runtime.Scheduler.{PendingDelivery}
use unified_correctness_orie.Runtime.Fault.{FaultConfig}
use unified_correctness_orie.Runtime.Actor.{
  Actor, ActorSystem, Target, Outgoing, LogEmission, new_context,
}
use unified_correctness_orie.Runtime.Program.{Program, effect_vec}
use unified_correctness_orie.Runtime.Actions.{ExecError, execute_actions}

pub data Mode : Type 0 where
  recording replaying : Mode

abbrev pub is_replaying : Mode → Bool
is_replaying Mode.recording = false
is_replaying Mode.replaying = true

pub record Config : Type 0 where
  pub mode : Mode
  pub trace_path : Text
  pub program_path : Text
  pub node_id : Uuid
  pub listen : Option Text
  pub peers : Dict Uuid Text
  pub bootstrap_hello : Bool
  pub bootstrap_burst : ℕ
  pub steps : ℕ
  pub idle_sleep_ms : ℕ
  pub startup_wait_ms : ℕ
  pub fault : FaultConfig

pub data RunError : Type 0 where
  unknown_target unknown_actor empty_inbox msg_id_mismatch decode_failed : RunError
  exec : ExecError → RunError
  no_services unknown_entry missing_mapping : RunError
  unexpected_event unknown_timer trace_ended emission_mismatch extra_event : RunError
  undelivered stopped_early out_of_fuel : RunError

pub record PendingTimer (V : Type 0) : Type 0 where
  pub due_step : ℕ
  pub timer_id : Uuid
  pub from_actor : Uuid
  pub target : Target
  pub payload : V

-- `wire` holds the envelopes handed to `net::send_envelope`, with their addresses, oldest first.
pub record Node (V : Type 0) : Type 0 where
  pub sys : ActorSystem V
  pub msg_counter : ℕ
  pub timer_counter : ℕ
  pub pending_timers : List (PendingTimer V)
  pub wire : List (Text × WireEnvelope V)

abbrev pub lift_exec : {A : Type 0} → Result ExecError A → Result RunError A
lift_exec (ok a) = ok a
lift_exec (err e) = err (RunError.exec e)

module _ {V : Type 0} where
  abbrev pub push_inbox : Uuid → V → Actor V → Actor V
  push_inbox msg_id payload actor = record actor { inbox = actor.inbox ++ (msg_id, payload) ∷ [] }

  -- The message goes to the inbox of a known actor; for an unknown one it is dropped.
  unfoldable pub deliver_to_inbox : Uuid → Uuid → V → ActorSystem V → ActorSystem V
  deliver_to_inbox to msg_id payload sys = elim (Dict.get to sys) [
    | none ↦ sys
    | some actor ↦ Dict.insert to (push_inbox msg_id payload actor) sys
  ]

  -- What `net::send_envelope` is called with: in the record mode, and for a peer with an address.
  unfoldable pub wire_send : Config → Mode → WireEnvelope V → List (Text × WireEnvelope V)
  wire_send cfg Mode.replaying envelope = []
  wire_send cfg Mode.recording envelope = elim (Dict.get envelope.to_node cfg.peers) [
    | none ↦ []
    | some addr ↦ (addr, envelope) ∷ []
  ]

  unfoldable pub dispatch_outgoing :
      Config
      → Dict Text Uuid
      → Uuid
      → Target
      → V
      → Mode
      → Node V
      → Result RunError (Node V × EventKind V)
  unfolding wire_send
  dispatch_outgoing cfg service_to_actor from_actor (Target.local_service service) payload mode
        node =
      do
        to_actor_id ← or_fail (Dict.get service service_to_actor) RunError.unknown_target
        let (msg_id, msg_counter) = next_deterministic_msg_id cfg.node_id node.msg_counter
        to_actor ← or_fail (Dict.get to_actor_id node.sys) RunError.unknown_actor
        let sys = Dict.insert to_actor_id (push_inbox msg_id payload to_actor) node.sys
        ok (
          record node { sys = sys; msg_counter = msg_counter },
          EventKind.send from_actor to_actor_id msg_id payload,
        )
  dispatch_outgoing cfg service_to_actor from_actor (Target.remote_service to_node service) payload
        mode node =
      do
        to_actor_id ← or_fail (Dict.get service service_to_actor) RunError.unknown_target
        let (msg_id, msg_counter) = next_deterministic_msg_id cfg.node_id node.msg_counter
        let envelope : WireEnvelope V = record {
          from_node = cfg.node_id;
          to_node = to_node;
          to_actor = to_actor_id;
          msg_id = msg_id;
          payload = payload;
        }
        ok (
          record node {
            msg_counter = msg_counter;
            wire = node.wire ++ wire_send cfg mode envelope;
          },
          EventKind.net_send cfg.node_id to_node from_actor msg_id payload,
        )

  -- One entry of `ctx.outbox`: a timer to set, or a message to send now.
  unfoldable pub send_outgoing :
      Config
      → Dict Text Uuid
      → Uuid
      → ℕ
      → Outgoing V
      → Node V
      → Result RunError (Node V × List (EventKind V))
  unfolding dispatch_outgoing
  send_outgoing cfg service_to_actor actor_id step out node =
      let (timer_id, timer_counter) = next_deterministic_timer_id cfg.node_id node.timer_counter in
      let timer : PendingTimer V = record {
        due_step = sat_add step out.delay_steps;
        timer_id = timer_id;
        from_actor = actor_id;
        target = out.target;
        payload = out.payload;
      } in
      if ltb 0 out.delay_steps
      then ok (
        record node {
          timer_counter = timer_counter;
          pending_timers = node.pending_timers ++ timer ∷ [];
        },
        [],
      )
      else (do
        (node', ev) ←
            dispatch_outgoing cfg service_to_actor actor_id out.target out.payload cfg.mode node
        ok (node', ev ∷ []))

  unfoldable pub send_all :
      Config
      → Dict Text Uuid
      → Uuid
      → ℕ
      → List (Outgoing V)
      → Node V
      → Result RunError (Node V × List (EventKind V))
  unfolding send_outgoing
  send_all cfg service_to_actor actor_id step [] node = ok (node, [])
  send_all cfg service_to_actor actor_id step (out ∷ outs) node = do
    (node', evs) ← send_outgoing cfg service_to_actor actor_id step out node
    (node'', more) ← send_all cfg service_to_actor actor_id step outs node'
    ok (node'', evs ++ more)

  unfoldable pub log_event : Uuid → Uuid → LogEmission → EventKind V
  log_event node_id actor_id emission =
      EventKind.log node_id actor_id emission.service emission.text

  abbrev pub pop_front : List (Uuid × V) → Option (Uuid × V × List (Uuid × V))
  pop_front [] = none
  pop_front ((msg_id, payload) ∷ rest) = some (msg_id, payload, rest)

  -- The run of the handler for a message that was taken from the inbox, and the sends behind it.
  unfoldable pub run_handler :
      Host V
      → Config
      → Program
      → Dict Text Uuid
      → ℕ
      → Actor V
      → Uuid
      → RuntimeMessage
      → Node V
      → Result RunError (Node V × List (EventKind V))
  unfolding send_all log_event
  run_handler host cfg program service_to_actor step actor msg_id incoming node = do
    target ← or_fail (Dict.get actor.id node.sys) RunError.unknown_actor
    (effects, state, ctx) ← lift_exec (
        execute_actions host program actor.service msg_id incoming cfg.peers target.state
          (new_context cfg.node_id))
    let effects_ev =
        EventKind.effect_observed cfg.node_id actor.id actor.service incoming.msg_type msg_id
          (effect_vec effects.declared) (effect_vec effects.observed)
    let sys = Dict.insert actor.id (record target { state = state }) node.sys
    let logs = map (log_event cfg.node_id actor.id) ctx.logs
    (node', sends) ←
        send_all cfg service_to_actor actor.id step ctx.outbox (record node { sys = sys })
    ok (node', effects_ev ∷ (logs ++ sends))

  -- The body of the loop from `actor.inbox.pop_front()` on: the node after, and the events that it
  -- emits, which the record mode writes and the replay mode expects.
  unfoldable pub process_delivery :
      Host V
      → Config
      → Program
      → Dict Text Uuid
      → ℕ
      → PendingDelivery
      → Node V
      → Result RunError (Node V × List (EventKind V))
  unfolding run_handler
  process_delivery host cfg program service_to_actor step d node = do
    actor ← or_fail (Dict.get d.to node.sys) RunError.unknown_actor
    (msg_id, payload, rest) ← or_fail (pop_front actor.inbox) RunError.empty_inbox
    guard (not (is_replaying cfg.mode && not (msg_id == d.msg_id))) RunError.msg_id_mismatch
    incoming ← or_fail (host.decode payload) RunError.decode_failed
    let popped = Dict.insert d.to (record actor { inbox = rest }) node.sys
    run_handler host cfg program service_to_actor step actor msg_id incoming
        (record node { sys = popped })

  abbrev pub inbox_heads : Uuid → ActorSystem V → List PendingDelivery
  inbox_heads node_id [] = []
  inbox_heads node_id ((aid, actor) ∷ sys) = elim actor.inbox [
    | [] ↦ inbox_heads node_id sys
    | m ∷ _ ↦ record { node = node_id; to = aid; msg_id = m.0 } ∷ inbox_heads node_id sys
  ]

  abbrev inbox_count : List (Uuid × V) → ℕ
  inbox_count [] = 0
  inbox_count (m ∷ ms) = suc (inbox_count ms)

  unfoldable pub pending_inbox_messages : ActorSystem V → ℕ
  pending_inbox_messages [] = 0
  pending_inbox_messages ((aid, actor) ∷ sys) = inbox_count actor.inbox + pending_inbox_messages sys
