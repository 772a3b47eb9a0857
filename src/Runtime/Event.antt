-- ===== src/Runtime/Event.antt =====
-- crates/runtime/src/event.rs and net.rs: the trace events and the wire envelopes, over the type
-- `V` of JSON values.
use unified_correctness_orie.Base.{ℕ, List, Option}
use unified_correctness_orie.Base.Text.{Text}

-- A UUID is the `u128` that it stands for.
abbrev pub Uuid : Type 0
Uuid = ℕ

pub data FaultAction : Type 0 where
  drop : FaultAction
  delay : (steps : ℕ) → FaultAction
  reorder : (window : ℕ) → FaultAction

pub data EffectKind : Type 0 where
  log state_read state_write send_local send_remote timer_local timer_remote : EffectKind

pub data EventKind (V : Type 0) : Type 0 where
  spawn : (node actor : Uuid) (service : Text) → EventKind V
  send : (from to msg_id : Uuid) (payload : V) → EventKind V
  deliver : (node to msg_id : Uuid) → EventKind V
  timer_fired : (node from timer_id : Uuid) → EventKind V
  net_recv : (node from_node to msg_id : Uuid) (payload : V) → EventKind V
  net_send : (node to_node from msg_id : Uuid) (payload : V) → EventKind V
  log : (node from : Uuid) (service text : Text) → EventKind V
  effect_observed :
      (node actor : Uuid) (service msg_type : Text) (msg_id : Uuid)
      (declared observed : List EffectKind)
      → EventKind V
  fault_injected : (node from_node to msg_id : Uuid) (action : FaultAction) → EventKind V
  fault_policy :
      (node : Uuid) (step : ℕ) (drop_every : Option ℕ) (delay_steps reorder_window : ℕ)
      → EventKind V

pub record TraceEvent (V : Type 0) : Type 0 where
  pub seq : ℕ
  pub seed : ℕ
  pub kind : EventKind V

pub record WireEnvelope (V : Type 0) : Type 0 where
  pub from_node : Uuid
  pub to_node : Uuid
  pub to_actor : Uuid
  pub msg_id : Uuid
  pub payload : V
