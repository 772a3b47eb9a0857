-- ===== src/Tool/Cluster/Events.antt =====
-- What the traces of a cluster say, read off their events alone: which node each event is of, and
-- which messages were sent, received and dropped between nodes (crates/runtime/src/event.rs).
use unified_correctness_orie.Base.{◌≡◌, ◌⊎◌, true, List, [], ◌∷◌, ◌++◌, map}
use unified_correctness_orie.Base.Dict.Records.{Occurs}
use unified_correctness_orie.Runtime.Event.{Uuid, EventKind, FaultAction}
use unified_correctness_orie.Tool.Payload.{Reader}
use unified_correctness_orie.Tool.Evidence.{ClusterKey, ClusterTrace}

module _ {V : Type 0} where
  -- The events of all traces, in order.
  abbrev pub recorded : List (ClusterTrace V) → List (EventKind V)
  recorded [] = []
  recorded (trace ∷ traces) = map (λ ev. ev.kind) trace.events ++ recorded traces

  -- The node in whose trace the event stands.
  abbrev pub IsOf : Uuid → EventKind V → Type 0
  IsOf n (EventKind.spawn node actor service) = node ≡ n
  IsOf n (EventKind.deliver node to msg_id) = node ≡ n
  IsOf n (EventKind.timer_fired node from timer_id) = node ≡ n
  IsOf n (EventKind.net_recv node from_node to msg_id payload) = node ≡ n
  IsOf n (EventKind.net_send node to_node from msg_id payload) = node ≡ n
  IsOf n (EventKind.log node from service text) = node ≡ n
  IsOf n (EventKind.effect_observed node actor service msg_type msg_id declared observed) = node ≡ n
  IsOf n (EventKind.fault_injected node from_node to msg_id action) = node ≡ n
  IsOf n (EventKind.fault_policy node step drop_every delay_steps reorder_window) = node ≡ n
  IsOf n (EventKind.send from to msg_id payload) = ⊥

  -- The message of a sender for a receiver, sent with a payload.
  abbrev pub IsSend : ClusterKey → V → EventKind V → Type 0
  IsSend key payload (EventKind.net_send node to_node from msg_id sent) =
      (key ≡ (node, msg_id, to_node)) × (payload ≡ sent)
  IsSend key payload _ = ⊥

  -- The same message, received with a payload.
  abbrev pub IsRecv : ClusterKey → V → EventKind V → Type 0
  IsRecv key payload (EventKind.net_recv node from_node to msg_id received) =
      (key ≡ (from_node, msg_id, node)) × (payload ≡ received)
  IsRecv key payload _ = ⊥

  -- The same message, dropped where it arrived.
  abbrev pub IsDrop : ClusterKey → EventKind V → Type 0
  IsDrop key (EventKind.fault_injected node from_node to msg_id FaultAction.drop) =
      key ≡ (from_node, msg_id, node)
  IsDrop key _ = ⊥

  -- A node of the cluster has an event in a trace.
  abbrev pub InCluster : List (EventKind V) → Uuid → Type 0
  InCluster events n = Occurs (IsOf n) events

  -- Each message that was received from a node of the cluster was sent by it, with the same payload;
  -- each message of one that was dropped was sent; and each message that was sent to a node of the
  -- cluster was received there or dropped there, and not both.
  abbrev pub IsConsistent : Reader V → List (EventKind V) → Type 0
  IsConsistent reader events =
      ((key : ClusterKey) (payload : V)
        → Occurs (IsRecv key payload) events
        → InCluster events key.0
        → (sent : V) × Occurs (IsSend key sent) events × (reader.value_beq sent payload ≡ true))
      × ((key : ClusterKey)
          → Occurs (IsDrop key) events
          → InCluster events key.0
          → (sent : V) × Occurs (IsSend key sent) events)
      × ((key : ClusterKey) (sent : V)
          → Occurs (IsSend key sent) events
          → InCluster events key.2
          → ((payload : V) × Occurs (IsRecv key payload) events) ⊎ Occurs (IsDrop key) events)
      × ((key : ClusterKey) (sent payload : V)
          → Occurs (IsSend key sent) events
          → InCluster events key.2
          → Occurs (IsRecv key payload) events
          → Occurs (IsDrop key) events
          → ⊥)
