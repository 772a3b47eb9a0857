-- ===== src/Tool/Cluster/Nodes.antt =====
-- That verify_cluster knows the nodes of its traces (crates/tool/src/main.rs).
use unified_correctness_orie.Base.{
  ◌≡◌, refl, ap, true, some, List, [], ◌∷◌, map, Option, none, inl, inr, Bool-cases, nat_eq,
  eqb_iff, eqb,
}
use unified_correctness_orie.Base.Dict
use unified_correctness_orie.Base.Dict.{contains-include}
use unified_correctness_orie.Base.Dict.Records.{Occurs, Occurs-split}
use unified_correctness_orie.Runtime.Event.{Uuid, EventKind, TraceEvent}
use unified_correctness_orie.Tool.Evidence.{
  ClusterTrace, extend, include_some, event_local_node, trace_nodes, collect_nodes,
}
use unified_correctness_orie.Tool.Cluster.Events.{recorded, IsOf, InCluster}

include-new : (n : Uuid) (nodes : List Uuid) → Dict.contains (Dict.include n nodes) n ≡ true
include-new n nodes = rw (contains-include n n nodes, (eqb_iff n n).1 refl) refl

include-old :
    (m n : Uuid) (nodes : List Uuid)
    → Dict.contains nodes n ≡ true
    → Dict.contains (Dict.include m nodes) n ≡ true
include-old m n nodes h = elim (Bool-cases (eqb m n)) [
  | inl same ↦ rw (contains-include m n nodes, same) refl
  | inr other ↦ rw (contains-include m n nodes, other) h
]

extend-old :
    (nodes included : List Uuid) (n : Uuid)
    → Dict.contains included n ≡ true
    → Dict.contains (extend nodes included) n ≡ true
unfolding extend
extend-old [] included n h = h
extend-old (m ∷ nodes) included n h =
    include-old m n (extend nodes included) (extend-old nodes included n h)

extend-new :
    (nodes included : List Uuid) (n : Uuid)
    → Dict.contains nodes n ≡ true
    → Dict.contains (extend nodes included) n ≡ true
unfolding extend Dict.contains
extend-new [] included n h = cc
extend-new (m ∷ nodes) included n h = elim (Bool-cases (eqb m n)) [
  | inl same ↦
      (let equal = (eqb_iff m n).0 same in rw equal (include-new n (extend nodes included)))
  | inr other ↦
      include-old m n (extend nodes included) (extend-new nodes included n (rw other at h))
]

include_some-old :
    (o : Option Uuid) (n : Uuid) (nodes : List Uuid)
    → Dict.contains nodes n ≡ true
    → Dict.contains (include_some o nodes) n ≡ true
include_some-old none n nodes h = h
include_some-old (some m) n nodes h = include-old m n nodes h

module _ {V : Type 0} where
  event_local_node-IsOf :
      (n : Uuid) (kind : EventKind V) → IsOf n kind → event_local_node kind ≡ some n
  unfolding event_local_node
  event_local_node-IsOf n (EventKind.spawn _ _ _) h = ap some h
  event_local_node-IsOf n (EventKind.deliver _ _ _) h = ap some h
  event_local_node-IsOf n (EventKind.timer_fired _ _ _) h = ap some h
  event_local_node-IsOf n (EventKind.net_recv _ _ _ _ _) h = ap some h
  event_local_node-IsOf n (EventKind.net_send _ _ _ _ _) h = ap some h
  event_local_node-IsOf n (EventKind.log _ _ _ _) h = ap some h
  event_local_node-IsOf n (EventKind.effect_observed _ _ _ _ _ _ _) h = ap some h
  event_local_node-IsOf n (EventKind.fault_injected _ _ _ _ _) h = ap some h
  event_local_node-IsOf n (EventKind.fault_policy _ _ _ _ _) h = ap some h
  event_local_node-IsOf n (EventKind.send _ _ _ _) h = absurd h

  trace_nodes-IsOf :
      (n : Uuid) (events : List (TraceEvent V))
      → Occurs (IsOf n) (map (λ ev. ev.kind) events)
      → Dict.contains (trace_nodes events) n ≡ true
  unfolding trace_nodes
  trace_nodes-IsOf n [] h = absurd h
  trace_nodes-IsOf n (ev ∷ events) (inl here) =
      rw (event_local_node-IsOf n ev.kind here) (include-new n (trace_nodes events))
  trace_nodes-IsOf n (ev ∷ events) (inr later) =
      include_some-old (event_local_node ev.kind) n (trace_nodes events)
        (trace_nodes-IsOf n events later)

  collect_nodes-old :
      (traces : List (ClusterTrace V)) (included : List Uuid) (n : Uuid)
      → Dict.contains included n ≡ true
      → Dict.contains (collect_nodes traces included).0 n ≡ true
  unfolding collect_nodes
  collect_nodes-old [] included n h = h
  collect_nodes-old (trace ∷ traces) included n h =
      collect_nodes-old traces _ n (extend-old (trace_nodes trace.events) included n h)

  pub collect_nodes-InCluster :
      (traces : List (ClusterTrace V)) (included : List Uuid) (n : Uuid)
      → InCluster (recorded traces) n
      → Dict.contains (collect_nodes traces included).0 n ≡ true
  unfolding collect_nodes
  collect_nodes-InCluster [] included n h = absurd h
  collect_nodes-InCluster (trace ∷ traces) included n h =
      let nodes = trace_nodes trace.events in
      elim (Occurs-split (IsOf n) (map (λ ev. ev.kind) trace.events) (recorded traces) h) [
        | inl here ↦
            collect_nodes-old traces _ n
              (extend-new nodes included n (trace_nodes-IsOf n trace.events here))
        | inr later ↦ collect_nodes-InCluster traces (extend nodes included) n later
      ]
