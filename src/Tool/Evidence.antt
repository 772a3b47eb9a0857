-- ===== src/Tool/Evidence.antt =====
-- The evidence that verify_cluster collects from the traces of several nodes
-- (crates/tool/src/main.rs).
use unified_correctness_orie.Base.{
  ℕ, Bool, true, false, Option, none, some, List, [], ◌∷◌, ltb, length, nat_eq, list_eq, pair_eq,
  triple_eq,
}
use unified_correctness_orie.Base.Dict
use unified_correctness_orie.Base.Dict.{Dict}
use unified_correctness_orie.Base.Text.{Text}
use unified_correctness_orie.Base.Writer.{Writer, ◌>>=◌, ◌>>◌, pure, tell}
use unified_correctness_orie.Runtime.Event.{Uuid, EventKind, FaultAction, TraceEvent}
use unified_correctness_orie.Tool.Payload.{LineageKey}

-- Sender, message, receiver.
abbrev pub ClusterKey : Type 0
ClusterKey = Uuid × Uuid × Uuid

pub data ClusterProblem : Type 0 where
  no_node_scope mixed_nodes : (path : Text) → ClusterProblem
  duplicate_send duplicate_recv duplicate_drop : (key : ClusterKey) → ClusterProblem
  recv_without_send payload_mismatch drop_without_send : (key : ClusterKey) → ClusterProblem
  recv_and_drop send_without_evidence : (key : ClusterKey) → ClusterProblem
  duplicate_lineage invalid_parent hops_mismatch origin_msg_mismatch :
      (key : LineageKey) → ClusterProblem
  origin_node_mismatch origin_service_mismatch missing_parent : (key : LineageKey) → ClusterProblem

pub record ClusterTrace (V : Type 0) : Type 0 where
  pub path : Text
  pub events : List (TraceEvent V)

pub record NetRecord (V : Type 0) : Type 0 where
  pub path : Text
  pub seq : ℕ
  pub payload : V

pub record DropRecord : Type 0 where
  pub path : Text
  pub seq : ℕ

-- The counters of `ClusterVerifyReport`; its problems are what is told.
pub record Counts : Type 0 where
  pub matched_recv : ℕ
  pub matched_drop : ℕ
  pub resolved_lineage_parents : ℕ
  pub external_lineage_parents : ℕ
  pub external_inbound : ℕ
  pub external_outbound : ℕ

abbrev pub no_counts : Counts
no_counts = record {
  matched_recv = 0;
  matched_drop = 0;
  resolved_lineage_parents = 0;
  external_lineage_parents = 0;
  external_inbound = 0;
  external_outbound = 0;
}

abbrev is_nil {ℓ} : {A : Type ℓ} → List A → Bool
is_nil [] = true
is_nil (x ∷ xs) = false

-- A problem if the test holds.
abbrev pub report_if : Bool → ClusterProblem → List ClusterProblem
report_if true p = p ∷ []
report_if false p = []

unfoldable pub extend : List Uuid → List Uuid → List Uuid
extend [] included = included
extend (n ∷ nodes) included = Dict.include n (extend nodes included)

abbrev pub include_some : Option Uuid → List Uuid → List Uuid
include_some none nodes = nodes
include_some (some n) nodes = Dict.include n nodes

pub record Evidence (V : Type 0) : Type 0 where
  pub sends : Dict ClusterKey (NetRecord V)
  pub recvs : Dict ClusterKey (NetRecord V)
  pub drops : Dict ClusterKey DropRecord

module _ {V : Type 0} where
  unfoldable pub event_local_node : EventKind V → Option Uuid
  event_local_node (EventKind.spawn node _ _) = some node
  event_local_node (EventKind.deliver node _ _) = some node
  event_local_node (EventKind.timer_fired node _ _) = some node
  event_local_node (EventKind.net_recv node _ _ _ _) = some node
  event_local_node (EventKind.net_send node _ _ _ _) = some node
  event_local_node (EventKind.log node _ _ _) = some node
  event_local_node (EventKind.effect_observed node _ _ _ _ _ _) = some node
  event_local_node (EventKind.fault_injected node _ _ _ _) = some node
  event_local_node (EventKind.fault_policy node _ _ _ _) = some node
  event_local_node (EventKind.send _ _ _ _) = none

  unfoldable pub trace_nodes : List (TraceEvent V) → List Uuid
  unfolding event_local_node
  trace_nodes [] = []
  trace_nodes (ev ∷ evs) = include_some (event_local_node ev.kind) (trace_nodes evs)

  unfoldable pub collect_nodes :
      List (ClusterTrace V) → List Uuid → Writer ClusterProblem (List Uuid)
  unfolding trace_nodes extend
  collect_nodes [] included = pure included
  collect_nodes (trace ∷ traces) included =
      let nodes = trace_nodes trace.events in
      do
        tell (report_if (is_nil nodes) (no_node_scope trace.path))
        tell (report_if (ltb 1 (length nodes)) (mixed_nodes trace.path))
        collect_nodes traces (extend nodes included)

  -- A later record of a key takes the place of the earlier one.
  unfoldable pub collect_network :
      Text → ℕ → EventKind V → Evidence V → Writer ClusterProblem (Evidence V)
  collect_network path seq (EventKind.net_send node to_node from msg_id payload) e =
      let key : ClusterKey = (node, msg_id, to_node) in
      do
        tell (report_if (Dict.has key e.sends) (duplicate_send key))
        pure (record e {
          sends = Dict.insert key (record { path = path; seq = seq; payload = payload }) e.sends;
        })
  collect_network path seq (EventKind.net_recv node from_node to msg_id payload) e =
      let key : ClusterKey = (from_node, msg_id, node) in
      do
        tell (report_if (Dict.has key e.recvs) (duplicate_recv key))
        pure (record e {
          recvs = Dict.insert key (record { path = path; seq = seq; payload = payload }) e.recvs;
        })
  collect_network path seq (EventKind.fault_injected node from_node to msg_id FaultAction.drop) e =
      let key : ClusterKey = (from_node, msg_id, node) in
      do
        tell (report_if (Dict.has key e.drops) (duplicate_drop key))
        pure (record e { drops = Dict.insert key (record { path = path; seq = seq }) e.drops })
  collect_network path seq _ e = pure e

  unfoldable pub collect_trace :
      Text → List (TraceEvent V) → Evidence V → Writer ClusterProblem (Evidence V)
  unfolding collect_network
  collect_trace path [] e = pure e
  collect_trace path (ev ∷ evs) e = do
    e' ← collect_network path ev.seq ev.kind e
    collect_trace path evs e'

  unfoldable pub collect_evidence :
      List (ClusterTrace V) → Evidence V → Writer ClusterProblem (Evidence V)
  unfolding collect_trace
  collect_evidence [] e = pure e
  collect_evidence (trace ∷ traces) e = do
    e' ← collect_trace trace.path trace.events e
    collect_evidence traces e'
