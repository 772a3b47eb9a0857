-- ===== src/Tool/Cluster/Collected.antt =====
-- That the evidence which verify_cluster collects is what the events say, in a cluster without
-- repeated messages (crates/tool/src/main.rs).
use unified_correctness_orie.Base.{
  ℕ, ◌≡◌, refl, Bool, true, false, List, [], ◌∷◌, ◌++◌, map, append-eq-nil, nat_eq, triple_eq,
}
use unified_correctness_orie.Base.Dict.Records.{
  Records, Records-nil, Records-append, Records-skip, Records-insert,
}
use unified_correctness_orie.Base.Text.{Text}
use unified_correctness_orie.Runtime.Event.{EventKind, FaultAction, TraceEvent}
use unified_correctness_orie.Tool.Evidence.{
  ClusterKey, ClusterProblem, ClusterTrace, NetRecord, DropRecord, Evidence, report_if,
  collect_network, collect_trace, collect_evidence,
}
use unified_correctness_orie.Tool.Cluster.Events.{recorded, IsSend, IsRecv, IsDrop}

abbrev no_content : DropRecord → Unit {0}
no_content r = tt

report_if-nil : (b : Bool) (p : ClusterProblem) → report_if b p ++ [] ≡ [] → b ≡ false
report_if-nil true p h = cc
report_if-nil false p h = refl

module _ {V : Type 0} where
  abbrev payload_of : NetRecord V → V
  payload_of r = r.payload

  abbrev Drops : ClusterKey → Unit {0} → EventKind V → Type 0
  Drops key c kind = IsDrop key kind

  -- From one state of the evidence to the next, the events' messages are recorded, and no other.
  abbrev pub Collected : Evidence V → Evidence V → List (EventKind V) → Type 0
  Collected e e' events =
      Records payload_of IsSend e.sends e'.sends events
      × Records payload_of IsRecv e.recvs e'.recvs events
      × Records no_content Drops e.drops e'.drops events

  Collected-append :
      (e e' e'' : Evidence V) (xs ys : List (EventKind V))
      → Collected e e' xs
      → Collected e' e'' ys
      → Collected e e'' (xs ++ ys)
  Collected-append e e' e'' xs ys (s, r, d) (s', r', d') = (
    Records-append payload_of IsSend e.sends e'.sends e''.sends xs ys s s',
    Records-append payload_of IsRecv e.recvs e'.recvs e''.recvs xs ys r r',
    Records-append no_content Drops e.drops e'.drops e''.drops xs ys d d',
  )

  Collected-nil : (e : Evidence V) → Collected e e []
  Collected-nil e = (
    Records-nil payload_of IsSend e.sends,
    Records-nil payload_of IsRecv e.recvs,
    Records-nil no_content Drops e.drops,
  )

  module _ (e : Evidence V) (kind : EventKind V) where
    sends-skip :
        ((key : ClusterKey) (p : V) → IsSend key p kind → ⊥)
        → Records payload_of IsSend e.sends e.sends (kind ∷ [])
    sends-skip = Records-skip payload_of IsSend e.sends kind

    recvs-skip :
        ((key : ClusterKey) (p : V) → IsRecv key p kind → ⊥)
        → Records payload_of IsRecv e.recvs e.recvs (kind ∷ [])
    recvs-skip = Records-skip payload_of IsRecv e.recvs kind

    drops-skip :
        ((key : ClusterKey) → IsDrop key kind → ⊥)
        → Records no_content Drops e.drops e.drops (kind ∷ [])
    drops-skip other = Records-skip no_content Drops e.drops kind (λ key c h. other key h)

    -- An event that is about no message between nodes.
    unrelated :
        ((key : ClusterKey) (p : V) → IsSend key p kind → ⊥)
        → ((key : ClusterKey) (p : V) → IsRecv key p kind → ⊥)
        → ((key : ClusterKey) → IsDrop key kind → ⊥)
        → Collected e e (kind ∷ [])
    unrelated s r d = (sends-skip s, recvs-skip r, drops-skip d)

  collect_network-Collected :
      (path : Text) (seq : ℕ) (kind : EventKind V) (e : Evidence V)
      → (collect_network path seq kind e).1 ≡ []
      → Collected e (collect_network path seq kind e).0 (kind ∷ [])
  unfolding collect_network
  collect_network-Collected path seq (EventKind.net_send node to_node from msg_id payload) e h =
      let kind : EventKind V = EventKind.net_send node to_node from msg_id payload in
      (
        Records-insert payload_of IsSend e.sends (node, msg_id, to_node) _ kind
            (report_if-nil _ _ h) (refl, refl) (λ key c k. k),
        recvs-skip e kind (λ key p k. k),
        drops-skip e kind (λ key k. k),
      )
  collect_network-Collected path seq (EventKind.net_recv node from_node to msg_id payload) e h =
      let kind : EventKind V = EventKind.net_recv node from_node to msg_id payload in
      (
        sends-skip e kind (λ key p k. k),
        Records-insert payload_of IsRecv e.recvs (from_node, msg_id, node) _ kind
            (report_if-nil _ _ h) (refl, refl) (λ key c k. k),
        drops-skip e kind (λ key k. k),
      )
  collect_network-Collected path seq
        (EventKind.fault_injected node from_node to msg_id FaultAction.drop) e h =
      let kind : EventKind V = EventKind.fault_injected node from_node to msg_id FaultAction.drop in
      (
        sends-skip e kind (λ key p k. k),
        recvs-skip e kind (λ key p k. k),
        Records-insert no_content Drops e.drops (from_node, msg_id, node) _ kind
            (report_if-nil _ _ h) refl (λ key c k. (k, refl)),
      )
  collect_network-Collected path seq kind e h =
      unrelated e kind (λ key p k. k) (λ key p k. k) (λ key k. k)

  collect_trace-Collected :
      (path : Text) (events : List (TraceEvent V)) (e : Evidence V)
      → (collect_trace path events e).1 ≡ []
      → Collected e (collect_trace path events e).0 (map (λ ev. ev.kind) events)
  unfolding collect_trace
  collect_trace-Collected path [] e h = Collected-nil e
  collect_trace-Collected path (ev ∷ events) e h =
      let q = append-eq-nil _ _ h in
      let e' = (collect_network path ev.seq ev.kind e).0 in
      Collected-append e e' (collect_trace path events e').0 (ev.kind ∷ [])
        (map (λ v. v.kind) events) (collect_network-Collected path ev.seq ev.kind e q.0)
        (collect_trace-Collected path events e' q.1)

  pub collect_evidence-Collected :
      (traces : List (ClusterTrace V)) (e : Evidence V)
      → (collect_evidence traces e).1 ≡ []
      → Collected e (collect_evidence traces e).0 (recorded traces)
  unfolding collect_evidence
  collect_evidence-Collected [] e h = Collected-nil e
  collect_evidence-Collected (trace ∷ traces) e h =
      let q = append-eq-nil _ _ h in
      let e' = (collect_trace trace.path trace.events e).0 in
      Collected-append e e' (collect_evidence traces e').0 (map (λ v. v.kind) trace.events)
        (recorded traces) (collect_trace-Collected trace.path trace.events e q.0)
        (collect_evidence-Collected traces e' q.1)
