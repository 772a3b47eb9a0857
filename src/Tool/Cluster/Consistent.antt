-- ===== src/Tool/Cluster/Consistent.antt =====
-- That the events of a cluster without problems are consistent (verify_cluster of
-- crates/tool/src/main.rs).
use unified_correctness_orie.Base.{
  ◌≡◌, ◌⊎◌, refl, sym, ◌∙◌, ap, subst, true, false, not, some, List, [], append-eq-nil, Bool-cases,
  Option-cases, inl, inr, nat_eq, triple_eq, Eq,
}
use unified_correctness_orie.Base.Dict
use unified_correctness_orie.Base.Dict.{Dict}
use unified_correctness_orie.Base.Dict.Records.{Occurs, All-get}
use unified_correctness_orie.Runtime.Event.{Uuid, EventKind}
use unified_correctness_orie.Tool.Payload.{Reader}
use unified_correctness_orie.Tool.Evidence.{
  ClusterKey, ClusterTrace, NetRecord, DropRecord, Evidence, collect_nodes, collect_evidence,
}
use unified_correctness_orie.Tool.Cluster.{verify_cluster}
use unified_correctness_orie.Tool.Cluster.Events.{
  recorded, IsSend, IsRecv, IsDrop, InCluster, IsConsistent,
}
use unified_correctness_orie.Tool.Cluster.Collected.{Collected, collect_evidence-Collected}
use unified_correctness_orie.Tool.Cluster.Nodes.{collect_nodes-InCluster}
use unified_correctness_orie.Tool.Cluster.Sound.{
  RecvAgrees, DropAgrees, SendAgrees, Agrees, verify_cluster-Agrees,
}

has-get :
    {K R : Type 0} ⦃e : Eq K⦄ (key : K) (d : Dict K R)
    → Dict.has key d ≡ true
    → (r : R) × (Dict.get key d ≡ some r)
has-get key d h = elim (Option-cases (Dict.get key d)) [
  | inl n ↦ absurd (let found : false ≡ true = rw (Dict.has, n) at h in cc)
  | inr found ↦ found
]

get-has :
    {K R : Type 0} ⦃e : Eq K⦄ (key : K) (d : Dict K R) (r : R)
    → Dict.get key d ≡ some r
    → Dict.has key d ≡ true
get-has key d r h = rw (Dict.has, h) refl

module _ {V : Type 0} (reader : Reader V) (included : List Uuid) (events : List (EventKind V))
    (known : (n : Uuid) → InCluster events n → Dict.contains included n ≡ true) (e : Evidence V)
    (collected : Collected (record { sends = []; recvs = []; drops = [] }) e events)
    (agrees : Agrees reader included e) where
  -- What is recorded as sent was sent.
  IsSend-source :
      (key : ClusterKey) (r : NetRecord V)
      → Dict.get key e.sends ≡ some r
      → Occurs (IsSend key r.payload) events
  unfolding Dict.get
  IsSend-source key r h = elim (collected.0.1 key r h) [ inl o ↦ o | inr before ↦ cc ]

  IsRecv-source :
      (key : ClusterKey) (r : NetRecord V)
      → Dict.get key e.recvs ≡ some r
      → Occurs (IsRecv key r.payload) events
  unfolding Dict.get
  IsRecv-source key r h = elim (collected.1.1 key r h) [ inl o ↦ o | inr before ↦ cc ]

  IsDrop-source :
      (key : ClusterKey) (r : DropRecord)
      → Dict.get key e.drops ≡ some r
      → Occurs (IsDrop key) events
  unfolding Dict.get
  IsDrop-source key r h = elim (collected.2.1 key r h) [ inl o ↦ o | inr before ↦ cc ]

  received :
      (key : ClusterKey) (payload : V)
      → Occurs (IsRecv key payload) events
      → InCluster events key.0
      → (sent : V) × Occurs (IsSend key sent) events × (reader.value_beq sent payload ≡ true)
  unfolding Agrees RecvAgrees
  received key payload o inside =
      let (r, found, content) = collected.1.2 key payload o in
      let (sent, there, same) =
        All-get (RecvAgrees reader included e.sends) e.recvs key r agrees.0 found
          (known key.0 inside) in
      (
        sent.payload,
        IsSend-source key sent there,
        subst (λ p. reader.value_beq sent.payload p ≡ true) content same,
      )

  dropped :
      (key : ClusterKey)
      → Occurs (IsDrop key) events
      → InCluster events key.0
      → (sent : V) × Occurs (IsSend key sent) events
  unfolding Agrees DropAgrees
  dropped key o inside =
      let (r, found, content) = collected.2.2 key tt o in
      let (sent, there) = has-get key e.sends (
        All-get (DropAgrees reader included e.sends) e.drops key r agrees.1 found
          (known key.0 inside)) in
      (sent.payload, IsSend-source key sent there)

  settled :
      (key : ClusterKey) (sent : V)
      → Occurs (IsSend key sent) events
      → InCluster events key.2
      → Dict.has key e.recvs ≡ not (Dict.has key e.drops)
  unfolding Agrees SendAgrees
  settled key sent o inside =
      let (r, found, content) = collected.0.2 key sent o in
      All-get (SendAgrees reader included e) e.sends key r agrees.2 found (known key.2 inside)

  ended :
      (key : ClusterKey) (sent : V)
      → Occurs (IsSend key sent) events
      → InCluster events key.2
      → ((payload : V) × Occurs (IsRecv key payload) events) ⊎ Occurs (IsDrop key) events
  ended key sent o inside =
      let one = settled key sent o inside in
      elim (Bool-cases (Dict.has key e.drops)) [
        | inl drop ↦ (let (r, found) = has-get key e.drops drop in inr (IsDrop-source key r found))
        | inr kept ↦
            let (r, found) = has-get key e.recvs (one ∙ ap not kept) in
            inl (r.payload, IsRecv-source key r found)
      ]

  exclusive :
      (key : ClusterKey) (sent payload : V)
      → Occurs (IsSend key sent) events
      → InCluster events key.2
      → Occurs (IsRecv key payload) events
      → Occurs (IsDrop key) events
      → ⊥
  exclusive key sent payload o inside recv drop =
      let one = settled key sent o inside in
      let (r, found, content) = collected.1.2 key payload recv in
      let (d, lost, nothing) = collected.2.2 key tt drop in
      let both : true ≡ false =
        sym (get-has key e.recvs r found) ∙ one ∙ ap not (get-has key e.drops d lost) in
      cc

-- When verify_cluster reports no problem in the traces, their events are consistent: each message
-- that a trace records as received from a node of the cluster was sent by it, with the same
-- payload; each one that was dropped and comes from a node of the cluster was sent by it; and
-- each one that was sent to a node of the cluster was received there or dropped there, and not
-- both. The nodes of the cluster are those that have an event in a trace.
pub verify_cluster-IsConsistent :
    {V : Type 0} (reader : Reader V) (traces : List (ClusterTrace V))
    → (verify_cluster reader traces).1 ≡ []
    → IsConsistent reader (recorded traces)
unfolding verify_cluster
verify_cluster-IsConsistent {V} reader traces h =
    let start : Evidence V = record { sends = []; recvs = []; drops = [] } in
    let included = (collect_nodes traces []).0 in
    let events = recorded traces in
    let known = collect_nodes-InCluster traces [] in
    let q = append-eq-nil _ _ h in
    let r = append-eq-nil _ _ q.1 in
    let e = (collect_evidence traces start).0 in
    let collected = collect_evidence-Collected traces start r.0 in
    let agrees = verify_cluster-Agrees reader traces h in
    (
      received reader included events known e collected agrees,
      dropped reader included events known e collected agrees,
      ended reader included events known e collected agrees,
      exclusive reader included events known e collected agrees,
    )
