-- ===== src/Tool/Cluster/Sound.antt =====
-- What the evidence of a cluster without problems satisfies (verify_cluster of
-- crates/tool/src/main.rs).
use unified_correctness_orie.Base.{
  ◌≡◌, true, not, some, List, [], ◌∷◌, arith, All, append-eq-nil, Option-cases, inl, inr, nat_eq,
  triple_eq,
}
use unified_correctness_orie.Base.Dict
use unified_correctness_orie.Base.Dict.{Dict}
use unified_correctness_orie.Runtime.Event.{Uuid}
use unified_correctness_orie.Tool.Payload.{Reader}
use unified_correctness_orie.Tool.Evidence.{
  ClusterKey, ClusterTrace, NetRecord, DropRecord, Evidence, Counts, no_counts, collect_nodes,
  collect_evidence,
}
use unified_correctness_orie.Tool.Cluster.{
  match_recv, match_recvs, match_drop, match_drops, match_send, match_sends, check_evidence,
  verify_cluster,
}

module _ {V : Type 0} (reader : Reader V) (included : List Uuid) where
  -- A reception from a node of the cluster has a send, with the same payload.
  unfoldable pub RecvAgrees : Dict ClusterKey (NetRecord V) → ClusterKey × NetRecord V → Type 0
  RecvAgrees sends (key, recv) =
      Dict.contains included key.0 ≡ true
      → (sent : NetRecord V) × (Dict.get key sends ≡ some sent)
        × (reader.value_beq sent.payload recv.payload ≡ true)

  unfoldable pub DropAgrees : Dict ClusterKey (NetRecord V) → ClusterKey × DropRecord → Type 0
  DropAgrees sends (key, drop) = Dict.contains included key.0 ≡ true → Dict.has key sends ≡ true

  -- A send to a node of the cluster is either received or dropped there.
  unfoldable pub SendAgrees : Evidence V → ClusterKey × NetRecord V → Type 0
  SendAgrees e (key, sent) =
      Dict.contains included key.2 ≡ true → Dict.has key e.recvs ≡ not (Dict.has key e.drops)

  match_recv-quiet :
      (sends : Dict ClusterKey (NetRecord V)) (key : ClusterKey) (recv : NetRecord V) (c : Counts)
      → (match_recv reader included sends key recv c).1 ≡ []
      → RecvAgrees sends (key, recv)
  unfolding match_recv RecvAgrees
  match_recv-quiet sends key recv c h inside = elim (Option-cases (Dict.get key sends)) [
    | inl n ↦ absurd (ground (arith, h, inside, n))
    | inr (sent, e) ↦ (sent, e, ground (arith, h, inside, e))
  ]

  match_recvs-quiet :
      (sends recvs : Dict ClusterKey (NetRecord V)) (c : Counts)
      → (match_recvs reader included sends recvs c).1 ≡ []
      → All (RecvAgrees sends) recvs
  unfolding match_recvs
  match_recvs-quiet sends [] c h = tt
  match_recvs-quiet sends ((key, recv) ∷ recvs) c h =
      let q = append-eq-nil _ _ h in
      (match_recv-quiet sends key recv c q.0, match_recvs-quiet sends recvs _ q.1)

  match_drop-quiet :
      (sends : Dict ClusterKey (NetRecord V)) (key : ClusterKey) (drop : DropRecord) (c : Counts)
      → (match_drop reader included sends key c).1 ≡ []
      → DropAgrees sends (key, drop)
  unfolding match_drop DropAgrees
  match_drop-quiet sends key drop c h inside = ground (arith, h, inside)

  match_drops-quiet :
      (sends : Dict ClusterKey (NetRecord V)) (drops : Dict ClusterKey DropRecord) (c : Counts)
      → (match_drops reader included sends drops c).1 ≡ []
      → All (DropAgrees sends) drops
  unfolding match_drops
  match_drops-quiet sends [] c h = tt
  match_drops-quiet sends ((key, drop) ∷ drops) c h =
      let q = append-eq-nil _ _ h in
      (match_drop-quiet sends key drop c q.0, match_drops-quiet sends drops _ q.1)

  match_send-quiet :
      (e : Evidence V) (key : ClusterKey) (sent : NetRecord V) (c : Counts)
      → (match_send reader included e key c).1 ≡ []
      → SendAgrees e (key, sent)
  unfolding match_send SendAgrees
  match_send-quiet e key sent c h inside = ground (arith, h, inside)

  match_sends-quiet :
      (e : Evidence V) (sends : Dict ClusterKey (NetRecord V)) (c : Counts)
      → (match_sends reader included e sends c).1 ≡ []
      → All (SendAgrees e) sends
  unfolding match_sends
  match_sends-quiet e [] c h = tt
  match_sends-quiet e ((key, sent) ∷ sends) c h =
      let q = append-eq-nil _ _ h in
      (match_send-quiet e key sent c q.0, match_sends-quiet e sends _ q.1)

  unfoldable pub Agrees : Evidence V → Type 0
  Agrees e =
      All (RecvAgrees e.sends) e.recvs
      × All (DropAgrees e.sends) e.drops
      × All (SendAgrees e) e.sends

  check_evidence-quiet : (e : Evidence V) → (check_evidence reader included e).1 ≡ [] → Agrees e
  unfolding check_evidence Agrees
  check_evidence-quiet e h =
      let q = append-eq-nil _ _ h in
      let r = append-eq-nil _ _ q.1 in
      (
        match_recvs-quiet e.sends e.recvs no_counts q.0,
        match_drops-quiet e.sends e.drops _ r.0,
        match_sends-quiet e e.sends _ r.1,
      )

-- Where verify_cluster reports no problem, the evidence that it collected agrees.
pub verify_cluster-Agrees :
    {V : Type 0} (reader : Reader V) (traces : List (ClusterTrace V))
    → (verify_cluster reader traces).1 ≡ []
    → Agrees reader
        (collect_nodes traces []).0
        (collect_evidence traces (record { sends = []; recvs = []; drops = [] })).0
unfolding verify_cluster
verify_cluster-Agrees reader traces h =
    let q = append-eq-nil _ _ h in
    let r = append-eq-nil _ _ q.1 in
    let s = append-eq-nil _ _ r.1 in
    check_evidence-quiet reader (collect_nodes traces []).0
      (collect_evidence traces (record { sends = []; recvs = []; drops = [] })).0 s.0
