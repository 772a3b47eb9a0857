-- ===== src/Tool/Cluster.antt =====
-- verify_cluster of crates/tool/src/main.rs: the invariants across the traces of several nodes. The
-- source walks its hash maps in no fixed order; here the order is that of insertion.
pub mod Events
pub mod Collected
pub mod Nodes
pub mod Sound
pub mod Consistent
use unified_correctness_orie.Base.{
  ℕ, ◌+◌, Bool, true, false, ◌&&◌, not, Option, none, some, List, [], ◌∷◌, ◌++◌, eqb, if◌then◌else◌,
  sat_add, ◌==◌, nat_eq, list_eq, pair_eq, triple_eq,
}
use unified_correctness_orie.Base.Dict
use unified_correctness_orie.Base.Dict.{Dict}
use unified_correctness_orie.Base.Text.{Text}
use unified_correctness_orie.Base.Writer.{Writer, ◌>>=◌, ◌>>◌, pure, tell}
use unified_correctness_orie.Runtime.Event.{Uuid}
use unified_correctness_orie.Tool.Payload.{Reader, LineageKey}
use unified_correctness_orie.Tool.Lineage.{LineageRecord, build_lineage_index, lineage_parent_key}
use unified_correctness_orie.Tool.Evidence.{
  ClusterKey, ClusterProblem, ClusterTrace, NetRecord, DropRecord, Evidence, Counts, no_counts,
  report_if, collect_nodes, collect_evidence, recv_without_send, payload_mismatch,
  drop_without_send, recv_and_drop, send_without_evidence, duplicate_lineage, invalid_parent,
  hops_mismatch, origin_msg_mismatch, origin_node_mismatch, origin_service_mismatch, missing_parent,
}

module _ {V : Type 0} (reader : Reader V) (included : List Uuid) where
  -- One round of the loop over the receptions.
  unfoldable pub match_recv :
      Dict ClusterKey (NetRecord V)
      → ClusterKey
      → NetRecord V
      → Counts
      → Writer ClusterProblem Counts
  match_recv sends key recv c =
      if not (Dict.contains included key.0)
      then pure (record c { external_inbound = c.external_inbound + 1 })
      else elim (Dict.get key sends) [
        | none ↦ (c, recv_without_send key ∷ [])
        | some sent ↦
            if not (reader.value_beq sent.payload recv.payload)
            then (c, payload_mismatch key ∷ [])
            else pure (record c { matched_recv = c.matched_recv + 1 })
      ]

  unfoldable pub match_recvs :
      Dict ClusterKey (NetRecord V)
      → Dict ClusterKey (NetRecord V)
      → Counts
      → Writer ClusterProblem Counts
  match_recvs sends [] c = pure c
  match_recvs sends ((key, recv) ∷ recvs) c = do
    c' ← match_recv sends key recv c
    match_recvs sends recvs c'

  unfoldable pub match_drop :
      Dict ClusterKey (NetRecord V) → ClusterKey → Counts → Writer ClusterProblem Counts
  match_drop sends key c =
      if not (Dict.contains included key.0)
      then pure (record c { external_inbound = c.external_inbound + 1 })
      else if Dict.has key sends
      then pure (record c { matched_drop = c.matched_drop + 1 })
      else (c, drop_without_send key ∷ [])

  unfoldable pub match_drops :
      Dict ClusterKey (NetRecord V)
      → Dict ClusterKey DropRecord
      → Counts
      → Writer ClusterProblem Counts
  match_drops sends [] c = pure c
  match_drops sends ((key, _) ∷ drops) c = do
    c' ← match_drop sends key c
    match_drops sends drops c'

  -- One round of the loop over the keys of the sends.
  unfoldable pub match_send : Evidence V → ClusterKey → Counts → Writer ClusterProblem Counts
  match_send e key c =
      let has_recv = Dict.has key e.recvs in
      let has_drop = Dict.has key e.drops in
      if not (Dict.contains included key.2)
      then pure (record c { external_outbound = c.external_outbound + 1 })
      else (
        c,
        if has_recv && has_drop
            then recv_and_drop key ∷ []
            else report_if (not has_recv && not has_drop) (send_without_evidence key),
      )

  unfoldable pub match_sends :
      Evidence V → Dict ClusterKey (NetRecord V) → Counts → Writer ClusterProblem Counts
  match_sends e [] c = pure c
  match_sends e ((key, _) ∷ sends) c = do c' ← match_send e key c; match_sends e sends c'

  unfoldable pub check_evidence : Evidence V → Writer ClusterProblem Counts
  check_evidence e = do
    c₁ ← match_recvs e.sends e.recvs no_counts
    c₂ ← match_drops e.sends e.drops c₁
    match_sends e e.sends c₂

  unfoldable pub add_records :
      Dict LineageKey LineageRecord
      → Dict LineageKey LineageRecord
      → Writer ClusterProblem (Dict LineageKey LineageRecord)
  add_records [] lineage = pure lineage
  add_records ((key, rec) ∷ index) lineage = do
    tell (report_if (Dict.has key lineage) (duplicate_lineage key))
    add_records index (Dict.insert key rec lineage)

  -- The records of all traces by their keys, the later ones first in place.
  unfoldable pub collect_lineage :
      List (ClusterTrace V)
      → Dict LineageKey LineageRecord
      → Writer ClusterProblem (Dict LineageKey LineageRecord)
  unfolding add_records build_lineage_index
  collect_lineage [] lineage = pure lineage
  collect_lineage (trace ∷ traces) lineage = do
    lineage' ← add_records (build_lineage_index reader trace.events) lineage
    collect_lineage traces lineage'

  -- The comparison with a parent in the cluster.
  unfoldable pub compare_parent : LineageKey → LineageRecord → LineageRecord → List ClusterProblem
  compare_parent key rec parent_rec =
      let prov = rec.provenance in
      let parent = parent_rec.provenance in
      report_if (not (prov.hops == sat_add parent.hops 1)) (hops_mismatch key)
      ++ (report_if (not (prov.origin_msg_id == parent.origin_msg_id)) (origin_msg_mismatch key)
          ++ (report_if (not (prov.origin_node == parent.origin_node)) (origin_node_mismatch key)
              ++ report_if (not (prov.origin_service == parent.origin_service))
                  (origin_service_mismatch key)))

  -- One round of the loop over the lineage records.
  unfoldable pub resolve_record :
      Dict LineageKey LineageRecord
      → LineageKey
      → LineageRecord
      → Counts
      → Writer ClusterProblem Counts
  unfolding lineage_parent_key compare_parent
  resolve_record lineage key rec c =
      if eqb rec.provenance.hops 0 then pure c else elim (lineage_parent_key reader rec) [
        | none ↦ (c, invalid_parent key ∷ [])
        | some parent ↦ elim (Dict.get parent lineage) [
          | some parent_rec ↦ (
            record c { resolved_lineage_parents = c.resolved_lineage_parents + 1 },
            compare_parent key rec parent_rec,
          )
          | none ↦
              if Dict.contains included parent.0
              then (c, missing_parent key ∷ [])
              else pure (record c { external_lineage_parents = c.external_lineage_parents + 1 })
        ]
      ]

  unfoldable pub resolve_records :
      Dict LineageKey LineageRecord
      → Dict LineageKey LineageRecord
      → Counts
      → Writer ClusterProblem Counts
  unfolding resolve_record
  resolve_records lineage [] c = pure c
  resolve_records lineage ((key, rec) ∷ records) c = do
    c' ← resolve_record lineage key rec c
    resolve_records lineage records c'

-- The counters and the problems of `ClusterVerifyReport`.
unfoldable pub verify_cluster :
    {V : Type 0} → Reader V → List (ClusterTrace V) → Writer ClusterProblem Counts
verify_cluster reader traces = do
  included ← collect_nodes traces []
  evidence ← collect_evidence traces (record { sends = []; recvs = []; drops = [] })
  counts ← check_evidence reader included evidence
  lineage ← collect_lineage reader included traces []
  resolve_records reader included lineage lineage counts
