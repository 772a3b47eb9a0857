-- ===== src/Tests/Traces.antt =====
-- The theorems about traces, applied to the trace of one delivery and to two nodes.
use unified_correctness_orie.Base.{ℕ, ◌≡◌, refl, List, [], ◌∷◌, map, list_eq, nat_eq, list_beq}
use unified_correctness_orie.Base.Dict
use unified_correctness_orie.Runtime.Event.{EventKind, EffectKind, TraceEvent}
use unified_correctness_orie.Runtime.Host.{RuntimeMessage}
use unified_correctness_orie.Runtime.EventEquality.{effect_rank}
use unified_correctness_orie.Tool.Payload.{verify_payload_lineage}
use unified_correctness_orie.Tool.Checks.{check_seq, check_seed, check_effect_gap, check_timer_gap}
use unified_correctness_orie.Tool.Verify.{
  verify_kind, verify_event, verify_events, verify_end, verify_trace,
}
use unified_correctness_orie.Tool.Verify.Grammar.{Trace, anything}
use unified_correctness_orie.Tool.Verify.Sound.{Numbered, verify_trace_sound}
use unified_correctness_orie.Tool.Evidence.{ClusterTrace, collect_nodes, collect_evidence}
use unified_correctness_orie.Tool.Cluster.{
  match_recv, match_recvs, match_drop, match_drops, match_send, match_sends, check_evidence,
  collect_lineage, resolve_record, resolve_records, verify_cluster,
}
use unified_correctness_orie.Tool.Cluster.Events.{recorded, IsConsistent}
use unified_correctness_orie.Tool.Cluster.Consistent.{verify_cluster-IsConsistent}
use unified_correctness_orie.Tests.{reader, root_message, message_beq}

abbrev pub event : ℕ → EventKind RuntimeMessage → TraceEvent RuntimeMessage
event n k = record { seq = n; seed = 5; kind = k }

abbrev spawned : TraceEvent RuntimeMessage
spawned = event 0 (EventKind.spawn 1 2 (65 ∷ []))

abbrev delivered : List (TraceEvent RuntimeMessage)
delivered =
    event 1 (EventKind.send 2 2 9 root_message)
    ∷ (event 2 (EventKind.deliver 1 2 9)
        ∷ (event 3 (
              EventKind.effect_observed 1 2 (65 ∷ []) (77 ∷ []) 9 (EffectKind.log ∷ [])
                (EffectKind.log ∷ []))
            ∷ (event 4 (EventKind.timer_fired 1 2 8)
                ∷ (event 5 (EventKind.send 2 2 10 root_message) ∷ []))))

no_problems : (verify_trace reader (spawned ∷ delivered)).problems ≡ []
unfolding verify_trace verify_events verify_event verify_kind verify_end check_seq check_seed
    check_effect_gap check_timer_gap Dict.get Dict.insert verify_payload_lineage list_beq
    Dict.contains effect_rank
no_problems = refl

verify_trace_sound_example :
    Trace anything (map (λ ev. ev.kind) (spawned ∷ delivered)) × Numbered 5 0 (spawned ∷ delivered)
verify_trace_sound_example = verify_trace_sound reader spawned delivered no_problems

abbrev two_nodes : List (ClusterTrace RuntimeMessage)
two_nodes =
    record { path = 97 ∷ []; events = event 0 (EventKind.net_send 1 2 7 9 root_message) ∷ [] }
    ∷ (record { path = 98 ∷ []; events = event 0 (EventKind.net_recv 2 1 8 9 root_message) ∷ [] }
        ∷ [])

cluster_agrees : (verify_cluster reader two_nodes).1 ≡ []
unfolding verify_cluster collect_nodes collect_evidence check_evidence match_recvs match_recv
    match_drops match_drop match_sends match_send collect_lineage resolve_records resolve_record
    message_beq Dict.include Dict.contains Dict.get Dict.insert list_beq
cluster_agrees = refl

verify_cluster-IsConsistent_example : IsConsistent reader (recorded two_nodes)
verify_cluster-IsConsistent_example = verify_cluster-IsConsistent reader two_nodes cluster_agrees
