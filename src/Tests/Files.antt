-- ===== src/Tests/Files.antt =====
-- Runs of the tool on files and messages, at which the theorems on its main are applied.
use unified_correctness_orie.Base.{
  ℕ, ◌+◌, ◌-◌, ◌≤◌, ◌≡◌, refl, true, false, Option, none, some, List, [], ◌∷◌, ◌++◌, arith, eqb,
  if◌then◌else◌, map, All, ok, ◌==◌, list_eq, nat_eq, list_beq,
}
use unified_correctness_orie.Base.Dict
use unified_correctness_orie.Base.Dict.{Dict}
use unified_correctness_orie.Base.Text.{Text, codes, decimal, starts_with}
use unified_correctness_orie.Runtime.Event.{Uuid, EventKind, TraceEvent}
use unified_correctness_orie.Runtime.Host.{RuntimeMessage}
use unified_correctness_orie.Tool.Payload.{LineageKey}
use unified_correctness_orie.Tool.Lineage.{LineageRecord, summarize_lineage}
use unified_correctness_orie.Tool.Lineage.Counts.{grouped, summarize_lineage_sums}
use unified_correctness_orie.Tool.Lineage.Path.{print_lineage_path}
use unified_correctness_orie.Tool.Lineage.Path.Walk.{IsPrinted, print_lineage_path-IsPrinted}
use unified_correctness_orie.Tool.Lineage.Path.Limit.{IsComplete, print_lineage_path-IsComplete}
use unified_correctness_orie.Tool.CommandLine.{
  Command, split_report_json_flag, parse_command, verify, cluster_verify,
}
use unified_correctness_orie.Tool.CommandLine.Printed.{
  IsCommand, usage_forms, split_report_json_flag-words, parse_command-usage_forms,
}
use unified_correctness_orie.Tool.Diagnostics.{extract_first_u64_after}
use unified_correctness_orie.Tool.Diagnostics.Extract.{IsClear, extract_first_u64_after-decimal}
use unified_correctness_orie.Tool.Evidence.{ClusterTrace, collect_nodes, collect_evidence}
use unified_correctness_orie.Tool.Cluster.{
  match_recv, match_recvs, match_drop, match_drops, match_send, match_sends, check_evidence,
  collect_lineage, resolve_record, resolve_records, verify_cluster,
}
use unified_correctness_orie.Tool.Cluster.Events.{recorded, IsConsistent}
use unified_correctness_orie.Tool.Main.{
  World, main, main_verify, main_cluster, load_traces, finish, count_of, count_kinds,
}
use unified_correctness_orie.Tool.Checks.{check_seq, check_seed, check_effect_gap, check_timer_gap}
use unified_correctness_orie.Tool.Verify.{
  verify_kind, verify_event, verify_events, verify_end, verify_trace,
}
use unified_correctness_orie.Tool.Main.Exit.{Agrees, main-Agrees}
use unified_correctness_orie.Tool.Main.Clean.{
  IsRead, IsClean, main-verify-IsClean, main-cluster-IsClean,
}
use unified_correctness_orie.Tool.Main.Kinds.{Kind, name_of, occurrences, count_kinds-occurrences}
use unified_correctness_orie.Tests.{reader, root_message, message_beq}
use unified_correctness_orie.Tests.Traces.{event}

abbrev rec_of : ℕ → Uuid → ℕ → LineageRecord
rec_of n msg_id hops = record {
  key = (1, msg_id);
  seq = n;
  local_node = 1;
  to = 2;
  from_service = codes "A";
  msg_type = codes "M";
  provenance = record {
    origin_node = 1 ∷ [];
    origin_service = codes "A";
    origin_msg_id = 9 ∷ [];
    parent_node = 1 ∷ [];
    parent_msg_id = 9 ∷ [];
    hops = hops;
  };
}

-- A message that begins a lineage, and one that it caused.
abbrev two_records : Dict LineageKey LineageRecord
two_records = ((1, 9), rec_of 3 9 0) ∷ ((1, 10), rec_of 6 10 1) ∷ []

print_lineage_path-IsPrinted_example :
    IsPrinted reader two_records (1, 10) (print_lineage_path reader two_records (1, 10))
print_lineage_path-IsPrinted_example = print_lineage_path-IsPrinted reader two_records (1, 10)

print_lineage_path-IsComplete_example : IsComplete (print_lineage_path reader two_records (1, 10))
print_lineage_path-IsComplete_example =
    print_lineage_path-IsComplete reader two_records (1, 10) (omega arith)

summarize_lineage_sums_example :
    let s = summarize_lineage reader two_records in
    (s.total ≡ 2)
    × (grouped s ≡ s.total)
    × All (λ rec. rec.provenance.hops ≤ s.max_hops) (Dict.values two_records)
summarize_lineage_sums_example = summarize_lineage_sums reader two_records

deliver-IsClear :
    IsClear
      (codes "seq ")
      (codes "Deliver at ")
      (codes "seq " ++ (decimal 12 ++ codes " to unknown actor"))
unfolding starts_with
deliver-IsClear =
    (refl, (refl, (refl, (refl, (refl, (refl, (refl, (refl, (refl, (refl, (refl, tt)))))))))))

extract_first_u64_after-decimal_example :
    extract_first_u64_after
      (codes "Deliver at " ++ (codes "seq " ++ (decimal 12 ++ codes " to unknown actor")))
      (codes "seq ")
    ≡ some 12
extract_first_u64_after-decimal_example =
    extract_first_u64_after-decimal (codes "seq ") (codes "Deliver at ") (codes " to unknown actor")
      12 (omega arith) deliver-IsClear refl

abbrev wide_text : Uuid → Text
wide_text u = (u + 1000) ∷ []

abbrev read_wide : Text → Option Uuid
read_wide (u ∷ []) = some (u - 1000)
read_wide _ = none

read_back : (u : Uuid) → u + 1000 - 1000 ≡ u
read_back u = omega arith

wide-IsWord : (u : Uuid) → (wide_text u == codes "--report-json") ≡ false
unfolding list_beq
wide-IsWord u = let other : eqb (u + 1000) 45 ≡ false = ground arith in rw other refl

abbrev cluster_command : Command
cluster_command = cluster_verify (codes "a" ∷ codes "b" ∷ []) (some (codes "r.json"))

cluster_command-IsCommand : IsCommand cluster_command
unfolding list_beq
cluster_command-IsCommand = ((refl, (refl, tt)), omega arith)

parse_command-usage_forms_example :
    All
      (λ args. parse_command read_wide args ≡ ok cluster_command)
      (usage_forms wide_text cluster_command)
parse_command-usage_forms_example =
    parse_command-usage_forms wide_text read_wide (λ u h. rw (read_back u) refl)
      (λ u h. wide-IsWord u) cluster_command cluster_command-IsCommand

word-IsWord : (c : ℕ) (cs : Text) → eqb c 45 ≡ false → ((c ∷ cs) == codes "--report-json") ≡ false
unfolding list_beq
word-IsWord c cs h = rw h refl

split_report_json_flag-words_example :
    split_report_json_flag (codes "verify" ∷ codes "--report-json" ∷ codes "r" ∷ codes "t" ∷ [])
    ≡ ok (codes "verify" ∷ codes "t" ∷ [], some (codes "r"))
split_report_json_flag-words_example =
    split_report_json_flag-words (codes "verify" ∷ []) (codes "t" ∷ []) (some (codes "r"))
      (word-IsWord 118 (codes "erify") refl, tt) (word-IsWord 116 [] refl, tt)

-- Two nodes, the first of which sent the message that the second received.
abbrev sender : List (TraceEvent RuntimeMessage)
sender =
    event 0 (EventKind.spawn 1 2 (codes "A"))
    ∷ event 1 (EventKind.net_send 1 2 2 9 root_message)
    ∷ []

abbrev receiver : List (TraceEvent RuntimeMessage)
receiver =
    event 0 (EventKind.spawn 2 7 (codes "B"))
    ∷ event 1 (EventKind.net_recv 2 1 7 9 root_message)
    ∷ []

abbrev files : Text → Option (List (TraceEvent RuntimeMessage))
files [] = none
files (c ∷ cs) = if eqb c 97 then some sender else if eqb c 98 then some receiver else none

abbrev world : World RuntimeMessage
world = record {
  files = files;
  writable = λ path. true;
  problem_text = λ p. codes "problem";
  cluster_text = λ p. codes "problem";
  reader = reader;
}

main-Agrees_example : Agrees (main world (verify (codes "a") (some (codes "r"))))
main-Agrees_example = main-Agrees world (verify (codes "a") (some (codes "r")))

count_kinds-occurrences_example :
    count_of (Dict.get (name_of Kind.net_send) (count_kinds sender []))
    ≡ occurrences Kind.net_send sender
count_kinds-occurrences_example = count_kinds-occurrences Kind.net_send sender

verify_exit : (main world (verify (codes "a") none)).exit ≡ ok tt
unfolding main main_verify finish verify_trace verify_events verify_event check_seq check_seed
    check_effect_gap check_timer_gap verify_kind Dict.get Dict.insert verify_end
verify_exit = refl

main-verify-IsClean_example :
    (trace : ClusterTrace RuntimeMessage) × (trace.path ≡ codes "a")
    × IsRead world trace
    × IsClean world trace
main-verify-IsClean_example = main-verify-IsClean world (codes "a") none verify_exit

cluster_exit : (main world (cluster_verify (codes "a" ∷ codes "b" ∷ []) none)).exit ≡ ok tt
unfolding main main_cluster load_traces finish verify_trace verify_events verify_event check_seq
    check_seed check_effect_gap check_timer_gap verify_kind Dict.get Dict.insert verify_end
    verify_cluster collect_nodes collect_evidence check_evidence match_recvs match_recv match_drops
    match_drop match_sends match_send collect_lineage resolve_records resolve_record message_beq
    Dict.include Dict.contains list_beq
cluster_exit = refl

main-cluster-IsClean_example :
    (traces : List (ClusterTrace RuntimeMessage)) × (map (λ t. t.path) traces
      ≡ codes "a" ∷ codes "b" ∷ [])
    × All (IsRead world) traces
    × All (IsClean world) traces
    × ((verify_cluster reader traces).1 ≡ [])
    × IsConsistent reader (recorded traces)
main-cluster-IsClean_example =
    main-cluster-IsClean world (codes "a" ∷ codes "b" ∷ []) none cluster_exit
