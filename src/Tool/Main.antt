-- ===== src/Tool/Main.antt =====
-- The reports of the tool and its main (crates/tool/src/main.rs). A message is a constructor of
-- Problem or ClusterProblem; its text is an argument. Printing is left out.
pub mod Exit
pub mod Clean
pub mod Kinds
use unified_correctness_orie.Base.{
  ℕ, ◌+◌, Bool, true, false, ◌&&◌, Option, none, some, List, [], ◌∷◌, ◌++◌, map, if◌then◌else◌,
  length, Result, ok, err, nat_eq, list_eq,
}
use unified_correctness_orie.Base.Dict
use unified_correctness_orie.Base.Dict.{Dict}
use unified_correctness_orie.Base.Text.{Text, codes}
use unified_correctness_orie.Runtime.Event.{Uuid, EventKind, TraceEvent}
use unified_correctness_orie.Tool.Payload.{Reader, LineageKey}
use unified_correctness_orie.Tool.Problems.{Problem}
use unified_correctness_orie.Tool.Checks.{VerifyReport}
use unified_correctness_orie.Tool.Verify.{verify_trace}
use unified_correctness_orie.Tool.Evidence.{ClusterProblem, ClusterTrace, Counts}
use unified_correctness_orie.Tool.Cluster.{verify_cluster}
use unified_correctness_orie.Tool.Lineage.{build_lineage_index}
use unified_correctness_orie.Tool.Lineage.Path.{PathError, Printed, print_lineage_path}
use unified_correctness_orie.Tool.Diagnostics.{ProblemDetail, build_problem_detail}
use unified_correctness_orie.Tool.CommandLine.{
  Command, summary, lineage_summary, verify, lineage_path, cluster_verify,
}

-- The counts of `print_summary`, by the name of the kind.
unfoldable pub event_kind_name : {V : Type 0} → EventKind V → Text
event_kind_name (EventKind.spawn _ _ _) = codes "Spawn"
event_kind_name (EventKind.send _ _ _ _) = codes "Send"
event_kind_name (EventKind.deliver _ _ _) = codes "Deliver"
event_kind_name (EventKind.timer_fired _ _ _) = codes "TimerFired"
event_kind_name (EventKind.net_recv _ _ _ _ _) = codes "NetRecv"
event_kind_name (EventKind.net_send _ _ _ _ _) = codes "NetSend"
event_kind_name (EventKind.log _ _ _ _) = codes "Log"
event_kind_name (EventKind.effect_observed _ _ _ _ _ _ _) = codes "EffectObserved"
event_kind_name (EventKind.fault_injected _ _ _ _ _) = codes "FaultInjected"
event_kind_name (EventKind.fault_policy _ _ _ _ _) = codes "FaultPolicy"

abbrev pub count_of : Option ℕ → ℕ
count_of none = 0
count_of (some n) = n

unfoldable pub count_kinds : {V : Type 0} → List (TraceEvent V) → Dict Text ℕ → Dict Text ℕ
count_kinds [] by_kind = by_kind
count_kinds (ev ∷ events) by_kind =
    let kind = event_kind_name ev.kind in
    count_kinds events (Dict.insert kind (count_of (Dict.get kind by_kind) + 1) by_kind)

-- A report on one trace; the source has two such types, of which one also has the mode.
pub record TraceDiagnostics : Type 0 where
  pub path : Text
  pub ok : Bool
  pub pending_messages : ℕ
  pub issue_count : ℕ
  pub first_issue : Option ProblemDetail
  pub issues : List ProblemDetail

pub record ClusterDiagnostics : Type 0 where
  pub counts : Counts
  pub issue_count : ℕ
  pub first_issue : Option ProblemDetail
  pub issues : List ProblemDetail

pub data Report : Type 0 where
  verify_report : TraceDiagnostics → Report
  cluster_report :
      (all_ok : Bool) (traces : List Text) (local : List TraceDiagnostics)
      (cluster : Option ClusterDiagnostics)
      → Report

pub data MainError : Type 0 where
  read_failed write_failed : (path : Text) → MainError
  verify_failed cluster_failed : (issues : ℕ) → MainError
  local_errors : MainError
  path_failed : PathError → MainError

-- The report files that were written, and the result of `main`.
pub record Run : Type 0 where
  pub written : List (Text × Report)
  pub exit : Result MainError (Unit {0})

-- The files of the traces, read by `read_events`; which report files can be written; the text of a
-- problem; and the crates.
pub record World (V : Type 0) : Type 0 where
  pub files : Text → Option (List (TraceEvent V))
  pub writable : Text → Bool
  pub problem_text : Problem → Text
  pub cluster_text : ClusterProblem → Text
  pub reader : Reader V

abbrev pub is_empty : {A : Type 0} → List A → Bool
is_empty [] = true
is_empty (x ∷ xs) = false

abbrev first_of : {A : Type 0} → List A → Option A
first_of [] = none
first_of (x ∷ xs) = some x

abbrev pub to_problem_details :
    {P : Type 0} → (Text → Option Uuid) → (P → Text) → List P → List ProblemDetail
to_problem_details parse_uuid text = map (λ p. build_problem_detail parse_uuid (text p))

abbrev pub stop : MainError → Run
stop reason = record { written = []; exit = err reason }

abbrev pub done : Run
done = record { written = []; exit = ok tt }

abbrev pub verdict : {P : Type 0} → (ℕ → MainError) → List P → Result MainError (Unit {0})
verdict failed [] = ok tt
verdict failed (p ∷ problems) = err (failed (length (p ∷ problems)))

abbrev pub path_run : Result PathError Printed → Run
path_run (ok printed) = done
path_run (err reason) = stop (path_failed reason)

-- `read_events(&path)?`
abbrev pub on_file :
    {V : Type 0} → Text → Option (List (TraceEvent V)) → (List (TraceEvent V) → Run) → Run
on_file path none run = stop (read_failed path)
on_file path (some events) run = run events

module _ {V : Type 0} (world : World V) where
  -- `build_verify_diagnostics` and `build_local_trace_diagnostics`
  unfoldable pub build_trace_diagnostics : Text → VerifyReport → TraceDiagnostics
  build_trace_diagnostics path report =
      let issues = to_problem_details world.reader.parse_uuid world.problem_text report.problems in
      record {
        path = path;
        ok = is_empty issues;
        pending_messages = report.pending_messages;
        issue_count = length issues;
        first_issue = first_of issues;
        issues = issues;
      }

  unfoldable pub build_cluster_diagnostics : Counts → List ClusterProblem → ClusterDiagnostics
  build_cluster_diagnostics counts problems =
      let issues = to_problem_details world.reader.parse_uuid world.cluster_text problems in
      record {
        counts = counts;
        issue_count = length issues;
        first_issue = first_of issues;
        issues = issues;
      }

  -- `write_json_report`, if a file was asked for, and what `main` returns behind it.
  unfoldable pub finish : Option Text → Report → Result MainError (Unit {0}) → Run
  finish none report exit = record { written = []; exit = exit }
  finish (some path) report exit =
      if world.writable path
      then record { written = (path, report) ∷ []; exit = exit }
      else stop (write_failed path)

  unfoldable pub main_verify : Text → Option Text → Run
  main_verify path report_json = on_file path (world.files path) (λ events.
      let report = verify_trace world.reader events in
      finish report_json (verify_report (build_trace_diagnostics path report))
        (verdict verify_failed report.problems))

  -- The loop over the paths: the traces, the reports on them, and `had_local_errors`.
  unfoldable pub load_traces :
      List Text
      → List (ClusterTrace V)
      → List TraceDiagnostics
      → Bool
      → Result MainError (List (ClusterTrace V) × List TraceDiagnostics × Bool)
  load_traces [] traces local bad = ok (traces, local, bad)
  load_traces (path ∷ paths) traces local bad = elim (world.files path) [
    | none ↦ err (read_failed path)
    | some events ↦
        let report = verify_trace world.reader events in
        load_traces paths (traces ++ (record { path = path; events = events } ∷ []))
          (local ++ (build_trace_diagnostics path report ∷ []))
          (if is_empty report.problems then bad else true)
  ]

  unfoldable pub main_cluster : List Text → Option Text → Run
  main_cluster paths report_json = elim (load_traces paths [] [] false) [
    | err reason ↦ stop reason
    | ok (traces, local, bad) ↦
        if bad
        then finish report_json (cluster_report false paths local none) (err local_errors)
        else (let report = verify_cluster world.reader traces in
            finish report_json
              (cluster_report (is_empty (report.1)) paths local
                (some (build_cluster_diagnostics (report.0) (report.1))))
              (verdict cluster_failed (report.1)))
  ]

  -- `main` behind `parse_command`.
  unfoldable pub main : Command → Run
  main (summary path) = on_file path (world.files path) (λ events. done)
  main (verify path report_json) = main_verify path report_json
  main (cluster_verify paths report_json) = main_cluster paths report_json
  main (lineage_summary path) = on_file path (world.files path) (λ events. done)
  main (lineage_path path node msg_id) = on_file path (world.files path) (λ events.
      path_run
        (print_lineage_path world.reader (build_lineage_index world.reader events) (node, msg_id)))
