-- ===== src/Tool/Main/Exit.antt =====
-- What an exit without an error says of the traces (main of crates/tool/src/main.rs).
use unified_correctness_orie.Base.{
  ℕ, ◌≡◌, ◌↔◌, refl, sym, ◌∙◌, Bool, true, false, Option, none, some, List, [], ◌∷◌, map, All,
  Result, ok, err, Bool-cases, inl, inr,
}
use unified_correctness_orie.Base.Text.{Text}
use unified_correctness_orie.Runtime.Event.{TraceEvent}
use unified_correctness_orie.Tool.Checks.{VerifyReport}
use unified_correctness_orie.Tool.Verify.{verify_trace}
use unified_correctness_orie.Tool.Evidence.{ClusterTrace}
use unified_correctness_orie.Tool.Cluster.{verify_cluster}
use unified_correctness_orie.Tool.Lineage.{build_lineage_index}
use unified_correctness_orie.Tool.Lineage.Path.{PathError, Printed, print_lineage_path}
use unified_correctness_orie.Tool.Diagnostics.{build_problem_detail}
use unified_correctness_orie.Tool.CommandLine.{
  Command, summary, lineage_summary, verify, lineage_path, cluster_verify,
}
use unified_correctness_orie.Tool.Main.{
  TraceDiagnostics, Report, verify_report, cluster_report, MainError, Run, World, is_empty,
  build_trace_diagnostics, finish, main_verify, load_traces, main_cluster, main, verify_failed,
  cluster_failed, local_errors, verdict, path_run, on_file,
}

abbrev pub says_ok : Report → Bool
says_ok (verify_report diagnostics) = diagnostics.ok
says_ok (cluster_report all_ok traces local cluster) = all_ok

-- Each report that was written says that all is well exactly when the run ends without an error.
abbrev pub Agrees : Run → Type 0
Agrees run = All (λ w. (says_ok (w.1) ≡ true) ↔ (run.exit ≡ ok tt)) run.written

module _ {V : Type 0} (world : World V) where
  finish-Agrees :
      (file : Option Text) (report : Report) (exit : Result MainError (Unit {0}))
      → (says_ok report ≡ true) ↔ (exit ≡ ok tt)
      → Agrees (finish world file report exit)
  unfolding finish
  finish-Agrees none report exit h = tt
  finish-Agrees (some path) report exit h = elim (Bool-cases (world.writable path)) [
    | inl e ↦ rw (finish, e) (h, tt)
    | inr e ↦ rw (finish, e) tt
  ]

  empty_verdict :
      {P : Type 0} (failed : ℕ → MainError) (problems : List P)
      → (is_empty problems ≡ true) ↔ (verdict failed problems ≡ ok tt)
  empty_verdict failed [] = ((λ h. refl), (λ h. refl))
  empty_verdict failed (p ∷ problems) = ((λ h. cc), (λ h. cc))

  is_empty-map :
      {P Q : Type 0} (f : P → Q) (problems : List P) → is_empty (map f problems) ≡ is_empty problems
  is_empty-map f [] = refl
  is_empty-map f (p ∷ problems) = refl

  -- The details are empty exactly when the problems are.
  empty_details :
      (path : Text) (report : VerifyReport)
      → (build_trace_diagnostics world path report).ok ≡ is_empty report.problems
  unfolding build_trace_diagnostics
  empty_details path report =
      is_empty-map (λ p. build_problem_detail world.reader.parse_uuid (world.problem_text p))
        report.problems

  on_file-Agrees :
      (path : Text) (read : Option (List (TraceEvent V))) (run : List (TraceEvent V) → Run)
      → ((events : List (TraceEvent V)) → Agrees (run events))
      → Agrees (on_file path read run)
  on_file-Agrees path none run h = tt
  on_file-Agrees path (some events) run h = h events

  path_run-Agrees : (out : Result PathError Printed) → Agrees (path_run out)
  path_run-Agrees (ok printed) = tt
  path_run-Agrees (err reason) = tt

  main_verify-Agrees : (path : Text) (file : Option Text) → Agrees (main_verify world path file)
  unfolding main_verify
  main_verify-Agrees path file = on_file-Agrees path (world.files path) _ (λ events.
      let report = verify_trace world.reader events in
      let empty = empty_verdict verify_failed report.problems in
      finish-Agrees file (verify_report (build_trace_diagnostics world path report))
        (verdict verify_failed report.problems)
        (
          (λ h. empty.0 (sym (empty_details path report) ∙ h)),
          (λ h. empty_details path report ∙ empty.1 h),
        ))

  cluster_judged :
      (paths : List Text) (file : Option Text)
      (loaded : Result MainError (List (ClusterTrace V) × List TraceDiagnostics × Bool))
      → load_traces world paths [] [] false ≡ loaded
      → Agrees (main_cluster world paths file)
  unfolding main_cluster
  cluster_judged paths file (err reason) e = rw (main_cluster, e) tt
  cluster_judged paths file (ok (traces, local, true)) e =
      rw (main_cluster, e) (finish-Agrees file _ (err local_errors) ((λ h. cc), (λ h. cc)))
  cluster_judged paths file (ok (traces, local, false)) e =
      let problems = (verify_cluster world.reader traces).1 in
      rw (main_cluster, e)
        (finish-Agrees file _ (verdict cluster_failed problems)
          (empty_verdict cluster_failed problems))

  -- A report file that the tool writes says that all is well exactly when the tool exits without
  -- an error, whatever the command.
  pub main-Agrees : (command : Command) → Agrees (main world command)
  unfolding main
  main-Agrees (summary path) = on_file-Agrees path (world.files path) _ (λ events. tt)
  main-Agrees (lineage_summary path) = on_file-Agrees path (world.files path) _ (λ events. tt)
  main-Agrees (verify path file) = main_verify-Agrees path file
  main-Agrees (cluster_verify paths file) = cluster_judged paths file _ refl
  main-Agrees (lineage_path path node msg_id) = on_file-Agrees path (world.files path) _ (λ events.
      path_run-Agrees
        (print_lineage_path world.reader (build_lineage_index world.reader events) (node, msg_id)))
