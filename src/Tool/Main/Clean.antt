-- ===== src/Tool/Main/Clean.antt =====
-- Which traces a run of the tool that exits without an error has read (main of
-- crates/tool/src/main.rs).
use mathlib.Core.List.{append_assoc, append-nil}
use unified_correctness_orie.Base.{
  ℕ, ◌≡◌, refl, sym, ap, ◌∙◌, subst, Bool, true, false, Option, none, some, List, [], ◌∷◌, ◌++◌,
  map, All, Result, ok, err, Bool-cases, Option-cases, inl, inr, ok-injective, if◌then◌else◌,
}
use unified_correctness_orie.Base.Text.{Text}
use unified_correctness_orie.Runtime.Event.{TraceEvent}
use unified_correctness_orie.Tool.Verify.{verify_trace}
use unified_correctness_orie.Tool.Evidence.{ClusterTrace}
use unified_correctness_orie.Tool.Cluster.{verify_cluster}
use unified_correctness_orie.Tool.Cluster.Events.{recorded, IsConsistent}
use unified_correctness_orie.Tool.Cluster.Consistent.{verify_cluster-IsConsistent}
use unified_correctness_orie.Tool.CommandLine.{verify, cluster_verify}
use unified_correctness_orie.Tool.Main.{
  TraceDiagnostics, Report, MainError, World, is_empty, build_trace_diagnostics, finish,
  main_verify, load_traces, main_cluster, main, read_failed, verify_failed, cluster_failed,
  local_errors, verdict, verify_report,
}

module _ {V : Type 0} (world : World V) where
  -- A trace that the tool has read, in which verify_trace finds nothing.
  abbrev pub IsRead : ClusterTrace V → Type 0
  IsRead trace = world.files trace.path ≡ some trace.events

  abbrev pub IsClean : ClusterTrace V → Type 0
  IsClean trace = (verify_trace world.reader trace.events).problems ≡ []

  abbrev path_of : ClusterTrace V → Text
  path_of trace = trace.path

  still_good :
      {P : Type 0} (problems : List P) (bad : Bool)
      → (if is_empty problems then bad else true) ≡ false
      → (bad ≡ false) × (problems ≡ [])
  still_good [] bad h = (h, refl)
  still_good (p ∷ problems) bad h = cc

  abbrev Loaded :
      List Text
      → List (ClusterTrace V)
      → Bool
      → List (ClusterTrace V) × List TraceDiagnostics × Bool
      → Type 0
  Loaded paths traces bad out =
      (more : List (ClusterTrace V)) × (out.0 ≡ traces ++ more)
      × (map path_of more ≡ paths)
      × All IsRead more
      × (out.2 ≡ false → (bad ≡ false) × All IsClean more)

  load_traces-Loaded :
      (paths : List Text) (traces : List (ClusterTrace V)) (local : List TraceDiagnostics)
      (bad : Bool) (out : List (ClusterTrace V) × List TraceDiagnostics × Bool)
      → load_traces world paths traces local bad ≡ ok out
      → Loaded paths traces bad out
  unfolding load_traces
  load_traces-Loaded [] traces local bad out h =
      subst (Loaded [] traces bad) (ok-injective h)
        ([], sym (append-nil traces), refl, tt, (λ e. (e, tt)))
  load_traces-Loaded (path ∷ paths) traces local bad out h =
      elim (Option-cases (world.files path)) [
        | inl absent ↦
            let failed : err (read_failed path) ≡ ok out = rw (load_traces, absent) at h in cc
        | inr (events, found) ↦
            let trace : ClusterTrace V = record { path = path; events = events } in
            let report = verify_trace world.reader events in
            let rest = rw (load_traces, found) at h in
            let (more, all, names, read, clean) =
              load_traces-Loaded paths (traces ++ (trace ∷ [])) _ _ out rest in
            (
              trace ∷ more,
              all ∙ append_assoc traces (trace ∷ []) more,
              ap (◌∷◌ path) names,
              (found, read),
              λ e.
                  let (good, later) = clean e in
                  let (before, none_here) = still_good report.problems bad good in
                  (before, (none_here, later)),
            )
      ]

  finish-exit :
      (file : Option Text) (report : Report) (exit : Result MainError (Unit {0}))
      → (finish world file report exit).exit ≡ ok tt
      → exit ≡ ok tt
  unfolding finish
  finish-exit none report exit h = h
  finish-exit (some path) report exit h = elim (Bool-cases (world.writable path)) [
    | inl writes ↦ rw (finish, writes) at h
    | inr fails ↦ let failed = rw (finish, fails) at h in cc
  ]

  verdict-nil :
      {P : Type 0} (failed : ℕ → MainError) (problems : List P)
      → verdict failed problems ≡ ok tt
      → problems ≡ []
  verdict-nil failed [] h = refl
  verdict-nil failed (p ∷ problems) h = cc

  main_cluster-IsClean :
      (paths : List Text) (file : Option Text)
      (loaded : Result MainError (List (ClusterTrace V) × List TraceDiagnostics × Bool))
      → load_traces world paths [] [] false ≡ loaded
      → (main_cluster world paths file).exit ≡ ok tt
      → (traces : List (ClusterTrace V)) × (map path_of traces ≡ paths)
        × All IsRead traces
        × All IsClean traces
        × ((verify_cluster world.reader traces).1 ≡ [])
  unfolding main_cluster
  main_cluster-IsClean paths file (err reason) e h = let failed = rw (main_cluster, e) at h in cc
  main_cluster-IsClean paths file (ok (traces, local, true)) e h =
      let failed = finish-exit file _ (err local_errors) (rw (main_cluster, e) at h) in cc
  main_cluster-IsClean paths file (ok (traces, local, false)) e h =
      let report = verify_cluster world.reader traces in
      let (more, all, names, read, clean) =
        load_traces-Loaded paths [] [] false (traces, local, false) e in
      let quiet =
        verdict-nil cluster_failed (report.1)
          (finish-exit file _ (verdict cluster_failed (report.1)) (rw (main_cluster, e) at h)) in
      (
        more,
        names,
        read,
        (clean refl).1,
        subst (λ t. (verify_cluster world.reader t).1 ≡ []) all quiet,
      )

  -- When cluster-verify exits without an error, every path that was given was read as a trace in
  -- which verify_trace finds no problem, verify_cluster finds none in these traces together, and
  -- what they say of the messages between their nodes agrees.
  pub main-cluster-IsClean :
      (paths : List Text) (file : Option Text)
      → (main world (cluster_verify paths file)).exit ≡ ok tt
      → (traces : List (ClusterTrace V)) × (map path_of traces ≡ paths)
        × All IsRead traces
        × All IsClean traces
        × ((verify_cluster world.reader traces).1 ≡ [])
        × IsConsistent world.reader (recorded traces)
  unfolding main
  main-cluster-IsClean paths file h =
      let (traces, names, read, clean, quiet) = main_cluster-IsClean paths file _ refl h in
      (traces, names, read, clean, quiet, verify_cluster-IsConsistent world.reader traces quiet)

  main_verify-IsRead :
      (path : Text) (file : Option Text) (read : Option (List (TraceEvent V)))
      → world.files path ≡ read
      → (main_verify world path file).exit ≡ ok tt
      → (trace : ClusterTrace V) × (trace.path ≡ path) × IsRead trace × IsClean trace
  unfolding main_verify
  main_verify-IsRead path file none e h = let failed = rw (main_verify, e) at h in cc
  main_verify-IsRead path file (some events) e h =
      let report = verify_trace world.reader events in
      let quiet = verdict-nil verify_failed report.problems (
        finish-exit file (verify_report (build_trace_diagnostics world path report))
          (verdict verify_failed report.problems) (rw (main_verify, e) at h)) in
      (record { path = path; events = events }, refl, e, quiet)

  -- When verify exits without an error, the path was read as a trace in which verify_trace finds
  -- no problem.
  pub main-verify-IsClean :
      (path : Text) (file : Option Text)
      → (main world (verify path file)).exit ≡ ok tt
      → (trace : ClusterTrace V) × (trace.path ≡ path) × IsRead trace × IsClean trace
  unfolding main
  main-verify-IsClean path file h = main_verify-IsRead path file _ refl h
