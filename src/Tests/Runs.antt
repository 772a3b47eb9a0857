-- ===== src/Tests/Runs.antt =====
-- The theorems about faults, recording and replaying, applied to small runs.
use mathlib.Core.List.{Perm, Mem, mem-cons, mem-cons_self, not-mem-nil}
use mathlib.Core.Logic.Or
use unified_correctness_orie.Base.{
  ℕ, ◌≤◌, ◌≡◌, refl, false, none, some, List, [], ◌∷◌, ◌++◌, map, arith, Result, ok, err, length,
  list_eq, nat_eq, list_beq,
}
use unified_correctness_orie.Base.Dict
use unified_correctness_orie.Runtime.Event.{EventKind, TraceEvent, WireEnvelope}
use unified_correctness_orie.Runtime.EventEquality.{event_beq}
use unified_correctness_orie.Runtime.Host.{RuntimeMessage}
use unified_correctness_orie.Runtime.Fault.{
  FaultPhase, FaultConfig, default_fault_config, policy_for_step, base_policy,
  sort_and_validate_phases,
}
use unified_correctness_orie.Runtime.Fault.Phases.{
  AreDisjoint, Covers, validated-AreDisjoint, policy-active, policy-idle, disjoint_accepted,
}
use unified_correctness_orie.Runtime.Actor.{ActorSystem}
use unified_correctness_orie.Runtime.Injector.{FaultInjector, due_prefix}
use unified_correctness_orie.Runtime.Injector
use unified_correctness_orie.Runtime.Injector.Batches.{within}
use unified_correctness_orie.Runtime.Network.{
  drain_network, ingest_all, receive_all, net_recv_event,
}
use unified_correctness_orie.Runtime.Network.Released.{IsReleased, IsReceived}
use unified_correctness_orie.Runtime.Network.Order.{arrived, seen_after, drain_network-queue}
use unified_correctness_orie.Runtime.Program.{Program, effect_vec}
use unified_correctness_orie.Runtime.Actions.{execute_actions}
use unified_correctness_orie.Runtime.Node.{Config, Mode, Node}
use unified_correctness_orie.Runtime.Cursor.{
  ReplayCursor, drain_replay_inbound, fuel_for, remaining,
}
use unified_correctness_orie.Runtime.Cursor.Inbound.{inbound, drain_replay_inbound-total}
use unified_correctness_orie.Runtime.Replay.{
  expect_event, expect_events, no_more_emits, verify_replay_emits,
}
use unified_correctness_orie.Runtime.Replay.Strict.{
  kinds, starts_emitted, verify_replay_emits-exact,
}
use unified_correctness_orie.Runtime.Record.{
  Tape, seed, record_event, record_all, start_up, record_loop, record_main,
}
use unified_correctness_orie.Runtime.Record.Numbering.{record_main-Numbered}
use unified_correctness_orie.Tool.Verify.Sound.{Numbered}
use unified_correctness_orie.Tests.{host, host-IsLawful, root_message}

abbrev dropping : FaultPhase
dropping = record {
  start_step = 5;
  end_step = some 9;
  policy = record { drop_every = some 2; delay_steps = 0; reorder_window = 3 };
}

abbrev phased : FaultConfig
phased = record { drop_every = none; delay_steps = 1; reorder_window = 1; phases = dropping ∷ [] }

accepted : sort_and_validate_phases phased ≡ ok phased
unfolding sort_and_validate_phases
accepted = refl

validated-AreDisjoint_example : AreDisjoint phased.phases × Perm phased.phases phased.phases
validated-AreDisjoint_example = validated-AreDisjoint phased phased accepted

policy-active_example : policy_for_step phased 7 ≡ dropping.policy
policy-active_example =
    policy-active phased phased accepted dropping 7 mem-cons_self (omega arith, omega arith)

idle : (p : FaultPhase) → Mem p phased.phases → ¬ Covers p 3
idle p m (h, _) =
    Or.elim (hlevel) (mem-cons.0 m) (λ q. let early : 5 ≤ 3 = rw q at h in absurd (omega arith))
      (λ later. absurd (not-mem-nil later))

policy-idle_example : policy_for_step phased 3 ≡ base_policy phased
policy-idle_example = policy-idle phased phased accepted 3 idle

disjoint_accepted_example : sort_and_validate_phases phased ≡ ok phased
disjoint_accepted_example = disjoint_accepted phased (omega arith, tt, tt)

abbrev envelope : ℕ → WireEnvelope RuntimeMessage
envelope n = record { from_node = 1; to_node = 2; to_actor = 3; msg_id = n; payload = root_message }

abbrev arrivals : List (WireEnvelope RuntimeMessage)
arrivals = envelope 10 ∷ (envelope 11 ∷ (envelope 12 ∷ []))

abbrev injector : FaultInjector RuntimeMessage
injector = Injector.new phased

-- The receiver, with a message in its inbox.
abbrev waiting : ActorSystem RuntimeMessage
waiting = (3, record { id = 3; service = 65 ∷ []; state = []; inbox = (9, root_message) ∷ [] }) ∷ []

drain_network-queue_example :
    let out =
      due_prefix 7 (injector.pending ++ arrived phased 7 2 injector.seen_inbound arrivals) in
    let r = drain_network arrivals 2 7 waiting injector in
    (r.0.0 ≡ receive_all out.0 waiting)
    × (r.0.1 ≡ within phased 7 2 (seen_after phased 7 2 injector.seen_inbound arrivals) [] out.1)
    × ((faults : List (EventKind RuntimeMessage)) × (r.1 ≡ faults ++ map net_recv_event out.0))
    × IsReleased 7 (injector.pending ++ arrived phased 7 2 injector.seen_inbound arrivals) out
    × IsReceived out.0 waiting r.0.0
unfolding Injector.new
drain_network-queue_example = drain_network-queue phased 7 2 arrivals waiting injector refl refl

abbrev event : ℕ → EventKind RuntimeMessage → TraceEvent RuntimeMessage
event n k = record { seq = n; seed = 5; kind = k }

abbrev logged : EventKind RuntimeMessage
logged = EventKind.log 1 2 (65 ∷ []) (84 ∷ [])

abbrev before : ReplayCursor RuntimeMessage
before = record {
  reader = event 1 logged ∷ (event 2 (EventKind.deliver 1 2 9) ∷ []);
  buffered = none;
}

abbrev behind : ReplayCursor RuntimeMessage
behind = record { reader = []; buffered = some (event 2 (EventKind.deliver 1 2 9)) }

emits : verify_replay_emits host (logged ∷ []) before ≡ ok behind
unfolding verify_replay_emits expect_events expect_event no_more_emits list_beq event_beq
emits = refl

verify_replay_emits-exact_example :
    (kinds before ≡ (logged ∷ []) ++ kinds behind) × (starts_emitted (kinds behind) ≡ false)
verify_replay_emits-exact_example =
    verify_replay_emits-exact host host-IsLawful (logged ∷ []) before behind emits

abbrev pub config : Config
config = record {
  mode = Mode.recording;
  trace_path = [];
  program_path = [];
  node_id = 1;
  listen = none;
  peers = [];
  bootstrap_hello = false;
  bootstrap_burst = 0;
  steps = 1;
  idle_sleep_ms = 0;
  startup_wait_ms = 0;
  fault = default_fault_config;
}

abbrev pub idle_node : Node RuntimeMessage
idle_node = record { sys = []; msg_counter = 1; timer_counter = 1; pending_timers = []; wire = [] }

abbrev inbound_cursor : ReplayCursor RuntimeMessage
inbound_cursor = record {
  reader =
      event 1 (EventKind.net_recv 1 2 3 9 root_message) ∷ (event 2 (EventKind.deliver 1 3 9) ∷ []);
  buffered = none;
}

drain_replay_inbound-total_example :
    (c : ReplayCursor RuntimeMessage) × (drain_replay_inbound
        (fuel_for inbound_cursor)
        config
        (idle_node, inbound_cursor)
      ≡ ok ((inbound config (remaining inbound_cursor) idle_node).0, c))
    × (remaining c ≡ (inbound config (remaining inbound_cursor) idle_node).1)
drain_replay_inbound-total_example = drain_replay_inbound-total config idle_node inbound_cursor

abbrev pub program : Program
program = record {
  services = (65 ∷ []) ∷ [];
  service_initial_state = (65 ∷ [], []) ∷ [];
  handlers = [];
}

abbrev no_tape : Tape RuntimeMessage
no_tape = record { events = []; seq = 0; seed = 0 }

abbrev run_result :
    {E : Type 0}
    → Result E (Node RuntimeMessage × Tape RuntimeMessage)
    → Node RuntimeMessage × Tape RuntimeMessage
run_result (ok r) = r
run_result (err e) = (idle_node, no_tape)

-- One step: the actors, the bootstrap message, the fault policy, its delivery and its report.
unfoldable pub recorded : Node RuntimeMessage × Tape RuntimeMessage
unfolding record_main start_up record_loop record_all record_event Dict.get Dict.insert list_beq
    receive_all Injector.release_due Injector.flush_remainder ingest_all Injector.sync_policy
    Injector.new policy_for_step execute_actions effect_vec
recorded = run_result (record_main host config program (λ step. []))

runs : record_main host config program (λ step. []) ≡ ok (recorded.0, recorded.1)
unfolding recorded record_main start_up record_loop record_all record_event Dict.get Dict.insert
    list_beq receive_all Injector.release_due Injector.flush_remainder ingest_all
    Injector.sync_policy Injector.new policy_for_step execute_actions effect_vec
runs = refl

six_events : length recorded.1.events ≡ 6
unfolding recorded record_main start_up record_loop record_all record_event Dict.get Dict.insert
    list_beq receive_all Injector.release_due Injector.flush_remainder ingest_all
    Injector.sync_policy Injector.new policy_for_step execute_actions effect_vec
six_events = refl

record_main-Numbered_example : Numbered seed 0 recorded.1.events
record_main-Numbered_example =
    record_main-Numbered host config program (λ step. []) recorded.0 recorded.1 runs
      (omega (arith, six_events))
