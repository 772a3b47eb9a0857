-- ===== src/Runtime/Record.antt =====
-- The record mode of the runtime: `record_event` and the branches of `main` for `Mode::Record`
-- (crates/runtime/src/main.rs). The wire messages that arrive are an argument.
pub mod Numbering
use unified_correctness_orie.Base.{
  ℕ, zero, suc, ◌+◌, Bool, true, false, Option, none, some, List, [], ◌∷◌, ◌++◌, leb, if◌then◌else◌,
  wrap_inc, Result, ok, err, ◌>>=◌, ◌>>◌,
}
use unified_correctness_orie.Base.Dict.{Dict}
use unified_correctness_orie.Base.Sort.{sort_by}
use unified_correctness_orie.Base.Text.{Text, codes}
use unified_correctness_orie.Runtime.Event.{Uuid, EventKind, TraceEvent, WireEnvelope}
use unified_correctness_orie.Runtime.Host.{Host}
use unified_correctness_orie.Runtime.Scheduler.{PendingDelivery, choose_next_deterministic}
use unified_correctness_orie.Runtime.Injector
use unified_correctness_orie.Runtime.Injector.{FaultInjector}
use unified_correctness_orie.Runtime.Program.{Program, build_actor_system}
use unified_correctness_orie.Runtime.Network.{drain_network}
use unified_correctness_orie.Runtime.Node.{
  Config, Mode, RunError, PendingTimer, Node, dispatch_outgoing, process_delivery, inbox_heads,
}
use unified_correctness_orie.Runtime.Startup.{enqueue_bootstrap, spawn_events, entry_service}

-- The trace writer, with `seq` and `seed`; the record mode has it from the start.
pub record Tape (V : Type 0) : Type 0 where
  pub events : List (TraceEvent V)
  pub seq : ℕ
  pub seed : ℕ

abbrev pub seed : ℕ
seed = 12345

module _ {V : Type 0} where
  unfoldable pub record_event : EventKind V → Tape V → Tape V
  record_event kind tape = record tape {
    events = tape.events ++ record { seq = tape.seq; seed = tape.seed; kind = kind } ∷ [];
    seq = wrap_inc tape.seq;
  }

  unfoldable pub record_all : List (EventKind V) → Tape V → Tape V
  unfolding record_event
  record_all [] tape = tape
  record_all (kind ∷ kinds) tape = record_all kinds (record_event kind tape)

  -- The timers that are due, and those that remain.
  unfoldable pub split_due :
      ℕ → List (PendingTimer V) → List (PendingTimer V) × List (PendingTimer V)
  split_due step [] = ([], [])
  split_due step (timer ∷ timers) =
      let (due, remaining) = split_due step timers in
      if leb timer.due_step step then (timer ∷ due, remaining) else (due, timer ∷ remaining)

  abbrev timer_le : PendingTimer V → PendingTimer V → Bool
  timer_le a b = leb a.timer_id b.timer_id

  unfoldable pub fire_all :
      Config
      → Dict Text Uuid
      → List (PendingTimer V)
      → Node V
      → Result RunError (Node V × List (EventKind V))
  unfolding dispatch_outgoing
  fire_all cfg service_to_actor [] node = ok (node, [])
  fire_all cfg service_to_actor (timer ∷ timers) node = do
    (node', ev) ←
        dispatch_outgoing cfg service_to_actor timer.from_actor timer.target timer.payload cfg.mode
          node
    (node'', evs) ← fire_all cfg service_to_actor timers node'
    ok (node'', EventKind.timer_fired cfg.node_id timer.from_actor timer.timer_id ∷ ev ∷ evs)

  unfoldable pub fire_due :
      Config → Dict Text Uuid → ℕ → Node V → Result RunError (Node V × List (EventKind V))
  unfolding split_due sort_by fire_all
  fire_due cfg service_to_actor step node =
      let (due, remaining) = split_due step node.pending_timers in
      fire_all cfg service_to_actor (sort_by timer_le due)
        (record node { pending_timers = remaining })

  -- The chosen delivery, if there is one: an idle step records nothing more.
  unfoldable pub deliver_next :
      Host V
      → Config
      → Program
      → Dict Text Uuid
      → ℕ
      → Option PendingDelivery
      → Node V
      → Result RunError (Node V × List (EventKind V))
  unfolding process_delivery
  deliver_next host cfg program service_to_actor step none node = ok (node, [])
  deliver_next host cfg program service_to_actor step (some d) node = do
    (node', evs) ← process_delivery host cfg program service_to_actor step d node
    ok (node', EventKind.deliver d.node d.to d.msg_id ∷ evs)

  -- One round of the scheduling loop.
  unfoldable pub record_step :
      Host V
      → Config
      → Program
      → Dict Text Uuid
      → List (WireEnvelope V)
      → ℕ
      → Node V × FaultInjector V
      → Result RunError ((Node V × FaultInjector V) × List (EventKind V))
  unfolding drain_network fire_due deliver_next choose_next_deterministic
  record_step host cfg program service_to_actor arrivals step (node, injector) = do
    let drained = drain_network arrivals cfg.node_id step node.sys injector
    (fired, timer_evs) ← fire_due cfg service_to_actor step (record node { sys = drained.0.0 })
    (node', delivery_evs) ←
        deliver_next host cfg program service_to_actor step
          (choose_next_deterministic (inbox_heads cfg.node_id fired.sys)) fired
    ok ((node', drained.0.1), drained.1 ++ (timer_evs ++ delivery_evs))

  -- `rounds` more rounds, the next of which is `step`.
  unfoldable pub record_loop :
      Host V
      → Config
      → Program
      → Dict Text Uuid
      → (ℕ → List (WireEnvelope V))
      → ℕ
      → ℕ
      → Node V × FaultInjector V
      → Result RunError ((Node V × FaultInjector V) × List (EventKind V))
  unfolding record_step
  record_loop host cfg program service_to_actor arrivals zero step s = ok (s, [])
  record_loop host cfg program service_to_actor arrivals (suc rounds) step s = do
    (s', evs) ← record_step host cfg program service_to_actor (arrivals step) step s
    (s'', more) ← record_loop host cfg program service_to_actor arrivals rounds (step + 1) s'
    ok (s'', evs ++ more)

  -- The node as `main` sets it up, before the bootstrap messages.
  abbrev pub initial_node : Host V → Program → Node V
  initial_node host program = record {
    sys = (build_actor_system host program).0;
    msg_counter = 1;
    timer_counter = 1;
    pending_timers = [];
    wire = [];
  }

  -- The start-up events: the actors, then the bootstrap messages.
  unfoldable pub start_up :
      Host V → Config → Program → Dict Text Uuid → Result RunError (Node V × List (EventKind V))
  unfolding spawn_events enqueue_bootstrap entry_service build_actor_system
  start_up host cfg program service_to_actor = do
    entry ← entry_service program service_to_actor
    spawned ← spawn_events cfg service_to_actor program.services
    (node, boot) ← enqueue_bootstrap host cfg service_to_actor entry (initial_node host program)
    let system = EventKind.spawn cfg.node_id (host.new_v5 (codes "System")) (codes "System")
    ok (node, (system ∷ spawned) ++ boot)

  -- The trace of a run in the record mode, and the node at its end.
  unfoldable pub record_main :
      Host V → Config → Program → (ℕ → List (WireEnvelope V)) → Result RunError (Node V × Tape V)
  record_main host cfg program arrivals = do
    let service_to_actor = (build_actor_system host program).1
    (node, startup) ← start_up host cfg program service_to_actor
    (final, evs) ←
        record_loop host cfg program service_to_actor arrivals cfg.steps 0
          (node, Injector.new cfg.fault)
    let tape : Tape V = record { events = []; seq = 0; seed = seed }
    ok (final.0, record_all evs (record_all startup tape))
