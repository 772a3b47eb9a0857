-- ===== src/Runtime/Replay.antt =====
-- The replay mode of the runtime: the branches of `main` for `Mode::Replay`
-- (crates/runtime/src/main.rs).
pub mod Strict
pub mod Reading
pub mod Rounds
pub mod Terminates
use unified_correctness_orie.Base.{
  ℕ, zero, suc, ◌+◌, Bool, true, false, not, Option, none, some, List, [], ◌∷◌, eqb, if◌then◌else◌,
  length, Result, ok, err, ◌>>=◌, ◌>>◌, guard, or_fail, ◌==◌, nat_eq,
}
use unified_correctness_orie.Base.Dict.{Dict}
use unified_correctness_orie.Base.Text.{Text}
use unified_correctness_orie.Runtime.Event.{Uuid, EventKind, TraceEvent}
use unified_correctness_orie.Runtime.Host.{Host}
use unified_correctness_orie.Runtime.Scheduler.{PendingDelivery}
use unified_correctness_orie.Runtime.Program.{Program, build_actor_system}
use unified_correctness_orie.Runtime.Node.{
  Config, RunError, Node, dispatch_outgoing, process_delivery, pending_inbox_messages,
}
use unified_correctness_orie.Runtime.Record.{start_up}
use unified_correctness_orie.Runtime.EventEquality.{event_beq}
use unified_correctness_orie.Runtime.Cursor.{
  ReplayCursor, next, unread, fuel_for, inject_replay_netrecv, drain_replay_inbound, take_timer,
}

-- The events that only a step of the runtime emits.
abbrev pub is_emitted : {V : Type 0} → EventKind V → Bool
is_emitted (EventKind.send _ _ _ _) = true
is_emitted (EventKind.net_send _ _ _ _ _) = true
is_emitted (EventKind.log _ _ _ _) = true
is_emitted (EventKind.effect_observed _ _ _ _ _ _ _) = true
is_emitted _ = false

-- What one event means to `next_replay_delivery`: a delivery, or the state to go on from.
pub data Seen (V : Type 0) : Type 0 where
  delivery : PendingDelivery → Seen V
  going_on : Node V → ReplayCursor V → Seen V

module _ {V : Type 0} (host : Host V) where
  -- The next event is the expected one.
  unfoldable pub expect_event : EventKind V → ReplayCursor V → Result RunError (ReplayCursor V)
  unfolding next
  expect_event expected cursor = do
    actual ← or_fail (next cursor).0 RunError.trace_ended
    guard (event_beq host actual.kind expected) RunError.emission_mismatch
    ok (next cursor).1

  unfoldable pub expect_events :
      List (EventKind V) → ReplayCursor V → Result RunError (ReplayCursor V)
  unfolding expect_event
  expect_events [] cursor = ok cursor
  expect_events (expected ∷ more) cursor = do
    cursor' ← expect_event expected cursor
    expect_events more cursor'

  -- The next event is none that a step emits; it is put back.
  unfoldable pub no_more_emits : ReplayCursor V → Result RunError (ReplayCursor V)
  unfolding next unread
  no_more_emits cursor =
      let (front, cursor') = next cursor in
      elim front [
        | none ↦ ok cursor'
        | some ev ↦ (do
          guard (not (is_emitted ev.kind)) RunError.extra_event
          ok (unread ev cursor'))
      ]

  -- The expected events, and no further emitted event behind them.
  unfoldable pub verify_replay_emits :
      List (EventKind V) → ReplayCursor V → Result RunError (ReplayCursor V)
  verify_replay_emits expected cursor = do
    cursor' ← expect_events expected cursor
    no_more_emits cursor'

  module _ (cfg : Config) (service_to_actor : Dict Text Uuid) where
    unfoldable pub replay_fire_timer :
        Uuid → Uuid → Uuid → Node V × ReplayCursor V → Result RunError (Node V × ReplayCursor V)
    unfolding take_timer dispatch_outgoing expect_event
    replay_fire_timer node from timer_id (s, cursor) =
        if not (node == cfg.node_id) then ok (s, cursor) else (do
          (timer, others) ←
              or_fail (take_timer from timer_id s.pending_timers) RunError.unknown_timer
          (s', emitted) ←
              dispatch_outgoing cfg service_to_actor timer.from_actor timer.target timer.payload
                cfg.mode (record s { pending_timers = others })
          cursor' ← expect_event emitted cursor
          ok (s', cursor'))

    unfoldable pub replay_event : EventKind V → Node V × ReplayCursor V → Result RunError (Seen V)
    unfolding inject_replay_netrecv replay_fire_timer
    replay_event (EventKind.net_recv node from_node to msg_id payload) (s, cursor) =
        ok (going_on (inject_replay_netrecv cfg node to msg_id payload s) cursor)
    replay_event (EventKind.deliver node to msg_id) (s, cursor) =
        if node == cfg.node_id
        then ok (delivery (record { node = node; to = to; msg_id = msg_id }))
        else ok (going_on s cursor)
    replay_event (EventKind.fault_injected _ _ _ _ _) (s, cursor) = ok (going_on s cursor)
    replay_event (EventKind.fault_policy _ _ _ _ _) (s, cursor) = ok (going_on s cursor)
    replay_event (EventKind.timer_fired node from timer_id) (s, cursor) = do
      (s', cursor') ← replay_fire_timer node from timer_id (s, cursor)
      ok (going_on s' cursor')
    replay_event _ s = err RunError.unexpected_event

    -- Each round reads an event; the fuel bounds the rounds.
    unfoldable pub next_replay_delivery :
        ℕ
        → Node V × ReplayCursor V
        → Result RunError (Option PendingDelivery × Node V × ReplayCursor V)
    unfolding next replay_event
    next_replay_delivery zero s = err RunError.out_of_fuel
    next_replay_delivery (suc fuel) (s, cursor) =
        let (front, cursor') = next cursor in
        elim front [
          | none ↦ ok (none, s, cursor')
          | some ev ↦ replay_event ev.kind (s, cursor') >>= λ seen. elim seen [
            | delivery d ↦ ok (some d, s, cursor')
            | going_on s' cursor'' ↦ next_replay_delivery fuel (s', cursor'')
          ]
        ]

    -- The scheduling loop, with `rounds` left; the flag is `replay_exhausted`.
    unfoldable pub replay_loop :
        Program → ℕ → ℕ → Node V × ReplayCursor V → Result RunError (Bool × Node V × ReplayCursor V)
    unfolding drain_replay_inbound next_replay_delivery process_delivery verify_replay_emits
    replay_loop program zero step (s, cursor) = ok (false, s, cursor)
    replay_loop program (suc rounds) step (s, cursor) = do
      (s₁, cursor₁) ← drain_replay_inbound (fuel_for cursor) cfg (s, cursor)
      (found, s₂, cursor₂) ← next_replay_delivery (fuel_for cursor₁) (s₁, cursor₁)
      elim found [
        | none ↦ (do
          guard (eqb (pending_inbox_messages s₂.sys) 0) RunError.undelivered
          ok (true, s₂, cursor₂))
        | some d ↦ (do
          (s₃, expected) ← process_delivery host cfg program service_to_actor step d s₂
          cursor₃ ← verify_replay_emits expected cursor₂
          replay_loop program rounds (step + 1) (s₃, cursor₃))
      ]

    -- The checks behind the loop, for a run whose steps ended before the trace did.
    unfoldable pub replay_end : Bool × Node V × ReplayCursor V → Result RunError (Node V)
    unfolding next pending_inbox_messages
    replay_end (true, s, cursor) = ok s
    replay_end (false, s, cursor) = elim (next cursor).0 [
      | some ev ↦ err RunError.stopped_early
      | none ↦ (do guard (eqb (pending_inbox_messages s.sys) 0) RunError.undelivered; ok s)
    ]

  -- A run in the replay mode: the node at its end.
  unfoldable pub replay_main : Config → Program → List (TraceEvent V) → Result RunError (Node V)
  unfolding start_up verify_replay_emits replay_loop replay_end
  replay_main cfg program trace = do
    let service_to_actor = (build_actor_system host program).1
    (node, startup) ← start_up host cfg program service_to_actor
    cursor ← verify_replay_emits startup (record { reader = trace; buffered = none })
    ended ← replay_loop cfg service_to_actor program cfg.steps 0 (node, cursor)
    replay_end cfg service_to_actor ended
