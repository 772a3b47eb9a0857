-- ===== src/Runtime/Cursor.antt =====
-- The replay cursor over a recorded trace, the replay of inbound events and the lookup of pending
-- timers (crates/runtime/src/main.rs).
pub mod Inbound
use unified_correctness_orie.Base.{
  ℕ, zero, suc, ◌+◌, Bool, true, false, ◌&&◌, not, Option, none, some, List, [], ◌∷◌, ◌++◌, ltb,
  eqb, if◌then◌else◌, length, Result, ok, err, ◌>>=◌, ◌>>◌, guard, or_fail, ◌==◌, nat_eq, list_eq,
}
use unified_correctness_orie.Base.Dict.{Dict}
use unified_correctness_orie.Base.Text.{Text}
use unified_correctness_orie.Runtime.Event.{Uuid, EventKind, EffectKind, FaultAction, TraceEvent}
use unified_correctness_orie.Runtime.Host.{Host}
use unified_correctness_orie.Runtime.Scheduler.{PendingDelivery}
use unified_correctness_orie.Runtime.Program.{Program, build_actor_system}
use unified_correctness_orie.Runtime.Node.{
  Config, Mode, RunError, PendingTimer, Node, deliver_to_inbox, dispatch_outgoing, process_delivery,
  pending_inbox_messages,
}
use unified_correctness_orie.Runtime.Record.{start_up}
use unified_correctness_orie.Runtime.EventEquality.{event_beq}

-- `reader` is what is left of the trace file.
pub record ReplayCursor (V : Type 0) : Type 0 where
  pub reader : List (TraceEvent V)
  pub buffered : Option (TraceEvent V)

module _ {V : Type 0} where
  abbrev read : List (TraceEvent V) → Option (TraceEvent V) × ReplayCursor V
  read [] = (none, record { reader = []; buffered = none })
  read (ev ∷ reader) = (some ev, record { reader = reader; buffered = none })

  unfoldable pub next : ReplayCursor V → Option (TraceEvent V) × ReplayCursor V
  next cursor = elim cursor.buffered [
    | some ev ↦ (some ev, record cursor { buffered = none })
    | none ↦ read cursor.reader
  ]

  unfoldable pub unread : TraceEvent V → ReplayCursor V → ReplayCursor V
  unread ev cursor = record cursor { buffered = some ev }

  -- The events that are still to be read.
  abbrev pub remaining : ReplayCursor V → List (TraceEvent V)
  remaining cursor = elim cursor.buffered [ none ↦ cursor.reader | some ev ↦ ev ∷ cursor.reader ]

  -- Enough fuel for the loops over the cursor.
  abbrev pub fuel_for : ReplayCursor V → ℕ
  fuel_for cursor = suc (length (remaining cursor))

  unfoldable pub inject_replay_netrecv : Config → Uuid → Uuid → Uuid → V → Node V → Node V
  unfolding deliver_to_inbox
  inject_replay_netrecv cfg node to msg_id payload s =
      if node == cfg.node_id then record s { sys = deliver_to_inbox to msg_id payload s.sys } else s

  -- One event of `drain_replay_inbound`: the node after it, or none at an event that is put back.
  unfoldable pub inbound_event : Config → EventKind V → Node V → Option (Node V)
  unfolding inject_replay_netrecv
  inbound_event cfg (EventKind.net_recv node from_node to msg_id payload) s =
      some (inject_replay_netrecv cfg node to msg_id payload s)
  inbound_event cfg (EventKind.fault_injected _ _ _ _ _) s = some s
  inbound_event cfg (EventKind.fault_policy _ _ _ _ _) s = some s
  inbound_event cfg _ s = none

  unfoldable pub drain_replay_inbound :
      ℕ → Config → Node V × ReplayCursor V → Result RunError (Node V × ReplayCursor V)
  unfolding next unread
  drain_replay_inbound zero cfg s = err RunError.out_of_fuel
  drain_replay_inbound (suc fuel) cfg (node, cursor) =
      let (front, cursor') = next cursor in
      elim front [
        | none ↦ ok (node, cursor')
        | some ev ↦ elim (inbound_event cfg ev.kind node) [
          | none ↦ ok (node, unread ev cursor')
          | some node' ↦ drain_replay_inbound fuel cfg (node', cursor')
        ]
      ]

  -- `position`, with `swap_remove`: the first timer that fits, and the others, the last of which
  -- takes its place.
  abbrev fits : Uuid → Uuid → PendingTimer V → Bool
  fits from timer_id t = (t.timer_id == timer_id) && (t.from_actor == from)

  unfoldable pub move_last : List (PendingTimer V) → List (PendingTimer V)
  move_last [] = []
  move_last (t ∷ []) = t ∷ []
  move_last (t ∷ u ∷ ts) =
      let rest = move_last (u ∷ ts) in elim rest [ [] ↦ [] | l ∷ others ↦ l ∷ t ∷ others ]

  unfoldable pub take_timer :
      Uuid → Uuid → List (PendingTimer V) → Option (PendingTimer V × List (PendingTimer V))
  unfolding move_last
  take_timer from timer_id [] = none
  take_timer from timer_id (t ∷ ts) =
      let later = take_timer from timer_id ts in
      if fits from timer_id t
      then some (t, move_last ts)
      else elim later [ none ↦ none | some (found, others) ↦ some (found, t ∷ others) ]
