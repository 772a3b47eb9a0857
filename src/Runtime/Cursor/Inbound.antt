-- ===== src/Runtime/Cursor/Inbound.antt =====
-- What drain_replay_inbound (crates/runtime/src/main.rs) reads of the trace.
use unified_correctness_orie.Base.{
  ℕ, zero, suc, ◌≡◌, refl, Option, none, some, List, [], ◌∷◌, arith, length, ◌<◌, ok, Option-cases,
  inl, inr,
}
use unified_correctness_orie.Runtime.Event.{TraceEvent}
use unified_correctness_orie.Runtime.Node.{Config, Node}
use unified_correctness_orie.Runtime.Cursor.{
  ReplayCursor, remaining, inbound_event, drain_replay_inbound, fuel_for,
}

module _ {V : Type 0} (cfg : Config) where
  -- The node after the inbound events at the front of a trace, and the events behind them.
  pub inbound : List (TraceEvent V) → Node V → Node V × List (TraceEvent V)
  inbound [] node = (node, [])
  inbound (ev ∷ evs) node = elim (inbound_event cfg ev.kind node) [
    | none ↦ (node, ev ∷ evs)
    | some node' ↦ inbound evs node'
  ]

  -- What the loop, entered at `rs` and `o`, ends with.
  Drains : ℕ → List (TraceEvent V) → Option (TraceEvent V) → Node V → Type 0
  Drains fuel rs o node =
      let all = remaining (record { reader = rs; buffered = o }) in
      (c : ReplayCursor V) × (drain_replay_inbound fuel cfg
          (node, record { reader = rs; buffered = o })
        ≡ ok ((inbound all node).0, c))
      × (remaining c ≡ (inbound all node).1)

  drain-event :
      (fuel : ℕ) (ev : TraceEvent V) (rs : List (TraceEvent V)) (node : Node V)
      → ((node' : Node V) → Drains fuel rs none node')
      → Drains (suc fuel) rs (some ev) node
  unfolding Drains drain_replay_inbound inbound
  drain-event fuel ev rs node rest = elim (Option-cases (inbound_event cfg ev.kind node)) [
    | inl n ↦ (
      record { reader = rs; buffered = some ev },
      rw (drain_replay_inbound, inbound, n),
      rw (inbound, n),
    )
    | inr (node', e) ↦ rw (drain_replay_inbound, inbound, e) (rest node')
  ]

  drain-reader :
      (fuel : ℕ) (rs : List (TraceEvent V)) (node : Node V)
      → length rs < fuel
      → Drains fuel rs none node
  unfolding drain_replay_inbound Drains inbound
  drain-reader zero rs node h = absurd (omega arith)
  drain-reader (suc fuel) [] node h = (record { reader = []; buffered = none }, refl, refl)
  drain-reader (suc fuel) (ev ∷ rs) node h =
      drain-event fuel ev rs node (λ node'. drain-reader fuel rs node' (omega arith))

  drain-at :
      (rs : List (TraceEvent V)) (o : Option (TraceEvent V)) (node : Node V)
      → Drains (fuel_for (record { reader = rs; buffered = o })) rs o node
  drain-at rs none node = drain-reader (suc (length rs)) rs node (omega arith)
  drain-at rs (some ev) node =
      drain-event (suc (length rs)) ev rs node
        (λ node'. drain-reader (suc (length rs)) rs node' (omega arith))

  -- With the fuel that the replay gives it, the loop of drain_replay_inbound ends: it applies the
  -- inbound events at the front of the rest of the trace, and leaves exactly the events behind
  -- them.
  pub drain_replay_inbound-total :
      (node : Node V) (cursor : ReplayCursor V)
      → (c : ReplayCursor V) × (drain_replay_inbound (fuel_for cursor) cfg (node, cursor)
          ≡ ok ((inbound (remaining cursor) node).0, c))
        × (remaining c ≡ (inbound (remaining cursor) node).1)
  unfolding Drains
  drain_replay_inbound-total node cursor = drain-at cursor.reader cursor.buffered node
