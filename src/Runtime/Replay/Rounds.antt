-- ===== src/Runtime/Replay/Rounds.antt =====
-- The rounds of next_replay_delivery (crates/runtime/src/main.rs): timers and messages up to the next
-- delivery.
use unified_correctness_orie.Base.{
  ℕ, zero, suc, ◌≤◌, ◌<◌, ◌≡◌, Option, none, some, List, [], ◌∷◌, length, ok, ◌==◌, nat_eq, arith,
  Bool-cases, inl, inr,
}
use unified_correctness_orie.Base.Dict.{Dict}
use unified_correctness_orie.Base.Text.{Text}
use unified_correctness_orie.Runtime.Event.{Uuid, EventKind, TraceEvent}
use unified_correctness_orie.Runtime.Host.{Host}
use unified_correctness_orie.Runtime.Scheduler.{PendingDelivery}
use unified_correctness_orie.Runtime.Node.{
  Config, Mode, RunError, Node, PendingTimer, dispatch_outgoing,
}
use unified_correctness_orie.Runtime.Node.Silent.{
  Safe, IsSilent, SilentWith, >>=-Safe, or_fail-Safe, dispatch_outgoing-Safe,
}
use unified_correctness_orie.Runtime.Cursor.{ReplayCursor, inject_replay_netrecv, take_timer}
use unified_correctness_orie.Runtime.Replay.{
  Seen, delivery, going_on, expect_event, replay_fire_timer, replay_event, next_replay_delivery,
}
use unified_correctness_orie.Runtime.Replay.Reading.{le_refl, left, Within, expect_event-Safe}

module _ {V : Type 0} where
  -- A silent node, and no more events than before.
  abbrev pub Progress : ReplayCursor V → Node V × ReplayCursor V → Type 0
  Progress cursor r = IsSilent r.0 × (left r.1 ≤ left cursor)

  abbrev pub SeenProgress : ReplayCursor V → Seen V → Type 0
  SeenProgress cursor (delivery d) = Unit
  SeenProgress cursor (going_on s c) = Progress cursor (s, c)

  pub inject-IsSilent :
      (cfg : Config) (node to msg_id : Uuid) (payload : V) (s : Node V)
      → IsSilent s
      → IsSilent (inject_replay_netrecv cfg node to msg_id payload s)
  unfolding inject_replay_netrecv
  inject-IsSilent cfg node to msg_id payload s silent = elim (Bool-cases (node == cfg.node_id)) [
    | inl e ↦ rw e silent
    | inr e ↦ rw e silent
  ]

  abbrev pub Found : Option PendingDelivery × Node V × ReplayCursor V → Type 0
  Found r = IsSilent r.1

module _ {V : Type 0} (host : Host V) where
  module _ (cfg : Config) (service_to_actor : Dict Text Uuid)
      (replaying : cfg.mode ≡ Mode.replaying) where
    replay_fire_timer-Safe :
        (node from timer_id : Uuid) (s : Node V) (cursor : ReplayCursor V)
        → IsSilent s
        → Safe
            (Progress cursor)
            (replay_fire_timer host cfg service_to_actor node from timer_id (s, cursor))
    unfolding replay_fire_timer
    replay_fire_timer-Safe node from timer_id s cursor silent =
        let P = Progress cursor in
        let fire =
          or_fail-Safe P (take_timer from timer_id s.pending_timers) RunError.unknown_timer _ tt
            (λ taken.
              let timer : PendingTimer V = taken.0 in
              let s₁ = record s { pending_timers = taken.1 } in
              >>=-Safe SilentWith P
                (dispatch_outgoing cfg service_to_actor timer.from_actor timer.target timer.payload
                  Mode.replaying s₁)
                _
                (dispatch_outgoing-Safe cfg service_to_actor timer.from_actor timer.target
                  timer.payload s₁ silent)
                (λ r h.
                  >>=-Safe (Within cursor) P (expect_event host (r.1) cursor) _
                    (expect_event-Safe host (r.1) cursor) (λ c k. (h, k)))) in
        elim (Bool-cases (node == cfg.node_id)) [
          | inl same ↦ rw (same, replaying) fire
          | inr other ↦ rw other (silent, le_refl (left cursor))
        ]

    replay_event-Safe :
        (kind : EventKind V) (s : Node V) (cursor : ReplayCursor V)
        → IsSilent s
        → Safe (SeenProgress cursor) (replay_event host cfg service_to_actor kind (s, cursor))
    unfolding replay_event
    replay_event-Safe (EventKind.net_recv node from to msg_id payload) s cursor silent =
        (inject-IsSilent cfg node to msg_id payload s silent, le_refl (left cursor))
    replay_event-Safe (EventKind.deliver node to msg_id) s cursor silent =
        elim (Bool-cases (node == cfg.node_id)) [
          | inl same ↦ rw same tt
          | inr other ↦ rw other (silent, le_refl (left cursor))
        ]
    replay_event-Safe (EventKind.fault_injected _ _ _ _ _) s cursor silent =
        (silent, le_refl (left cursor))
    replay_event-Safe (EventKind.fault_policy _ _ _ _ _) s cursor silent =
        (silent, le_refl (left cursor))
    replay_event-Safe (EventKind.timer_fired node from timer_id) s cursor silent =
        >>=-Safe (Progress cursor) (SeenProgress cursor)
          (replay_fire_timer host cfg service_to_actor node from timer_id (s, cursor)) _
          (replay_fire_timer-Safe node from timer_id s cursor silent) (λ r h. h)
    replay_event-Safe _ s cursor silent = tt

    seen_next :
        (fuel : ℕ) (s : Node V) (c : ReplayCursor V) (seen : Seen V)
        → IsSilent s
        → SeenProgress c seen
        → ((s' : Node V) (c' : ReplayCursor V)
            → IsSilent s'
            → left c' ≤ left c
            → Safe Found (next_replay_delivery host cfg service_to_actor fuel (s', c')))
        → Safe Found (elim seen [
          | delivery d ↦ ok (some d, s, c)
          | going_on s' c' ↦ next_replay_delivery host cfg service_to_actor fuel (s', c')
        ])
    seen_next fuel s c (delivery d) silent h rest = silent
    seen_next fuel s c (going_on s' c') silent h rest = rest s' c' h.0 h.1

    after_event :
        (fuel : ℕ) (s : Node V) (ev : TraceEvent V) (rs : List (TraceEvent V))
        → IsSilent s
        → ((s' : Node V) (c : ReplayCursor V)
            → IsSilent s'
            → left c ≤ length rs
            → Safe Found (next_replay_delivery host cfg service_to_actor fuel (s', c)))
        → Safe Found (
            next_replay_delivery host cfg service_to_actor
              (suc fuel)
              (s, record { reader = rs; buffered = some ev }))
    unfolding next_replay_delivery
    after_event fuel s ev rs silent rest =
        let c : ReplayCursor V = record { reader = rs; buffered = none } in
        >>=-Safe (SeenProgress c) Found (replay_event host cfg service_to_actor ev.kind (s, c)) _
          (replay_event-Safe ev.kind s c silent) (λ seen h. seen_next fuel s c seen silent h rest)

    pub next_replay_delivery-Safe :
        (fuel : ℕ) (s : Node V) (rs : List (TraceEvent V)) (o : Option (TraceEvent V))
        → IsSilent s
        → left (record { reader = rs; buffered = o }) < fuel
        → Safe Found (
            next_replay_delivery host cfg service_to_actor fuel
              (s, record { reader = rs; buffered = o }))
    unfolding next_replay_delivery
    next_replay_delivery-Safe zero s rs o silent h = absurd (omega arith)
    next_replay_delivery-Safe (suc fuel) s rs (some ev) silent h =
        after_event fuel s ev rs silent
          (λ s' c k le. next_replay_delivery-Safe fuel s' c.reader c.buffered k (omega arith))
    next_replay_delivery-Safe (suc fuel) s (ev ∷ rs) none silent h =
        after_event fuel s ev rs silent
          (λ s' c k le. next_replay_delivery-Safe fuel s' c.reader c.buffered k (omega arith))
    next_replay_delivery-Safe (suc fuel) s [] none silent h = silent
