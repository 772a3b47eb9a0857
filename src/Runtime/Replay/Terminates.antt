-- ===== src/Runtime/Replay/Terminates.antt =====
-- That a replay ends and is silent (crates/runtime/src/main.rs): the fuel of its loops is enough,
-- it hands no envelope to the network, and it leaves no message in an inbox.
use unified_correctness_orie.Base.{
  ℕ, zero, suc, ◌+◌, ◌<◌, ◌≡◌, ◌≢◌, Bool, true, false, Option, none, some, List, [], ◌∷◌, eqb, ok,
  err, ◌>>=◌, ◌>>◌, guard, nat_eq, arith, subst, eqb_iff,
}
use unified_correctness_orie.Base.Dict.{Dict}
use unified_correctness_orie.Base.Text.{Text}
use unified_correctness_orie.Runtime.Event.{Uuid, EventKind, TraceEvent}
use unified_correctness_orie.Runtime.Host.{Host}
use unified_correctness_orie.Runtime.Scheduler.{PendingDelivery}
use unified_correctness_orie.Runtime.Program.{Program, build_actor_system}
use unified_correctness_orie.Runtime.Node.{
  Config, Mode, RunError, Node, process_delivery, pending_inbox_messages,
}
use unified_correctness_orie.Runtime.Node.Silent.{
  Safe, Any, IsSilent, SilentWith, >>=-Safe, guarded-Safe, process_delivery-Safe, start_up-Safe,
}
use unified_correctness_orie.Runtime.Record.{start_up}
use unified_correctness_orie.Runtime.Cursor.{
  ReplayCursor, next, fuel_for, inbound_event, drain_replay_inbound,
}
use unified_correctness_orie.Runtime.Replay.{
  verify_replay_emits, next_replay_delivery, replay_loop, replay_end, replay_main,
}
use unified_correctness_orie.Runtime.Replay.Reading.{lt_suc, left, verify_replay_emits-Safe}
use unified_correctness_orie.Runtime.Replay.Rounds.{
  Found, inject-IsSilent, next_replay_delivery-Safe,
}

-- Nothing was handed to the network, and no message is left in an inbox.
abbrev Finished : {V : Type 0} → Node V → Type 0
Finished s = IsSilent s × (pending_inbox_messages s.sys ≡ 0)

module _ {V : Type 0} (host : Host V) where
  module _ (cfg : Config) (service_to_actor : Dict Text Uuid)
      (replaying : cfg.mode ≡ Mode.replaying) where
    abbrev SilentSome : Option (Node V) → Type 0
    SilentSome none = Unit
    SilentSome (some s) = IsSilent s

    inbound_event-SilentSome :
        (kind : EventKind V) (s : Node V) → IsSilent s → SilentSome (inbound_event cfg kind s)
    unfolding inbound_event
    inbound_event-SilentSome (EventKind.net_recv node from to msg_id payload) s silent =
        inject-IsSilent cfg node to msg_id payload s silent
    inbound_event-SilentSome (EventKind.fault_injected _ _ _ _ _) s silent = silent
    inbound_event-SilentSome (EventKind.fault_policy _ _ _ _ _) s silent = silent
    inbound_event-SilentSome _ s silent = tt

    abbrev Drained : Node V × ReplayCursor V → Type 0
    Drained r = IsSilent r.0

    inbound_next :
        (fuel : ℕ) (s : Node V) (c back : ReplayCursor V) (o : Option (Node V))
        → IsSilent s
        → SilentSome o
        → ((s' : Node V) → IsSilent s' → Safe Drained (drain_replay_inbound fuel cfg (s', c)))
        → Safe Drained
            (elim o [ none ↦ ok (s, back) | some s' ↦ drain_replay_inbound fuel cfg (s', c) ])
    inbound_next fuel s c back none silent h rest = silent
    inbound_next fuel s c back (some s') silent h rest = rest s' h

    drain_replay_inbound-Safe :
        (fuel : ℕ) (s : Node V) (rs : List (TraceEvent V)) (o : Option (TraceEvent V))
        → IsSilent s
        → left (record { reader = rs; buffered = o }) < fuel
        → Safe Drained (drain_replay_inbound fuel cfg (s, record { reader = rs; buffered = o }))
    unfolding drain_replay_inbound
    drain_replay_inbound-Safe zero s rs o silent h = absurd (omega arith)
    drain_replay_inbound-Safe (suc fuel) s rs (some ev) silent h =
        inbound_next fuel s _ _ (inbound_event cfg ev.kind s) silent
          (inbound_event-SilentSome ev.kind s silent)
          (λ s' k. drain_replay_inbound-Safe fuel s' rs none k (omega arith))
    drain_replay_inbound-Safe (suc fuel) s (ev ∷ rs) none silent h =
        inbound_next fuel s _ _ (inbound_event cfg ev.kind s) silent
          (inbound_event-SilentSome ev.kind s silent)
          (λ s' k. drain_replay_inbound-Safe fuel s' rs none k (omega arith))
    drain_replay_inbound-Safe (suc fuel) s [] none silent h = silent

    -- A loop that stopped at the end of the trace has left no message in an inbox.
    abbrev Looped : Bool × Node V × ReplayCursor V → Type 0
    Looped (true, s, c) = Finished s
    Looped (false, s, c) = IsSilent s

    round_end :
        (found : Option PendingDelivery) (program : Program) (rounds step : ℕ) (s : Node V)
        (c : ReplayCursor V)
        → IsSilent s
        → ((s' : Node V) (c' : ReplayCursor V)
            → IsSilent s'
            → Safe Looped
                (replay_loop host cfg service_to_actor program rounds (step + 1) (s', c')))
        → Safe Looped (elim found [
          | none ↦ (do
            guard (eqb (pending_inbox_messages s.sys) 0) RunError.undelivered
            ok (true, s, c))
          | some d ↦ (do
            (s₃, expected) ← process_delivery host cfg program service_to_actor step d s
            cursor₃ ← verify_replay_emits host expected c
            replay_loop host cfg service_to_actor program rounds (step + 1) (s₃, cursor₃))
        ])
    round_end none program rounds step s c silent rest =
        guarded-Safe Looped (eqb (pending_inbox_messages s.sys) 0) RunError.undelivered _ tt
          (λ h. (silent, (eqb_iff (pending_inbox_messages s.sys) 0).0 h))
    round_end (some d) program rounds step s c silent rest =
        >>=-Safe SilentWith Looped (process_delivery host cfg program service_to_actor step d s) _
          (process_delivery-Safe cfg service_to_actor replaying host program step d s silent)
          (λ r h.
            >>=-Safe Any Looped (verify_replay_emits host (r.1) c) _
              (verify_replay_emits-Safe host (r.1) c) (λ c' _. rest (r.0) c' h))

    replay_loop-Safe :
        (program : Program) (rounds step : ℕ) (s : Node V) (c : ReplayCursor V)
        → IsSilent s
        → Safe Looped (replay_loop host cfg service_to_actor program rounds step (s, c))
    unfolding replay_loop
    replay_loop-Safe program zero step s c silent = silent
    replay_loop-Safe program (suc rounds) step s c silent =
        >>=-Safe Drained Looped (drain_replay_inbound (fuel_for c) cfg (s, c)) _
          (drain_replay_inbound-Safe (fuel_for c) s c.reader c.buffered silent (lt_suc (left c)))
          (λ r h.
            >>=-Safe Found Looped
              (next_replay_delivery host cfg service_to_actor (fuel_for (r.1)) r) _
              (next_replay_delivery-Safe host cfg service_to_actor replaying (fuel_for (r.1)) (r.0)
                ((r.1).reader) ((r.1).buffered) h (lt_suc (left (r.1))))
              (λ f k.
                round_end (f.0) program rounds step (f.1) (f.2) k
                  (λ s' c' q. replay_loop-Safe program rounds (step + 1) s' c' q)))

    after_steps :
        (front : Option (TraceEvent V)) (s : Node V)
        → IsSilent s
        → Safe Finished (elim front [
          | some ev ↦ err RunError.stopped_early
          | none ↦ (do guard (eqb (pending_inbox_messages s.sys) 0) RunError.undelivered; ok s)
        ])
    after_steps (some ev) s silent = tt
    after_steps none s silent =
        guarded-Safe Finished (eqb (pending_inbox_messages s.sys) 0) RunError.undelivered _ tt
          (λ h. (silent, (eqb_iff (pending_inbox_messages s.sys) 0).0 h))

    replay_end-Safe :
        (r : Bool × Node V × ReplayCursor V)
        → Looped r
        → Safe Finished (replay_end host cfg service_to_actor r)
    unfolding replay_end
    replay_end-Safe (true, s, c) h = h
    replay_end-Safe (false, s, c) h = after_steps (next c).0 s h

  replay_main-Safe :
      (cfg : Config) (program : Program) (trace : List (TraceEvent V))
      → cfg.mode ≡ Mode.replaying
      → Safe Finished (replay_main host cfg program trace)
  unfolding replay_main
  replay_main-Safe cfg program trace replaying =
      let actors = (build_actor_system host program).1 in
      >>=-Safe SilentWith Finished (start_up host cfg program actors) _
        (start_up-Safe cfg actors host program)
        (λ r h.
          >>=-Safe Any Finished
            (verify_replay_emits host (r.1) (record { reader = trace; buffered = none })) _
            (verify_replay_emits-Safe host (r.1) (record { reader = trace; buffered = none }))
            (λ c _.
              >>=-Safe (Looped cfg actors replaying) Finished
                (replay_loop host cfg actors program cfg.steps 0 (r.0, c)) _
                (replay_loop-Safe cfg actors replaying program cfg.steps 0 (r.0) c h)
                (λ e k. replay_end-Safe cfg actors replaying e k)))

  -- A replay of any trace ends within the fuel of its loops.
  pub replay_main-total :
      (cfg : Config) (program : Program) (trace : List (TraceEvent V))
      → cfg.mode ≡ Mode.replaying
      → replay_main host cfg program trace ≢ err RunError.out_of_fuel
  replay_main-total cfg program trace replaying h =
      subst (Safe Finished) h (replay_main-Safe cfg program trace replaying)

  -- A replay that ends without an error has handed no envelope to the network.
  pub replay_main_silent :
      (cfg : Config) (program : Program) (trace : List (TraceEvent V)) (node : Node V)
      → cfg.mode ≡ Mode.replaying
      → replay_main host cfg program trace ≡ ok node
      → node.wire ≡ []
  replay_main_silent cfg program trace node replaying h =
      (subst (Safe Finished) h (replay_main-Safe cfg program trace replaying)).0

  -- A replay that ends without an error has left no message in an inbox.
  pub replay_main_delivered :
      (cfg : Config) (program : Program) (trace : List (TraceEvent V)) (node : Node V)
      → cfg.mode ≡ Mode.replaying
      → replay_main host cfg program trace ≡ ok node
      → pending_inbox_messages node.sys ≡ 0
  replay_main_delivered cfg program trace node replaying h =
      (subst (Safe Finished) h (replay_main-Safe cfg program trace replaying)).1
