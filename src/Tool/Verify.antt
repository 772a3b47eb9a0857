-- ===== src/Tool/Verify.antt =====
-- verify_trace of crates/tool/src/main.rs: the invariants of one trace.
pub mod Effects
pub mod Grammar
pub mod Quiet
pub mod Sound
use unified_correctness_orie.Base.{
  ℕ, ◌+◌, ◌&&◌, not, Option, none, some, List, [], ◌∷◌, ◌++◌, length, ◌==◌, nat_eq, triple_eq,
  pair_eq,
}
use unified_correctness_orie.Base.Dict
use unified_correctness_orie.Base.Dict.{Dict}
use unified_correctness_orie.Base.Writer.{Writer, ◌>>=◌, ◌>>◌, pure, tell}
use unified_correctness_orie.Runtime.Event.{Uuid, EventKind, FaultAction, TraceEvent}
use unified_correctness_orie.Tool.Problems.{Problem, recv_after_drop, timer_at_end, deliver_at_end}
use unified_correctness_orie.Tool.Payload.{Reader, require}
use unified_correctness_orie.Tool.Checks.{
  Verifier, VerifyReport, initial_verifier, check_seq, check_seed, check_effect_gap,
  check_timer_gap, check_known, push_produced, verify_spawn, verify_source, verify_effects,
  verify_pending_effect,
}

module _ {V : Type 0} where
  -- The `match` on the kind of the event.
  unfoldable pub verify_kind : Reader V → ℕ → EventKind V → Verifier V → Writer Problem (Verifier V)
  unfolding verify_spawn check_known push_produced verify_source verify_effects
      verify_pending_effect
  verify_kind reader seq (EventKind.spawn node actor service) s = verify_spawn seq actor service s
  verify_kind reader seq (EventKind.send from to msg_id payload) s = do
    tell (check_known seq from s.spawned)
    tell (check_known seq to s.spawned)
    pure (record s { produced = push_produced (to, msg_id) payload s.produced })
  verify_kind reader seq (EventKind.net_recv node from_node to msg_id payload) s = do
    tell (check_known seq to s.spawned)
    tell (
        require (not (Dict.contains s.dropped (from_node, to, msg_id)))
          (recv_after_drop seq from_node to msg_id))
    pure (record s { produced = push_produced (to, msg_id) payload s.produced })
  verify_kind reader seq (EventKind.deliver node to msg_id) s = do
    tell (check_known seq to s.spawned)
    s' ← verify_source reader seq to msg_id (Dict.get (to, msg_id) s.produced) s
    pure (record s' { pending_effect_observed = some (seq, node, to, msg_id) })
  verify_kind reader seq (EventKind.net_send node to_node from msg_id payload) s = do
    tell (check_known seq from s.spawned)
    pure s
  verify_kind reader seq (EventKind.log node from service text) s = do
    tell (check_known seq from s.spawned)
    pure s
  verify_kind reader seq
        (EventKind.effect_observed node actor service msg_type msg_id declared observed) s =
      do
        tell (check_known seq actor s.spawned)
        tell (verify_pending_effect seq node actor msg_id s.pending_effect_observed)
        tell (verify_effects seq declared observed)
        pure (record s { pending_effect_observed = none })
  verify_kind reader seq (EventKind.fault_injected node from_node to msg_id FaultAction.drop) s =
      pure (record s { dropped = Dict.include (from_node, to, msg_id) s.dropped })
  verify_kind reader seq (EventKind.fault_injected node from_node to msg_id _) s = pure s
  verify_kind reader seq (EventKind.fault_policy _ _ _ _ _) s = pure s
  verify_kind reader seq (EventKind.timer_fired node from timer_id) s =
      pure (record s { pending_timer_emit = some (seq, from, timer_id) })

  unfoldable pub verify_event : Reader V → TraceEvent V → Verifier V → Writer Problem (Verifier V)
  verify_event reader ev s = do
    s₁ ← check_seq ev s
    s₂ ← check_seed ev s₁
    s₃ ← check_effect_gap ev s₂
    s₄ ← check_timer_gap ev s₃
    verify_kind reader ev.seq ev.kind s₄

  unfoldable pub verify_events :
      Reader V → List (TraceEvent V) → Verifier V → Writer Problem (Verifier V)
  verify_events reader [] s = pure s
  verify_events reader (ev ∷ evs) s = do s' ← verify_event reader ev s; verify_events reader evs s'

  -- The tests behind the loop.
  unfoldable pub verify_end : Verifier V → List Problem
  verify_end s =
      elim s.pending_timer_emit [
        | none ↦ []
        | some (timer_seq, _, timer_id) ↦ timer_at_end timer_seq timer_id ∷ []
      ]
      ++ elim s.pending_effect_observed [
        | none ↦ []
        | some (deliver_seq, _, _, _) ↦ deliver_at_end deliver_seq ∷ []
      ]

  unfoldable pub pending_count : Dict (Uuid × Uuid) (List V) → ℕ
  pending_count [] = 0
  pending_count ((key, queue) ∷ produced) = length queue + pending_count produced

  unfoldable pub verify_trace : Reader V → List (TraceEvent V) → VerifyReport
  verify_trace reader events =
      let (s, problems) = verify_events reader events initial_verifier in
      record { problems = problems ++ verify_end s; pending_messages = pending_count s.produced }
