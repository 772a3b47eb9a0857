-- ===== src/Runtime/Replay/Reading.antt =====
-- What the replay reads of its cursor (crates/runtime/src/main.rs): reading adds no events, and the
-- comparison with what a step emits does not fail for fuel.
use unified_correctness_orie.Base.{
  ℕ, suc, ◌≤◌, ◌<◌, not, Option, none, some, List, [], ◌∷◌, length, nat_eq, arith,
}
use unified_correctness_orie.Runtime.Event.{EventKind, TraceEvent}
use unified_correctness_orie.Runtime.Host.{Host}
use unified_correctness_orie.Runtime.Node.{RunError}
use unified_correctness_orie.Runtime.Node.Silent.{Safe, Any, >>=-Safe, or_fail-Safe, guard-Safe}
use unified_correctness_orie.Runtime.EventEquality.{event_beq}
use unified_correctness_orie.Runtime.Cursor.{ReplayCursor, next, remaining}
use unified_correctness_orie.Runtime.Replay.{
  is_emitted, expect_event, expect_events, no_more_emits, verify_replay_emits,
}

pub le_refl : (n : ℕ) → n ≤ n
le_refl n = omega arith

pub lt_suc : (n : ℕ) → n < suc n
lt_suc n = omega arith

module _ {V : Type 0} where
  abbrev pub left : ReplayCursor V → ℕ
  left cursor = length (remaining cursor)

  abbrev pub Within : ReplayCursor V → ReplayCursor V → Type 0
  Within cursor c = left c ≤ left cursor

  -- Reading does not add events.
  pub next-left : (cursor : ReplayCursor V) → left ((next cursor).1) ≤ left cursor
  unfolding next
  next-left cursor = by_fields cursor.reader cursor.buffered
    where
      by_fields :
          (rs : List (TraceEvent V)) (o : Option (TraceEvent V))
          → let c : ReplayCursor V = record { reader = rs; buffered = o } in
            left ((next c).1) ≤ left c
      by_fields rs (some ev) = omega arith
      by_fields [] none = omega arith
      by_fields (ev ∷ rs) none = omega arith

module _ {V : Type 0} (host : Host V) where
  pub expect_event-Safe :
      (expected : EventKind V) (cursor : ReplayCursor V)
      → Safe (Within cursor) (expect_event host expected cursor)
  unfolding expect_event
  expect_event-Safe expected cursor =
      or_fail-Safe (Within cursor) (next cursor).0 RunError.trace_ended _ tt (λ actual.
        guard-Safe (Within cursor) (event_beq host actual.kind expected) RunError.emission_mismatch
          _ tt (next-left cursor))

  expect_events-Safe :
      (expected : List (EventKind V)) (cursor : ReplayCursor V)
      → Safe (Any {A = ReplayCursor V}) (expect_events host expected cursor)
  unfolding expect_events
  expect_events-Safe [] cursor = tt
  expect_events-Safe (kind ∷ expected) cursor =
      >>=-Safe (Within cursor) Any (expect_event host kind cursor) _ (expect_event-Safe kind cursor)
        (λ c _. expect_events-Safe expected c)

  no_more_emits-Safe :
      (cursor : ReplayCursor V) → Safe (Any {A = ReplayCursor V}) (no_more_emits host cursor)
  unfolding no_more_emits
  no_more_emits-Safe cursor = by_fields cursor.reader cursor.buffered
    where
      by_fields :
          (rs : List (TraceEvent V)) (o : Option (TraceEvent V))
          → Safe
              (Any {A = ReplayCursor V})
              (no_more_emits host (record { reader = rs; buffered = o }))
      by_fields rs (some ev) =
          guard-Safe Any (not (is_emitted ev.kind)) RunError.extra_event _ tt tt
      by_fields [] none = tt
      by_fields (ev ∷ rs) none =
          guard-Safe Any (not (is_emitted ev.kind)) RunError.extra_event _ tt tt

  pub verify_replay_emits-Safe :
      (expected : List (EventKind V)) (cursor : ReplayCursor V)
      → Safe (Any {A = ReplayCursor V}) (verify_replay_emits host expected cursor)
  unfolding verify_replay_emits
  verify_replay_emits-Safe expected cursor =
      >>=-Safe Any Any (expect_events host expected cursor) _ (expect_events-Safe expected cursor)
        (λ c _. no_more_emits-Safe c)
