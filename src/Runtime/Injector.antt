-- ===== src/Runtime/Injector.antt =====
-- The fault injector on inbound wire messages (crates/runtime/src/main.rs). An operation that the
-- source hands the trace writer returns the events that it records, in order.
pub mod Batches
use unified_correctness_orie.Base.{
  ℕ, zero, suc, ◌+◌, ◌-◌, ◌%◌, Bool, true, false, ◌&&◌, Option, none, some, List, [], ◌∷◌, ◌++◌,
  map, reverse, ltb, leb, eqb, if◌then◌else◌, length, take, drop, min, sat_add, wrap_inc,
}
use unified_correctness_orie.Base.Writer.{Writer, ◌>>=◌, ◌>>◌, pure, tell}
use unified_correctness_orie.Runtime.Event.{Uuid, EventKind, FaultAction, WireEnvelope}
use unified_correctness_orie.Runtime.Fault.{FaultPolicy, FaultConfig, policy_for_step}

pub record StagedInbound (V : Type 0) : Type 0 where
  pub env : WireEnvelope V
  pub release_step : ℕ

-- The head of `pending` is the front of the deque.
pub record FaultInjector (V : Type 0) : Type 0 where
  pub cfg : FaultConfig
  pub seen_inbound : ℕ
  pub active_policy : FaultPolicy
  pub policy_initialized : Bool
  pub reorder_buf : List (StagedInbound V)
  pub pending : List (StagedInbound V)

abbrev option_beq : Option ℕ → Option ℕ → Bool
option_beq none none = true
option_beq (some a) (some b) = eqb a b
option_beq _ _ = false

abbrev pub policy_beq : FaultPolicy → FaultPolicy → Bool
policy_beq a b =
    option_beq a.drop_every b.drop_every
    && (eqb a.delay_steps b.delay_steps && eqb a.reorder_window b.reorder_window)

-- The tests of `if let Some(drop_every)`.
unfoldable pub is_dropped : FaultPolicy → ℕ → Bool
is_dropped policy seen = elim policy.drop_every [
  | none ↦ false
  | some n ↦ ltb 0 n && eqb (seen % n) 0
]

module _ {V : Type 0} where
  unfoldable pub new : FaultConfig → FaultInjector V
  new cfg = record {
    cfg = cfg;
    seen_inbound = 0;
    active_policy = policy_for_step cfg 0;
    policy_initialized = false;
    reorder_buf = [];
    pending = [];
  }

  unfoldable pub record_policy_event : FaultInjector V → ℕ → Uuid → EventKind V
  record_policy_event inj step node_id =
      let policy = inj.active_policy in
      EventKind.fault_policy node_id step policy.drop_every policy.delay_steps policy.reorder_window

  unfoldable pub reorder_event : Uuid → ℕ → StagedInbound V → EventKind V
  reorder_event node_id window staged =
      let env = staged.env in
      EventKind.fault_injected node_id env.from_node env.to_actor env.msg_id
        (FaultAction.reorder window)

  unfoldable pub flush_chunk : Uuid → ℕ → FaultInjector V → Writer (EventKind V) (FaultInjector V)
  unfolding reorder_event
  flush_chunk node_id reorder_window inj =
      let count = min reorder_window (length inj.reorder_buf) in
      let chunk = take count inj.reorder_buf in
      let moved = if ltb 1 (length chunk) then reverse chunk else chunk in
      let events =
        if ltb 1 (length chunk) then map (reorder_event node_id reorder_window) chunk else [] in
      if eqb (length inj.reorder_buf) 0 then pure inj else (do
        tell events
        pure (record inj {
          reorder_buf = drop count inj.reorder_buf;
          pending = inj.pending ++ moved;
        }))

  unfoldable pub flush_remainder_with_window :
      Uuid → ℕ → FaultInjector V → Writer (EventKind V) (FaultInjector V)
  flush_remainder_with_window node_id reorder_window inj =
      if leb reorder_window 1
      then pure inj
      else if eqb (length inj.reorder_buf) 0
      then pure inj
      else flush_chunk node_id reorder_window inj

  unfoldable pub flush_remainder : Uuid → FaultInjector V → Writer (EventKind V) (FaultInjector V)
  unfolding flush_remainder_with_window
  flush_remainder node_id inj =
      flush_remainder_with_window node_id inj.active_policy.reorder_window inj

  unfoldable pub sync_policy : ℕ → Uuid → FaultInjector V → Writer (EventKind V) (FaultInjector V)
  unfolding record_policy_event
  sync_policy current_step node_id inj =
      let next_policy = policy_for_step inj.cfg current_step in
      if inj.policy_initialized
      then (if policy_beq next_policy inj.active_policy then pure inj else (do
        flushed ← flush_remainder_with_window node_id inj.active_policy.reorder_window inj
        let next = record flushed { active_policy = next_policy }
        tell (record_policy_event next current_step node_id ∷ [])
        pure next))
      else (do
        let next = record inj { active_policy = next_policy }
        tell (record_policy_event next current_step node_id ∷ [])
        pure (record next { policy_initialized = true }))

  -- `while reorder_buf.len() >= window`: a round takes `window` > 1 messages out of the buffer.
  unfoldable pub flush_full :
      ℕ → Uuid → ℕ → FaultInjector V → Writer (EventKind V) (FaultInjector V)
  flush_full zero node_id window inj = pure inj
  flush_full (suc fuel) node_id window inj =
      let more = flush_chunk node_id window inj >>= flush_full fuel node_id window in
      if leb window (length inj.reorder_buf) then more else pure inj

  unfoldable pub fault_event : Uuid → WireEnvelope V → FaultAction → EventKind V
  fault_event node_id env action =
      EventKind.fault_injected node_id env.from_node env.to_actor env.msg_id action

  -- `ingest` past the drop test.
  unfoldable pub stage :
      WireEnvelope V → ℕ → Uuid → FaultInjector V → Writer (EventKind V) (FaultInjector V)
  unfolding fault_event flush_full
  stage env current_step node_id inj =
      let policy = inj.active_policy in
      let staged : StagedInbound V = record {
        env = env;
        release_step = sat_add current_step policy.delay_steps;
      } in
      let buffered = record inj { reorder_buf = inj.reorder_buf ++ staged ∷ [] } in
      do
        tell (
            if ltb 0 policy.delay_steps
            then fault_event node_id env (FaultAction.delay policy.delay_steps) ∷ []
            else [])
        (if leb policy.reorder_window 1
            then pure (record inj { pending = inj.pending ++ staged ∷ [] })
            else flush_full (length buffered.reorder_buf) node_id policy.reorder_window buffered)

  unfoldable pub ingest :
      WireEnvelope V → ℕ → Uuid → FaultInjector V → Writer (EventKind V) (FaultInjector V)
  unfolding sync_policy is_dropped fault_event stage
  ingest env current_step node_id inj = do
    synced ← sync_policy current_step node_id inj
    let counted = record synced { seen_inbound = wrap_inc synced.seen_inbound }
    (if is_dropped counted.active_policy counted.seen_inbound
        then (do tell (fault_event node_id env FaultAction.drop ∷ []); pure counted)
        else stage env current_step node_id counted)

  -- The messages that are due at the front, and what is left.
  unfoldable pub due_prefix :
      ℕ → List (StagedInbound V) → List (WireEnvelope V) × List (StagedInbound V)
  due_prefix current_step [] = ([], [])
  due_prefix current_step (front ∷ rest) =
      let later = due_prefix current_step rest in
      if ltb current_step front.release_step
      then ([], front ∷ rest)
      else (front.env ∷ later.0, later.1)

  unfoldable pub release_due : ℕ → FaultInjector V → List (WireEnvelope V) × FaultInjector V
  unfolding due_prefix
  release_due current_step inj =
      let r = due_prefix current_step inj.pending in (r.0, record inj { pending = r.1 })
