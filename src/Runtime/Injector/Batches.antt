-- ===== src/Runtime/Injector/Batches.antt =====
-- What the injector makes of the messages of one step: which it drops, and in which order the
-- others are queued.
use mathlib.Core.List.{reverse-cons, reverse-reverse, append-nil}
use unified_correctness_orie.Base.{
  ℕ, zero, suc, ◌<◌, ◌≤◌, ◌≡◌, refl, ◌∙◌, true, false, List, [], ◌∷◌, ◌++◌, reverse, arith, ltb,
  leb, eqb, if◌then◌else◌, length, min, sat_add, wrap_inc, length-reverse, take-length, drop-length,
  Bool-cases, inl, inr, lt→ltb, le→leb,
}
use unified_correctness_orie.Runtime.Event.{Uuid, WireEnvelope}
use unified_correctness_orie.Runtime.Fault.{FaultPolicy, FaultConfig, policy_for_step}
use unified_correctness_orie.Runtime.Injector.{
  StagedInbound, FaultInjector, policy_beq, flush_chunk, flush_remainder,
  flush_remainder_with_window, sync_policy, flush_full, is_dropped, stage, ingest,
}

policy_beq_refl : (p : FaultPolicy) → policy_beq p p ≡ true
policy_beq_refl p = ground arith

policy_beq_sound : (p q : FaultPolicy) → policy_beq p q ≡ true → p ≡ q
policy_beq_sound p q h = ground arith

moved_reverse {ℓ} :
    {A : Type ℓ} (xs : List A) → (if ltb 1 (length xs) then reverse xs else xs) ≡ reverse xs
moved_reverse [] = refl
moved_reverse (x ∷ []) = refl
moved_reverse (x ∷ y ∷ xs) = rw (lt→ltb 1 (length (x ∷ y ∷ xs)) (omega arith))

module _ {V : Type 0} where
  flush_buffer :
      (node : Uuid) (w : ℕ) (b : List (StagedInbound V)) (inj : FaultInjector V)
      → length b ≤ w
      → (flush_chunk node w (record inj { reorder_buf = b })).0
        ≡ record inj { reorder_buf = []; pending = inj.pending ++ reverse b }
  unfolding flush_chunk
  flush_buffer node w [] inj h = simp append-nil
  flush_buffer node w (x ∷ b) inj h =
      rw
        (
          take-length (min w (length (x ∷ b))) (x ∷ b) (omega arith),
          drop-length (min w (length (x ∷ b))) (x ∷ b) (omega arith),
          moved_reverse (x ∷ b),
        )
        (ground arith)

module _ {V : Type 0} (cfg : FaultConfig) (step : ℕ) (node : Uuid) where
  -- The injector within a step, its policy in force: `acc` is the buffer, last message first.
  abbrev pub within : ℕ → List (StagedInbound V) → List (StagedInbound V) → FaultInjector V
  within seen acc pending = record {
    cfg = cfg;
    seen_inbound = seen;
    active_policy = policy_for_step cfg step;
    policy_initialized = true;
    reorder_buf = reverse acc;
    pending = pending;
  }

  abbrev pub staged : WireEnvelope V → StagedInbound V
  staged env = record {
    env = env;
    release_step = sat_add step (policy_for_step cfg step).delay_steps;
  }

  pub sync_policy-within :
      (seen : ℕ) (acc pending : List (StagedInbound V))
      → sync_policy step node (within seen acc pending) ≡ (within seen acc pending, [])
  unfolding sync_policy
  sync_policy-within seen acc pending = rw (policy_beq_refl (policy_for_step cfg step))

  pub flush_chunk-within :
      (seen w : ℕ) (acc pending : List (StagedInbound V))
      → length acc ≤ w
      → (flush_chunk node w (within seen acc pending)).0 ≡ within seen [] (pending ++ acc)
  flush_chunk-within seen w acc pending h =
      flush_buffer node w (reverse acc) (within seen acc pending)
        (omega (arith, length-reverse acc))
      ∙ rw (reverse-reverse acc)

  pub ingest-dropped :
      (env : WireEnvelope V) (seen : ℕ) (acc pending : List (StagedInbound V))
      → is_dropped (policy_for_step cfg step) (wrap_inc seen) ≡ true
      → (ingest env step node (within seen acc pending)).0 ≡ within (wrap_inc seen) acc pending
  unfolding ingest
  ingest-dropped env seen acc pending h = rw (sync_policy-within seen acc pending, h)

  flush_full-short :
      (fuel w : ℕ) (inj : FaultInjector V)
      → leb w (length inj.reorder_buf) ≡ false
      → flush_full fuel node w inj ≡ (inj, [])
  unfolding flush_full
  flush_full-short zero w inj h = refl
  flush_full-short (suc fuel) w inj h = rw h

  flush_full-once :
      (fuel w seen : ℕ) (acc pending : List (StagedInbound V))
      → 1 < w
      → length acc ≡ w
      → (flush_full (suc fuel) node w (within seen acc pending)).0 ≡ within seen [] (pending ++ acc)
  unfolding flush_full
  flush_full-once fuel w seen acc pending big full =
      let open? : leb w (length (reverse acc)) ≡ true =
        le→leb _ _ (omega (arith, length-reverse acc)) in
      let after = flush_chunk-within seen w acc pending (omega arith) in
      rw (open?, after, flush_full-short fuel w (within seen [] (pending ++ acc)) (ground arith))

  module _ (env : WireEnvelope V) (seen : ℕ) (acc pending : List (StagedInbound V)) where
    pub stage-direct :
        leb (policy_for_step cfg step).reorder_window 1 ≡ true
        → (stage env step node (within seen acc pending)).0
          ≡ within seen acc (pending ++ staged env ∷ [])
    unfolding stage
    stage-direct h = rw h

    pub stage-buffered :
        leb (policy_for_step cfg step).reorder_window 1 ≡ false
        → leb (policy_for_step cfg step).reorder_window (length (staged env ∷ acc)) ≡ false
        → (stage env step node (within seen acc pending)).0 ≡ within seen (staged env ∷ acc) pending
    unfolding stage
    stage-buffered h k = rw (
      h,
      ← reverse-cons (staged env) acc,
      flush_full-short (length (reverse (staged env ∷ acc)))
          (policy_for_step cfg step).reorder_window (within seen (staged env ∷ acc) pending)
          (rw (length-reverse (staged env ∷ acc)) k),
    )

    pub stage-flushed :
        leb (policy_for_step cfg step).reorder_window 1 ≡ false
        → length (staged env ∷ acc) ≡ (policy_for_step cfg step).reorder_window
        → (stage env step node (within seen acc pending)).0
          ≡ within seen [] (pending ++ (staged env ∷ acc))
    unfolding stage
    stage-flushed h k = rw (
      h,
      ← reverse-cons (staged env) acc,
      length-reverse (staged env ∷ acc),
      flush_full-once (length acc) (policy_for_step cfg step).reorder_window seen (staged env ∷ acc)
          pending (ground arith) k,
    )

  pub ingest-stage :
      (env : WireEnvelope V) (seen : ℕ) (acc pending : List (StagedInbound V))
      → is_dropped (policy_for_step cfg step) (wrap_inc seen) ≡ false
      → (ingest env step node (within seen acc pending)).0
        ≡ (stage env step node (within (wrap_inc seen) acc pending)).0
  unfolding ingest
  ingest-stage env seen acc pending kept = rw (sync_policy-within seen acc pending, kept)

  pub flush_remainder-direct :
      (seen : ℕ) (acc pending : List (StagedInbound V))
      → leb (policy_for_step cfg step).reorder_window 1 ≡ true
      → (flush_remainder node (within seen acc pending)).0 ≡ within seen acc pending
  unfolding flush_remainder
  flush_remainder-direct seen acc pending h = rw h

  pub flush_remainder-batched :
      (seen : ℕ) (acc pending : List (StagedInbound V))
      → leb (policy_for_step cfg step).reorder_window 1 ≡ false
      → length acc ≤ (policy_for_step cfg step).reorder_window
      → (flush_remainder node (within seen acc pending)).0 ≡ within seen [] (pending ++ acc)
  unfolding flush_remainder
  flush_remainder-batched seen [] pending h k = rw (h, append-nil)
  flush_remainder-batched seen (x ∷ acc) pending h k =
      let nonempty : eqb (length (reverse (x ∷ acc))) 0 ≡ false =
        ground (arith, length-reverse (x ∷ acc)) in
      rw (h, nonempty)
        (flush_chunk-within seen (policy_for_step cfg step).reorder_window (x ∷ acc) pending k)

  -- The policy of the step comes into force at its first synchronisation.
  pub sync_policy-idle :
      (inj : FaultInjector V)
      → inj.cfg ≡ cfg
      → inj.reorder_buf ≡ []
      → (sync_policy step node inj).0 ≡ within inj.seen_inbound [] inj.pending
  unfolding sync_policy flush_remainder_with_window flush_chunk
  sync_policy-idle inj c b = elim (Bool-cases inj.policy_initialized) [
    | inl i ↦ elim (Bool-cases (policy_beq (policy_for_step inj.cfg step) inj.active_policy)) [
      | inl same ↦ ground (
        arith,
        same,
        i,
        c,
        b,
        policy_beq_sound (policy_for_step inj.cfg step) inj.active_policy same,
      )
      | inr new ↦ ground (arith, new, i, c, b)
    ]
    | inr i ↦ ground (arith, i, c, b)
  ]
