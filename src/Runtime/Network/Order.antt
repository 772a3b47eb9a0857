-- ===== src/Runtime/Network/Order.antt =====
-- The order in which one step's inbound messages are queued and released (drain_network).
use mathlib.Core.List.{append_assoc, append-nil}
use unified_correctness_orie.Base.{
  ℕ, ◌<◌, ◌≡◌, refl, ◌∙◌, true, false, List, [], ◌∷◌, ◌++◌, map, arith, leb, if◌then◌else◌, length,
  wrap_inc, ◌==◌, nat_eq, Bool-cases, inl, inr,
}
use unified_correctness_orie.Runtime.Event.{Uuid, EventKind, WireEnvelope}
use unified_correctness_orie.Runtime.Fault.{FaultConfig, policy_for_step}
use unified_correctness_orie.Runtime.Actor.{ActorSystem}
use unified_correctness_orie.Runtime.Injector.{
  StagedInbound, FaultInjector, is_dropped, sync_policy, flush_remainder, due_prefix, release_due,
}
use unified_correctness_orie.Runtime.Injector.Batches.{
  within, staged, ingest-dropped, ingest-stage, stage-direct, stage-buffered, stage-flushed,
  flush_remainder-direct, flush_remainder-batched, sync_policy-idle,
}
use unified_correctness_orie.Runtime.Network.Released.{
  is_multiple, is_dropped-is_multiple, IsReleased, due_prefix-IsReleased, IsReceived,
  receive_all-IsReceived,
}
use unified_correctness_orie.Runtime.Network.{
  ingest_all, net_recv_event, receive_all, drain_network,
}

-- Chunks of `w` elements, each in reverse; `acc` is the chunk read so far, last element first.
batches {ℓ} : {A : Type ℓ} → ℕ → List A → List A → List A
batches w acc [] = acc
batches w acc (x ∷ xs) =
    let full = (x ∷ acc) ++ batches w [] xs in
    let more = batches w (x ∷ acc) xs in if leb w (length (x ∷ acc)) then full else more

pub queued {ℓ} : {A : Type ℓ} → ℕ → List A → List A
unfolding batches
queued w xs = if leb w 1 then xs else batches w [] xs

chunks_of_three : queued {A = ℕ} 3 (1 ∷ 2 ∷ 3 ∷ 4 ∷ 5 ∷ []) ≡ 3 ∷ 2 ∷ 1 ∷ 5 ∷ 4 ∷ []
unfolding queued
chunks_of_three = refl

four-append {ℓ} :
    {A : Type ℓ} (a b c d : List A) → a ++ (b ++ (c ++ (d ++ []))) ≡ ((a ++ b) ++ c) ++ d
four-append a b c d = simp (append_assoc, append-nil)

tested :
    (cfg : FaultConfig) (step seen : ℕ)
    → is_dropped (policy_for_step cfg step) (wrap_inc seen)
      ≡ is_multiple (policy_for_step cfg step).drop_every (wrap_inc seen)
tested cfg step seen = is_dropped-is_multiple (policy_for_step cfg step) (wrap_inc seen)

module _ {V : Type 0} (cfg : FaultConfig) (step : ℕ) (node : Uuid) where
  -- The messages for this node, less each `drop_every`-th, with `seen` counted before.
  pub survivors : ℕ → List (WireEnvelope V) → List (WireEnvelope V)
  survivors seen [] = []
  survivors seen (env ∷ envs) =
      let mine = env.to_node == node in
      let rest = survivors (if mine then wrap_inc seen else seen) envs in
      if mine
      then (if is_multiple (policy_for_step cfg step).drop_every (wrap_inc seen)
          then rest
          else env ∷ rest)
      else rest

  pub seen_after : ℕ → List (WireEnvelope V) → ℕ
  seen_after seen [] = seen
  seen_after seen (env ∷ envs) =
      seen_after (if env.to_node == node then wrap_inc seen else seen) envs

  abbrev at : ℕ → List (StagedInbound V) → List (StagedInbound V) → FaultInjector V
  at = within cfg step node

  abbrev ingested :
      List (WireEnvelope V) → ℕ → List (StagedInbound V) → List (StagedInbound V) → FaultInjector V
  ingested envs seen acc pending = (ingest_all envs step node (at seen acc pending)).0

  ingest_all-direct :
      (envs : List (WireEnvelope V)) (seen : ℕ) (acc pending : List (StagedInbound V))
      → leb (policy_for_step cfg step).reorder_window 1 ≡ true
      → ingested envs seen acc pending
        ≡ at
            (seen_after seen envs)
            acc
            (pending ++ map (staged cfg step node) (survivors seen envs))
  unfolding ingest_all survivors seen_after
  ingest_all-direct [] seen acc pending h = rw append-nil
  ingest_all-direct (env ∷ envs) seen acc pending h = elim (Bool-cases (env.to_node == node)) [
    | inr other ↦ rw other (ingest_all-direct envs seen acc pending h)
    | inl mine ↦
        elim (Bool-cases (is_multiple (policy_for_step cfg step).drop_every (wrap_inc seen))) [
          | inl drop ↦
              rw
                (
                  mine,
                  drop,
                  ingest-dropped cfg step node env seen acc pending (tested cfg step seen ∙ drop),
                )
                (ingest_all-direct envs (wrap_inc seen) acc pending h)
          | inr keep ↦
              rw
                (
                  mine,
                  keep,
                  ingest-stage cfg step node env seen acc pending (tested cfg step seen ∙ keep),
                  stage-direct cfg step node env (wrap_inc seen) acc pending h,
                )
                (ingest_all-direct envs (wrap_inc seen) acc
                    (pending ++ staged cfg step node env ∷ []) h
                  ∙ rw append_assoc)
        ]
  ]

  ingest_all-batched :
      (envs : List (WireEnvelope V)) (seen : ℕ) (acc pending : List (StagedInbound V))
      → leb (policy_for_step cfg step).reorder_window 1 ≡ false
      → length acc < (policy_for_step cfg step).reorder_window
      → (flush_remainder node (ingested envs seen acc pending)).0
        ≡ at (seen_after seen envs) [] (
            pending
            ++ batches
                (policy_for_step cfg step).reorder_window
                acc
                (map (staged cfg step node) (survivors seen envs)))
  unfolding ingest_all survivors seen_after batches
  ingest_all-batched [] seen acc pending h k =
      flush_remainder-batched cfg step node seen acc pending h (omega arith)
  ingest_all-batched (env ∷ envs) seen acc pending h k = elim (Bool-cases (env.to_node == node)) [
    | inr other ↦ rw other (ingest_all-batched envs seen acc pending h k)
    | inl mine ↦
        elim (Bool-cases (is_multiple (policy_for_step cfg step).drop_every (wrap_inc seen))) [
          | inl drop ↦
              rw
                (
                  mine,
                  drop,
                  ingest-dropped cfg step node env seen acc pending (tested cfg step seen ∙ drop),
                )
                (ingest_all-batched envs (wrap_inc seen) acc pending h k)
          | inr keep ↦
              elim (Bool-cases (
                leb (policy_for_step cfg step).reorder_window
                  (length (staged cfg step node env ∷ acc)))) [
                    | inl full ↦
                        rw
                          (
                            mine,
                            keep,
                            ingest-stage cfg step node env seen acc pending
                                (tested cfg step seen ∙ keep),
                            stage-flushed cfg step node env (wrap_inc seen) acc pending h
                                (ground arith),
                            full,
                          )
                          (ingest_all-batched envs (wrap_inc seen) []
                              (pending ++ (staged cfg step node env ∷ acc)) h (ground arith)
                            ∙ rw append_assoc)
                    | inr more ↦
                        rw
                          (
                            mine,
                            keep,
                            ingest-stage cfg step node env seen acc pending
                                (tested cfg step seen ∙ keep),
                            stage-buffered cfg step node env (wrap_inc seen) acc pending h more,
                            more,
                          )
                          (ingest_all-batched envs (wrap_inc seen) (staged cfg step node env ∷ acc)
                            pending h (ground arith))
                  ]
        ]
  ]

  abbrev pub arrived : ℕ → List (WireEnvelope V) → List (StagedInbound V)
  arrived seen envs =
      queued (policy_for_step cfg step).reorder_window
        (map (staged cfg step node) (survivors seen envs))

  flushed_lem :
      (envs : List (WireEnvelope V)) (seen : ℕ) (pending : List (StagedInbound V))
      → (flush_remainder node (ingested envs seen [] pending)).0
        ≡ at (seen_after seen envs) [] (pending ++ arrived seen envs)
  unfolding queued
  flushed_lem envs seen pending =
      elim (Bool-cases (leb (policy_for_step cfg step).reorder_window 1)) [
        | inl direct ↦
            rw (direct, ingest_all-direct envs seen [] pending direct)
              (flush_remainder-direct cfg step node (seen_after seen envs) [] _ direct)
        | inr batched ↦ rw batched (ingest_all-batched envs seen [] pending batched (ground arith))
      ]

  -- With an empty reorder buffer, one step of drain_network drops each drop_every-th of the
  -- messages addressed to this node, puts the others in the queue in chunks of the window, each
  -- chunk in reverse, delivers and records the longest front of the queue in which all messages
  -- are due, in order, and leaves the buffer empty. Each actor gets the delivered messages for it
  -- behind those in its inbox, and an unknown actor is not added.
  pub drain_network-queue :
      (arrivals : List (WireEnvelope V)) (sys : ActorSystem V) (inj : FaultInjector V)
      → inj.cfg ≡ cfg
      → inj.reorder_buf ≡ []
      → let out = due_prefix step (inj.pending ++ arrived inj.seen_inbound arrivals) in
        let r = drain_network arrivals node step sys inj in
        (r.0.0 ≡ receive_all out.0 sys)
        × (r.0.1 ≡ within cfg step node (seen_after inj.seen_inbound arrivals) [] out.1)
        × ((faults : List (EventKind V)) × (r.1 ≡ faults ++ map net_recv_event out.0))
        × IsReleased step (inj.pending ++ arrived inj.seen_inbound arrivals) out
        × IsReceived out.0 sys r.0.0
  unfolding drain_network release_due
  drain_network-queue arrivals sys inj c b =
      let synced = sync_policy-idle cfg step node inj c b in
      let all = flushed_lem arrivals inj.seen_inbound inj.pending in
      (
        rw (synced, all),
        rw (synced, all),
        (
          ((sync_policy step node inj).1
                ++ (ingest_all arrivals step node (sync_policy step node inj).0).1)
              ++ (flush_remainder node
                  (ingest_all arrivals step node (sync_policy step node inj).0).0).1,
          rw (synced, all) (search four-append),
        ),
        due_prefix-IsReleased step (inj.pending ++ arrived inj.seen_inbound arrivals),
        rw (synced, all)
            (receive_all-IsReceived
              (due_prefix step (inj.pending ++ arrived inj.seen_inbound arrivals)).0 sys),
      )
