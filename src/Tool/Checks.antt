-- ===== src/Tool/Checks.antt =====
-- The variables of verify_trace (crates/tool/src/main.rs) and its checks of one event.
use unified_correctness_orie.Base.{
  ℕ, Bool, true, false, ◌&&◌, ◌||◌, not, Option, none, some, List, [], ◌∷◌, ◌++◌, eqb, ltb,
  if◌then◌else◌, length, sat_add, ◌==◌, nat_eq, list_eq, pair_eq, triple_eq,
}
use unified_correctness_orie.Base.Dict
use unified_correctness_orie.Base.Dict.{Dict}
use unified_correctness_orie.Base.Text.{Text}
use unified_correctness_orie.Base.Writer.{Writer, ◌>>=◌, ◌>>◌, pure, tell}
use unified_correctness_orie.Runtime.Event.{Uuid, EventKind, EffectKind, TraceEvent}
use unified_correctness_orie.Runtime.EventEquality.{effect_rank, kind_eq}
use unified_correctness_orie.Tool.Problems.{
  Problem, seq_mismatch, seed_mismatch, deliver_not_followed, timer_wrong_actor, timer_not_followed,
  duplicate_spawn, conflicting_spawn, unknown_actor, deliver_without_source, effect_mismatch,
  effect_without_deliver, duplicate_declared, duplicate_observed, undeclared_effects,
}
use unified_correctness_orie.Tool.Payload.{Reader, Lineage, require, verify_payload_lineage}

-- The variables of the loop, but the problems.
pub record Verifier (V : Type 0) : Type 0 where
  pub seed : Option ℕ
  pub expected_seq : ℕ
  pub spawned : Dict Uuid Text
  pub produced : Dict (Uuid × Uuid) (List V)
  pub delivered_lineage : Lineage
  pub dropped : List (Uuid × Uuid × Uuid)
  -- sequence number, sender and timer of a `TimerFired` whose message is due
  pub pending_timer_emit : Option (ℕ × Uuid × Uuid)
  -- sequence number, node, actor and message of a `Deliver` whose `EffectObserved` is due
  pub pending_effect_observed : Option (ℕ × Uuid × Uuid × Uuid)

pub record VerifyReport : Type 0 where
  pub problems : List Problem
  pub pending_messages : ℕ

unfoldable pub set_insert : EffectKind → List EffectKind → List EffectKind
set_insert e [] = e ∷ []
set_insert e (f ∷ fs) =
    let rest = set_insert e fs in
    if ltb (effect_rank e) (effect_rank f)
    then e ∷ (f ∷ fs)
    else if eqb (effect_rank e) (effect_rank f)
    then f ∷ fs
    else f ∷ rest

-- The elements of the sorted set that is collected from a list.
unfoldable pub to_set : List EffectKind → List EffectKind
unfolding set_insert
to_set [] = []
to_set (e ∷ es) = set_insert e (to_set es)

unfoldable pub difference : List EffectKind → List EffectKind → List EffectKind
difference [] declared = []
difference (e ∷ es) declared =
    let rest = difference es declared in if Dict.contains declared e then rest else e ∷ rest

abbrev pub is_nil {ℓ} : {A : Type ℓ} → List A → Bool
is_nil [] = true
is_nil (x ∷ xs) = false

-- The test of an actor, made once an actor has been spawned.
unfoldable pub check_known : ℕ → Uuid → Dict Uuid Text → List Problem
check_known seq actor spawned =
    require (is_nil spawned || Dict.has actor spawned) (unknown_actor seq actor)

unfoldable pub verify_effects : ℕ → List EffectKind → List EffectKind → List Problem
unfolding to_set difference
verify_effects seq declared observed =
    require (eqb (length (to_set declared)) (length declared)) (duplicate_declared seq)
    ++ (require (eqb (length (to_set observed)) (length observed)) (duplicate_observed seq)
        ++ require (is_nil (difference (to_set observed) (to_set declared))) (
            undeclared_effects seq (difference (to_set observed) (to_set declared))
              (to_set declared)))

unfoldable pub verify_pending_effect :
    ℕ → Uuid → Uuid → Uuid → Option (ℕ × Uuid × Uuid × Uuid) → List Problem
verify_pending_effect seq node actor msg_id none = effect_without_deliver seq ∷ []
verify_pending_effect seq node actor msg_id
      (some (deliver_seq, deliver_node, deliver_to, deliver_msg)) =
    require (node == deliver_node && (actor == deliver_to && msg_id == deliver_msg))
      (effect_mismatch seq deliver_seq)

module _ {V : Type 0} where
  abbrev pub initial_verifier : Verifier V
  initial_verifier = record {
    seed = none;
    expected_seq = 0;
    spawned = [];
    produced = [];
    delivered_lineage = [];
    dropped = [];
    pending_timer_emit = none;
    pending_effect_observed = none;
  }

  unfoldable pub check_seq : TraceEvent V → Verifier V → Writer Problem (Verifier V)
  check_seq ev s =
      if not (ev.seq == s.expected_seq)
      then (do
        tell (seq_mismatch s.expected_seq ev.seq ∷ [])
        pure (record s { expected_seq = sat_add ev.seq 1 }))
      else pure (record s { expected_seq = sat_add s.expected_seq 1 })

  unfoldable pub check_seed : TraceEvent V → Verifier V → Writer Problem (Verifier V)
  check_seed ev s = elim s.seed [
    | none ↦ pure (record s { seed = some ev.seed })
    | some seed ↦ (do tell (require (seed == ev.seed) (seed_mismatch ev.seq seed ev.seed)); pure s)
  ]

  abbrev pub is_effect_observed : EventKind V → Bool
  is_effect_observed (EventKind.effect_observed _ _ _ _ _ _ _) = true
  is_effect_observed _ = false

  unfoldable pub check_effect_gap : TraceEvent V → Verifier V → Writer Problem (Verifier V)
  check_effect_gap ev s = elim s.pending_effect_observed [
    | none ↦ pure s
    | some (deliver_seq, _, _, _) ↦ if is_effect_observed ev.kind then pure s else (do
      tell (deliver_not_followed deliver_seq ev.seq ∷ [])
      pure (record s { pending_effect_observed = none }))
  ]

  -- The sender of a `Send` or `NetSend`.
  abbrev pub emitted_from : EventKind V → Option Uuid
  emitted_from (EventKind.send from _ _ _) = some from
  emitted_from (EventKind.net_send _ _ from _ _) = some from
  emitted_from _ = none

  unfoldable pub check_timer_gap : TraceEvent V → Verifier V → Writer Problem (Verifier V)
  check_timer_gap ev s = elim s.pending_timer_emit [
    | none ↦ pure s
    | some (timer_seq, timer_from, timer_id) ↦ (do
      tell (elim (emitted_from ev.kind) [
        | some from ↦
            require (from == timer_from)
              (timer_wrong_actor timer_seq timer_id timer_from from ev.seq)
        | none ↦ timer_not_followed timer_seq timer_id ev.seq ∷ []
      ])
      pure (record s { pending_timer_emit = none }))
  ]

  abbrev pub queue_of : Option (List V) → List V
  queue_of none = []
  queue_of (some queue) = queue

  -- `produced.entry(key).or_default().push(payload)`
  unfoldable pub push_produced :
      Uuid × Uuid → V → Dict (Uuid × Uuid) (List V) → Dict (Uuid × Uuid) (List V)
  push_produced key payload produced =
      Dict.insert key (queue_of (Dict.get key produced) ++ payload ∷ []) produced

  -- The queue behind its first payload; an empty queue is removed.
  unfoldable pub store_queue :
      Uuid × Uuid → List V → Dict (Uuid × Uuid) (List V) → Dict (Uuid × Uuid) (List V)
  store_queue key [] produced = Dict.remove key produced
  store_queue key (v ∷ queue) produced = Dict.insert key (v ∷ queue) produced

  unfoldable pub verify_spawn : ℕ → Uuid → Text → Verifier V → Writer Problem (Verifier V)
  verify_spawn seq actor service s = do
    tell (elim (Dict.get actor s.spawned) [
      | none ↦ []
      | some previous ↦
          if previous == service
          then duplicate_spawn seq actor service ∷ []
          else conflicting_spawn seq actor previous service ∷ []
    ])
    pure (record s { spawned = Dict.insert actor service s.spawned })

  unfoldable pub verify_source :
      Reader V → ℕ → Uuid → Uuid → Option (List V) → Verifier V → Writer Problem (Verifier V)
  verify_source reader seq to msg_id none s = do
    tell (deliver_without_source seq to msg_id ∷ [])
    pure s
  verify_source reader seq to msg_id (some []) s = do
    tell (deliver_without_source seq to msg_id ∷ [])
    pure (record s { produced = store_queue (to, msg_id) [] s.produced })
  verify_source reader seq to msg_id (some (payload ∷ queue)) s = do
    lineage ← verify_payload_lineage reader seq msg_id payload s.delivered_lineage
    pure (record s {
      delivered_lineage = lineage;
      produced = store_queue (to, msg_id) queue s.produced;
    })
