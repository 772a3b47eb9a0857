-- ===== src/Tool/Problems.antt =====
-- The problems that the verifiers report (crates/tool/src/main.rs): a constructor for each message
-- that is formatted, with the numbers and ids that it shows.
use unified_correctness_orie.Base.{ℕ, List}
use unified_correctness_orie.Base.Text.{Text}
use unified_correctness_orie.Runtime.Event.{Uuid, EffectKind}

-- The provenance fields that are parsed.
pub data Field : Type 0 where
  origin_msg_id parent_node parent_msg_id from_node : Field

pub data Problem : Type 0 where
  seq_mismatch : (expected got : ℕ) → Problem
  seed_mismatch : (seq expected got : ℕ) → Problem
  deliver_not_followed : (deliver_seq seq : ℕ) → Problem
  deliver_at_end : (deliver_seq : ℕ) → Problem
  timer_wrong_actor : (timer_seq : ℕ) (timer_id expected got : Uuid) (seq : ℕ) → Problem
  timer_not_followed : (timer_seq : ℕ) (timer_id : Uuid) (seq : ℕ) → Problem
  timer_at_end : (timer_seq : ℕ) (timer_id : Uuid) → Problem
  duplicate_spawn : (seq : ℕ) (actor : Uuid) (service : Text) → Problem
  conflicting_spawn : (seq : ℕ) (actor : Uuid) (previous service : Text) → Problem
  unknown_actor : (seq : ℕ) (actor : Uuid) → Problem
  recv_after_drop : (seq : ℕ) (from_node to msg_id : Uuid) → Problem
  deliver_without_source : (seq : ℕ) (to msg_id : Uuid) → Problem
  effect_mismatch : (seq deliver_seq : ℕ) → Problem
  effect_without_deliver : (seq : ℕ) → Problem
  duplicate_declared : (seq : ℕ) → Problem
  duplicate_observed : (seq : ℕ) → Problem
  undeclared_effects : (seq : ℕ) (unexpected declared : List EffectKind) → Problem
  payload_decode_failed : (seq : ℕ) (msg_id : Uuid) → Problem
  payload_missing_provenance : (seq : ℕ) (msg_id : Uuid) → Problem
  invalid_field : (seq : ℕ) (field : Field) (raw : Text) → Problem
  root_origin_msg root_parent_msg : (seq : ℕ) (msg_id other : Uuid) → Problem
  root_parent_node root_origin_node root_origin_service : (seq : ℕ) (msg_id : Uuid) → Problem
  parent_is_self : (seq : ℕ) (msg_id : Uuid) → Problem
  parent_hops parent_origin_msg parent_origin_node parent_origin_service :
      (seq : ℕ) (msg_id : Uuid) → Problem
