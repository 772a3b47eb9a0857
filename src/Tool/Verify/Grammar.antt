-- ===== src/Tool/Verify/Grammar.antt =====
-- The sequences of events that verify_trace (crates/tool/src/main.rs) lets pass: an independent
-- description, as a state machine.
use unified_correctness_orie.Base.{
  ℕ, ◌⊎◌, ◌≡◌, Bool, true, false, Option, none, some, List, [], ◌∷◌, nat_eq, inl, inr,
}
use unified_correctness_orie.Base.Dict
use unified_correctness_orie.Base.Text.{Text}
use unified_correctness_orie.Runtime.EventEquality.{kind_eq}
use unified_correctness_orie.Runtime.Event.{Uuid, EventKind, EffectKind}
use unified_correctness_orie.Tool.Checks.{Verifier, emitted_from}

-- What the next event has to be: any that may start, the report on a delivery, or the message of
-- a timer.
pub data Due : Type 0 where
  anything : Due
  report : (node to msg_id : Uuid) → Due
  emission : (from : Uuid) → Due

abbrev pub is_plain : {V : Type 0} → EventKind V → Bool
is_plain (EventKind.deliver _ _ _) = false
is_plain (EventKind.effect_observed _ _ _ _ _ _ _) = false
is_plain (EventKind.timer_fired _ _ _) = false
is_plain _ = true

pub data Trace {V : Type 0} : Due → List (EventKind V) → Type 0 where
  end : Trace anything []
  plain :
      {k : EventKind V} {ks : List (EventKind V)}
      → is_plain k ≡ true
      → Trace anything ks
      → Trace anything (k ∷ ks)
  delivery :
      {node to msg_id : Uuid} {ks : List (EventKind V)}
      → Trace (report node to msg_id) ks
      → Trace anything (EventKind.deliver node to msg_id ∷ ks)
  reported :
      {node to msg_id node' actor msg_id' : Uuid} {service msg_type : Text}
      {declared observed : List EffectKind} {ks : List (EventKind V)}
      → node' ≡ node
      → actor ≡ to
      → msg_id' ≡ msg_id
      → ((e : EffectKind) → Dict.contains observed e ≡ true → Dict.contains declared e ≡ true)
      → Trace anything ks
      → Trace
          (report node to msg_id)
          (EventKind.effect_observed node' actor service msg_type msg_id' declared observed ∷ ks)
  timer :
      {node from timer_id : Uuid} {ks : List (EventKind V)}
      → Trace (emission from) ks
      → Trace anything (EventKind.timer_fired node from timer_id ∷ ks)
  emitted :
      {from : Uuid} {k : EventKind V} {ks : List (EventKind V)}
      → emitted_from k ≡ some from
      → Trace anything ks
      → Trace (emission from) (k ∷ ks)

unfoldable pub emits? : Option (ℕ × Uuid × Uuid) → Due
emits? none = anything
emits? (some (seq, from, timer_id)) = emission from

unfoldable pub duty : Option (ℕ × Uuid × Uuid × Uuid) → Option (ℕ × Uuid × Uuid) → Due
unfolding emits?
duty none t = emits? t
duty (some (seq, node, to, msg_id)) t = report node to msg_id

pub only_none : {A : Type 0} {o : Option A} → (o ≡ none) ⊎ (false ≡ true) → o ≡ none
only_none (inl n) = n
only_none (inr e) = cc

module _ {V : Type 0} where
  abbrev pub due_at : Verifier V → Due
  due_at s = duty s.pending_effect_observed s.pending_timer_emit

  pub duty_anything :
      (o : Option (ℕ × Uuid × Uuid × Uuid)) (t : Option (ℕ × Uuid × Uuid)) {ks : List (EventKind V)}
      → o ≡ none
      → t ≡ none
      → Trace anything ks
      → Trace (duty o t) ks
  unfolding duty emits?
  duty_anything none none n m after = after
  duty_anything none (some p) n m after = cc
  duty_anything (some p) t n m after = cc

  pub duty_plain :
      (o : Option (ℕ × Uuid × Uuid × Uuid)) (t : Option (ℕ × Uuid × Uuid)) {k : EventKind V}
      {ks : List (EventKind V)}
      → is_plain k ≡ true
      → o ≡ none
      → t ≡ none
      → Trace (duty o t) ks
      → Trace (duty o t) (k ∷ ks)
  unfolding duty emits?
  duty_plain none none p n m after = plain p after
  duty_plain none (some q) p n m after = cc
  duty_plain (some q) t p n m after = cc

  pub duty-none :
      (t : Option (ℕ × Uuid × Uuid)) {ks : List (EventKind V)}
      → t ≡ none
      → Trace (duty none t) ks
      → Trace anything ks
  unfolding duty emits?
  duty-none none n after = after
  duty-none (some p) n after = cc

  pub duty_report :
      (seq : ℕ) {node to msg_id : Uuid} (t : Option (ℕ × Uuid × Uuid)) {ks : List (EventKind V)}
      → Trace (duty (some (seq, node, to, msg_id)) t) ks
      → Trace (report node to msg_id) ks
  unfolding duty
  duty_report seq t after = after

  pub duty_emission :
      (o : Option (ℕ × Uuid × Uuid × Uuid)) (seq : ℕ) {from : Uuid} (timer_id : Uuid)
      {ks : List (EventKind V)}
      → o ≡ none
      → Trace (duty o (some (seq, from, timer_id))) ks
      → Trace (emission from) ks
  unfolding duty emits?
  duty_emission none seq timer_id n after = after
  duty_emission (some q) seq timer_id n after = cc

  abbrev pub numbers : Verifier V → ℕ × Option ℕ
  numbers s = (s.expected_seq, s.seed)

  abbrev pub pendings : Verifier V → Option (ℕ × Uuid × Uuid × Uuid) × Option (ℕ × Uuid × Uuid)
  pendings s = (s.pending_effect_observed, s.pending_timer_emit)
