-- ===== src/Tool/Verify/Quiet.antt =====
-- What the checks of one event let pass (verify_trace of crates/tool/src/main.rs).
use unified_correctness_orie.Base.{
  ℕ, ◌⊎◌, ◌≡◌, refl, true, false, Option, none, some, List, [], ◌∷◌, arith, sat_add, nat_eq,
  append-eq-nil, Bool-cases, Option-cases, inl, inr,
}
use unified_correctness_orie.Base.Text.{Text}
use unified_correctness_orie.Runtime.EventEquality.{kind_eq}
use unified_correctness_orie.Runtime.Event.{Uuid, EventKind, EffectKind, FaultAction, TraceEvent}
use unified_correctness_orie.Tool.Payload.{Reader}
use unified_correctness_orie.Tool.Checks.{
  Verifier, check_seq, check_seed, check_effect_gap, check_timer_gap, is_effect_observed,
  verify_spawn, verify_source, verify_effects, verify_pending_effect, emitted_from,
}
use unified_correctness_orie.Tool.Verify.Effects.{verify_effects-included}
use unified_correctness_orie.Tool.Verify.{verify_kind}
use unified_correctness_orie.Tool.Verify.Grammar.{
  anything, is_plain, Trace, delivery, reported, timer, duty, due_at, only_none, duty_anything,
  duty_plain, duty-none, duty_report, duty_emission, numbers, pendings,
}

module _ {V : Type 0} where
  pub check_seq-quiet :
      (ev : TraceEvent V) (s : Verifier V)
      → (check_seq ev s).1 ≡ []
      → (ev.seq ≡ s.expected_seq)
        × ((check_seq ev s).0 ≡ record s { expected_seq = sat_add s.expected_seq 1 })
  unfolding check_seq
  check_seq-quiet ev s h = ground arith

  pub check_seed-quiet :
      (ev : TraceEvent V) (s : Verifier V)
      → (check_seed ev s).1 ≡ []
      → ((x : ℕ) → s.seed ≡ some x → ev.seed ≡ x)
        × ((check_seed ev s).0 ≡ record s { seed = some ev.seed })
  unfolding check_seed
  check_seed-quiet ev s h = elim (Option-cases s.seed) [
    | inl n ↦ ((λ x e. cc), rw n)
    | inr (x, e) ↦
        let same : x ≡ ev.seed = ground (arith, h, e) in ((λ y e'. cc), ground (arith, e, same))
  ]

  pub check_effect_gap-quiet :
      (ev : TraceEvent V) (s : Verifier V)
      → (check_effect_gap ev s).1 ≡ []
      → ((check_effect_gap ev s).0 ≡ s)
        × ((s.pending_effect_observed ≡ none) ⊎ (is_effect_observed ev.kind ≡ true))
  unfolding check_effect_gap
  check_effect_gap-quiet ev s h = elim (Option-cases s.pending_effect_observed) [
    | inl n ↦ (rw n, inl n)
    | inr (p, e) ↦ elim (Bool-cases (is_effect_observed ev.kind)) [
      | inl reports ↦ (rw (e, reports), inr reports)
      | inr other ↦ ground (arith, h, e, other)
    ]
  ]

  pub check_timer_gap-quiet :
      (ev : TraceEvent V) (s : Verifier V)
      → (check_timer_gap ev s).1 ≡ []
      → ((check_timer_gap ev s).0 ≡ record s { pending_timer_emit = none })
        × ((seq : ℕ) (from timer_id : Uuid)
            → s.pending_timer_emit ≡ some (seq, from, timer_id)
            → emitted_from ev.kind ≡ some from)
  unfolding check_timer_gap
  check_timer_gap-quiet ev s h = elim (Option-cases s.pending_timer_emit) [
    | inl n ↦ (ground (arith, n), λ seq from timer_id e. cc)
    | inr (p, e) ↦ (rw e, λ seq from timer_id e'. ground (arith, h, e, e'))
  ]

  verify_source-pendings :
      (reader : Reader V) (seq : ℕ) (to msg_id : Uuid) (q : Option (List V)) (s : Verifier V)
      → ((verify_source reader seq to msg_id q s).0.pending_timer_emit ≡ s.pending_timer_emit)
        × (numbers (verify_source reader seq to msg_id q s).0 ≡ numbers s)
  unfolding verify_source
  verify_source-pendings reader seq to msg_id none s = (refl, refl)
  verify_source-pendings reader seq to msg_id (some []) s = (refl, refl)
  verify_source-pendings reader seq to msg_id (some (v ∷ q)) s = (refl, refl)

  plain-Trace :
      (s : Verifier V) {k : EventKind V} {ks : List (EventKind V)}
      → is_plain k ≡ true
      → s.pending_timer_emit ≡ none
      → (s.pending_effect_observed ≡ none) ⊎ (false ≡ true)
      → Trace (due_at s) ks
      → Trace (due_at s) (k ∷ ks)
  plain-Trace s p t allowed after =
      duty_plain s.pending_effect_observed s.pending_timer_emit p (only_none allowed) t after

  report-Trace :
      (seq node actor msg_id : ℕ) (service msg_type : Text) (declared observed : List EffectKind)
      (due : Option (ℕ × Uuid × Uuid × Uuid)) (ks : List (EventKind V))
      → verify_pending_effect seq node actor msg_id due ≡ []
      → verify_effects seq declared observed ≡ []
      → Trace anything ks
      → Trace
          (duty due none)
          (EventKind.effect_observed node actor service msg_type msg_id declared observed ∷ ks)
  unfolding duty verify_pending_effect
  report-Trace seq node actor msg_id service msg_type declared observed none ks h fits after = cc
  report-Trace seq node actor msg_id service msg_type declared observed (some (q, n, t, m)) ks h
        fits after =
      reported (ground arith) (ground arith) (ground arith)
        (verify_effects-included seq declared observed fits) after

  pub kind-Trace :
      (reader : Reader V) (seq : ℕ) (k : EventKind V) (s : Verifier V) (ks : List (EventKind V))
      → (verify_kind reader seq k s).1 ≡ []
      → s.pending_timer_emit ≡ none
      → (s.pending_effect_observed ≡ none) ⊎ (is_effect_observed k ≡ true)
      → Trace (due_at (verify_kind reader seq k s).0) ks
      → Trace (due_at s) (k ∷ ks)
  unfolding verify_kind verify_spawn
  kind-Trace reader seq (EventKind.spawn _ _ _) s ks h t allowed after =
      plain-Trace s refl t allowed after
  kind-Trace reader seq (EventKind.send _ _ _ _) s ks h t allowed after =
      plain-Trace s refl t allowed after
  kind-Trace reader seq (EventKind.net_recv _ _ _ _ _) s ks h t allowed after =
      plain-Trace s refl t allowed after
  kind-Trace reader seq (EventKind.net_send _ _ _ _ _) s ks h t allowed after =
      plain-Trace s refl t allowed after
  kind-Trace reader seq (EventKind.log _ _ _ _) s ks h t allowed after =
      plain-Trace s refl t allowed after
  kind-Trace reader seq (EventKind.fault_policy _ _ _ _ _) s ks h t allowed after =
      plain-Trace s refl t allowed after
  kind-Trace reader seq (EventKind.fault_injected _ _ _ _ FaultAction.drop) s ks h t allowed after =
      plain-Trace s refl t allowed after
  kind-Trace reader seq (EventKind.fault_injected _ _ _ _ (FaultAction.delay _)) s ks h t allowed
        after =
      plain-Trace s refl t allowed after
  kind-Trace reader seq (EventKind.fault_injected _ _ _ _ (FaultAction.reorder _)) s ks h t allowed
        after =
      plain-Trace s refl t allowed after
  kind-Trace reader seq (EventKind.timer_fired _ _ _) s ks h t allowed after =
      duty_anything s.pending_effect_observed s.pending_timer_emit (only_none allowed) t
        (timer (duty_emission s.pending_effect_observed seq _ (only_none allowed) after))
  kind-Trace reader seq (EventKind.deliver node to msg_id) s ks h t allowed after =
      duty_anything s.pending_effect_observed s.pending_timer_emit (only_none allowed) t
        (delivery (duty_report seq _ after))
  kind-Trace reader seq
        (EventKind.effect_observed node actor service msg_type msg_id declared observed) s ks h t
        allowed after =
      let tests = append-eq-nil _ _ (append-eq-nil _ _ h).1 in
      rw t (
        report-Trace seq node actor msg_id service msg_type declared observed
          s.pending_effect_observed ks tests.0 (append-eq-nil _ _ tests.1).0
          (duty-none s.pending_timer_emit t after))

  pub kind-emits :
      (reader : Reader V) (seq : ℕ) (k : EventKind V) (s : Verifier V) (from : Uuid)
      → emitted_from k ≡ some from
      → pendings (verify_kind reader seq k s).0 ≡ pendings s
  unfolding verify_kind
  kind-emits reader seq k s from h = ground arith

  pub verify_kind-numbers :
      (reader : Reader V) (seq : ℕ) (k : EventKind V) (s : Verifier V)
      → numbers (verify_kind reader seq k s).0 ≡ numbers s
  unfolding verify_kind verify_spawn
  verify_kind-numbers reader seq k s = ground (arith, verify_source-pendings reader seq)
