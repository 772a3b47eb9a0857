-- ===== src/Tool/Verify/Sound.antt =====
-- What a trace without problems satisfies (verify_trace of crates/tool/src/main.rs).
use unified_correctness_orie.Base.{
  ℕ, ◌⊎◌, ◌≡◌, ◌≢◌, refl, ap, subst, ◌∙◌, true, Option, none, some, List, [], ◌∷◌, map, arith,
  sat_add, append-eq-nil, Option-cases, inl, inr,
}
use unified_correctness_orie.Runtime.Event.{Uuid, EventKind, TraceEvent}
use unified_correctness_orie.Tool.Problems.{Problem, deliver_at_end}
use unified_correctness_orie.Tool.Payload.{Reader}
use unified_correctness_orie.Tool.Checks.{
  Verifier, initial_verifier, check_seq, check_seed, check_effect_gap, check_timer_gap,
  emitted_from, is_effect_observed,
}
use unified_correctness_orie.Tool.Verify.{
  verify_kind, verify_event, verify_events, verify_end, verify_trace,
}
use unified_correctness_orie.Tool.Verify.Grammar.{
  anything, Trace, end, emitted, duty, emits?, due_at, numbers,
}
use unified_correctness_orie.Tool.Verify.Quiet.{
  check_seq-quiet, check_seed-quiet, check_effect_gap-quiet, check_timer_gap-quiet, kind-Trace,
  kind-emits, verify_kind-numbers,
}

-- The events are numbered from `n` on and carry the seed.
unfoldable pub Numbered : {V : Type 0} → ℕ → ℕ → List (TraceEvent V) → Type 0
Numbered seed n [] = Unit {0}
Numbered seed n (ev ∷ evs) = (ev.seq ≡ n) × (ev.seed ≡ seed) × Numbered seed (sat_add n 1) evs

abbrev kinds : {V : Type 0} → List (TraceEvent V) → List (EventKind V)
kinds = map λ ev. ev.kind

module _ {V : Type 0} where
  not_report :
      (k : EventKind V) {o : Option (ℕ × Uuid × Uuid × Uuid)} (from : Uuid)
      → emitted_from k ≡ some from
      → (o ≡ none) ⊎ (is_effect_observed k ≡ true)
      → o ≡ none
  not_report k from e (inl n) = n
  not_report k from e (inr r) = ground (arith, e, r)

  emission-Trace :
      (k : EventKind V) (o : Option (ℕ × Uuid × Uuid × Uuid)) (t : Option (ℕ × Uuid × Uuid))
      (ks : List (EventKind V))
      → ((q : ℕ) (from timer_id : Uuid) → t ≡ some (q, from, timer_id) → emitted_from k ≡ some from)
      → o ≡ none
      → t ≢ none
      → Trace (duty o none) ks
      → Trace (duty o t) (k ∷ ks)
  unfolding duty emits?
  emission-Trace k none none ks emits n due after = absurd (due refl)
  emission-Trace k none (some (q, from, timer_id)) ks emits n due after =
      emitted (emits q from timer_id refl) after
  emission-Trace k (some p) t ks emits n due after = cc

module _ {V : Type 0} (reader : Reader V) where
  gap-Trace :
      (seq : ℕ) (k : EventKind V) (s : Verifier V) (ks : List (EventKind V))
      → ((q : ℕ) (from timer_id : Uuid)
          → s.pending_timer_emit ≡ some (q, from, timer_id)
          → emitted_from k ≡ some from)
      → (s.pending_effect_observed ≡ none) ⊎ (is_effect_observed k ≡ true)
      → (verify_kind reader seq k (record s { pending_timer_emit = none })).1 ≡ []
      → Trace (due_at (verify_kind reader seq k (record s { pending_timer_emit = none })).0) ks
      → Trace (due_at s) (k ∷ ks)
  gap-Trace seq k s ks emits allowed h after = elim (Option-cases s.pending_timer_emit) [
    | inl n ↦
        rw n
          (kind-Trace reader seq k (record s { pending_timer_emit = none }) ks h refl allowed after)
    | inr ((q, from, timer_id), e) ↦
        let em = emits q from timer_id e in
        let kept = kind-emits reader seq k (record s { pending_timer_emit = none }) from em in
        emission-Trace k s.pending_effect_observed s.pending_timer_emit ks emits
          (not_report k from em allowed) (λ n. cc) (subst (λ p. Trace (duty p.0 p.1) ks) kept after)
  ]

  verify_event-quiet :
      (ev : TraceEvent V) (s : Verifier V)
      → (verify_event reader ev s).1 ≡ []
      → (ev.seq ≡ s.expected_seq)
        × ((x : ℕ) → s.seed ≡ some x → ev.seed ≡ x)
        × (numbers (verify_event reader ev s).0 ≡ (sat_add s.expected_seq 1, some ev.seed))
        × ((ks : List (EventKind V))
            → Trace (due_at (verify_event reader ev s).0) ks
            → Trace (due_at s) (ev.kind ∷ ks))
  unfolding verify_event
  verify_event-quiet ev s h =
      let s₁ = (check_seq ev s).0 in
      let s₂ = (check_seed ev s₁).0 in
      let s₃ = (check_effect_gap ev s₂).0 in
      let q₁ = append-eq-nil _ _ h in
      let q₂ = append-eq-nil _ _ q₁.1 in
      let q₃ = append-eq-nil _ _ q₂.1 in
      let q₄ = append-eq-nil _ _ q₃.1 in
      let c₁ = check_seq-quiet ev s q₁.0 in
      let c₂ = check_seed-quiet ev s₁ q₂.0 in
      let c₃ = check_effect_gap-quiet ev s₂ q₃.0 in
      let c₄ = check_timer_gap-quiet ev s₃ q₄.0 in
      let e₃ : s₃ ≡ record s { expected_seq = sat_add s.expected_seq 1; seed = some ev.seed } =
        c₃.0 ∙ c₂.1 ∙ ap {A = Verifier V} (λ x. record x { seed = some ev.seed }) c₁.1 in
      (
        c₁.0,
        (λ x e. c₂.0 x (rw c₁.1 e)),
        verify_kind-numbers reader ev.seq ev.kind (check_timer_gap ev s₃).0
            ∙ ap numbers c₄.0
            ∙ ap numbers e₃,
        λ ks after.
            subst (λ d. Trace d (ev.kind ∷ ks)) (ap due_at e₃)
              (gap-Trace ev.seq ev.kind s₃ ks c₄.1 (rw c₃.0 c₃.1)
                (subst (λ z. (verify_kind reader ev.seq ev.kind z).1 ≡ []) c₄.0 q₄.1)
                (subst (λ z. Trace (due_at (verify_kind reader ev.seq ev.kind z).0) ks) c₄.0
                  after)),
      )

  end_report : Option (ℕ × Uuid × Uuid × Uuid) → List Problem
  end_report none = []
  end_report (some p) = deliver_at_end p.0 ∷ []

  some_report :
      (o : Option (ℕ × Uuid × Uuid × Uuid)) (p : ℕ × Uuid × Uuid × Uuid)
      → end_report o ≡ []
      → o ≡ some p
      → ⊥
  unfolding end_report
  some_report none p h e = cc
  some_report (some q) p h e = cc

  verify_end-quiet : (s : Verifier V) → verify_end s ≡ [] → Trace {V = V} (due_at s) []
  unfolding verify_end duty emits? end_report
  verify_end-quiet s h = elim (Option-cases s.pending_effect_observed) [
    | inl n ↦ elim (Option-cases s.pending_timer_emit) [
      | inl m ↦ rw (n, m) end
      | inr (p, e) ↦ absurd (ground (arith, h, n, e))
    ]
    | inr (p, e) ↦
        absurd (some_report _ p (append-eq-nil _ (end_report s.pending_effect_observed) h).1 e)
  ]

  verify_events-quiet :
      (evs : List (TraceEvent V)) (s : Verifier V) (seed : ℕ)
      → (verify_events reader evs s).1 ≡ []
      → verify_end (verify_events reader evs s).0 ≡ []
      → s.seed ≡ some seed
      → Trace (due_at s) (kinds evs) × Numbered seed s.expected_seq evs
  unfolding verify_events Numbered
  verify_events-quiet [] s seed h last e = (verify_end-quiet s last, tt)
  verify_events-quiet (ev ∷ evs) s seed h last e =
      let q = append-eq-nil _ _ h in
      let step = verify_event-quiet ev s q.0 in
      let same = step.1 seed e in
      let rest =
        verify_events-quiet evs (verify_event reader ev s).0 seed q.1 last
          (ap (λ p. p.1) step.2 ∙ ap some same) in
      (
        step.3 (kinds evs) rest.0,
        (step.0, same, subst (λ n. Numbered seed n evs) (ap (λ p. p.0) step.2) rest.1),
      )

  -- A trace in which verify_trace reports no problem is numbered from 0 without a gap and has one
  -- seed; each delivery is followed at once by the report of its effects, for the same node,
  -- actor and message, and no report stands elsewhere; each timer that fires is followed at once
  -- by a send of its actor; and each report observes only effects that it declares.
  pub verify_trace_sound :
      (ev : TraceEvent V) (evs : List (TraceEvent V))
      → (verify_trace reader (ev ∷ evs)).problems ≡ []
      → Trace anything (kinds (ev ∷ evs)) × Numbered ev.seed 0 (ev ∷ evs)
  unfolding verify_trace verify_events Numbered duty emits?
  verify_trace_sound ev evs h =
      let parts = append-eq-nil _ _ h in
      let q = append-eq-nil _ _ parts.0 in
      let step = verify_event-quiet ev initial_verifier q.0 in
      let rest =
        verify_events-quiet evs (verify_event reader ev initial_verifier).0 ev.seed q.1 parts.1
          (ap (λ p. p.1) step.2) in
      (
        step.3 (kinds evs) rest.0,
        (step.0, refl, subst (λ n. Numbered ev.seed n evs) (ap (λ p. p.0) step.2) rest.1),
      )
