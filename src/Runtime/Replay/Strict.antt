-- ===== src/Runtime/Replay/Strict.antt =====
-- What the comparison of emitted with recorded events accepts (expect_event, verify_replay_emits
-- of crates/runtime/src/main.rs), and the replay of the inbound events.
use unified_correctness_orie.Base.{
  ◌≡◌, ◌⊎◌, refl, sym, ap, ◌∙◌, Bool, true, false, not, Option, none, some, List, [], ◌∷◌, ◌++◌,
  map, arith, ok, ◌>>◌, guard, or_fail, >>=-eq-ok, ok-injective, nat_eq, list_beq_iff, list_eq, inl,
  inr,
}
use unified_correctness_orie.Runtime.Event.{EventKind, TraceEvent}
use unified_correctness_orie.Runtime.Host.{Host, IsLawful}
use unified_correctness_orie.Runtime.EventEquality.{event_beq, kind_eq}
use unified_correctness_orie.Runtime.Node.{RunError}
use unified_correctness_orie.Runtime.Cursor.{ReplayCursor, next, remaining}
use unified_correctness_orie.Runtime.Replay.{
  is_emitted, expect_event, expect_events, no_more_emits, verify_replay_emits,
}

guard-ok : (b : Bool) (e : RunError) → guard b e ≡ ok tt → b ≡ true
guard-ok true e h = refl
guard-ok false e h = cc

not-true : (b : Bool) → not b ≡ true → b ≡ false
not-true b h = ground arith

abbrev pub starts_emitted : {V : Type 0} → List (EventKind V) → Bool
starts_emitted [] = false
starts_emitted (k ∷ ks) = is_emitted k

-- What is read of an option that is none, or that holds `x`.
or_fail-none :
    {A : Type 0} (o : Option A) (e : RunError) {a : A} → o ≡ none → or_fail o e ≡ ok a → ⊥
or_fail-none none e n h = cc
or_fail-none (some x) e n h = cc

or_fail-some :
    {A : Type 0} (o : Option A) (e : RunError) {a x : A} → o ≡ some x → or_fail o e ≡ ok a → x ≡ a
or_fail-some none e n h = cc
or_fail-some (some y) e n h = cc

abbrev pub kinds : {V : Type 0} → ReplayCursor V → List (EventKind V)
kinds cursor = map (λ ev. ev.kind) (remaining cursor)

module _ {V : Type 0} (host : Host V) (lawful : IsLawful host) where
  event_beq_sound : (a b : EventKind V) → event_beq host a b ≡ true → a ≡ b
  unfolding event_beq
  event_beq_sound (EventKind.spawn a b s) (EventKind.spawn a' b' s') h =
      ground (arith, list_beq_iff s s')
  event_beq_sound (EventKind.send a b c p) (EventKind.send a' b' c' p') h =
      ground (arith, lawful.value_beq_iff p p')
  event_beq_sound (EventKind.deliver a b c) (EventKind.deliver a' b' c') h = ground arith
  event_beq_sound (EventKind.timer_fired a b c) (EventKind.timer_fired a' b' c') h = ground arith
  event_beq_sound (EventKind.net_recv a b c d p) (EventKind.net_recv a' b' c' d' p') h =
      ground (arith, lawful.value_beq_iff p p')
  event_beq_sound (EventKind.net_send a b c d p) (EventKind.net_send a' b' c' d' p') h =
      ground (arith, lawful.value_beq_iff p p')
  event_beq_sound (EventKind.log a b s t) (EventKind.log a' b' s' t') h =
      ground (arith, list_beq_iff s s', list_beq_iff t t')
  event_beq_sound (EventKind.effect_observed a b s t c d o)
        (EventKind.effect_observed a' b' s' t' c' d' o') h =
      ground (arith, list_beq_iff s s', list_beq_iff t t', list_beq_iff d d', list_beq_iff o o')
  event_beq_sound (EventKind.fault_injected a b c d f) (EventKind.fault_injected a' b' c' d' f') h =
      ground arith
  event_beq_sound (EventKind.fault_policy a b o c d) (EventKind.fault_policy a' b' o' c' d') h =
      ground arith
  event_beq_sound _ _ h = ground arith

  -- What `next` reads, and the cursor behind it.
  NextView : ReplayCursor V → Type 0
  NextView cursor =
      ((remaining cursor ≡ []) × (next cursor ≡ (none, record { reader = []; buffered = none })))
      ⊎ ((ev : TraceEvent V) × (rest : List (TraceEvent V)) × (remaining cursor ≡ ev ∷ rest)
          × (next cursor ≡ (some ev, record { reader = rest; buffered = none })))

  next-view :
      (rs : List (TraceEvent V)) (o : Option (TraceEvent V))
      → NextView (record { reader = rs; buffered = o })
  unfolding next NextView
  next-view rs (some ev) = inr (ev, rs, refl, refl)
  next-view [] none = inl (refl, refl)
  next-view (ev ∷ rs) none = inr (ev, rs, refl, refl)

  expect_event_sound :
      (k : EventKind V) (cursor cursor' : ReplayCursor V)
      → expect_event host k cursor ≡ ok cursor'
      → kinds cursor ≡ k ∷ kinds cursor'
  unfolding expect_event NextView
  expect_event_sound k cursor cursor' h =
      let (ev, e₁, h₁) = >>=-eq-ok (or_fail (next cursor).0 RunError.trace_ended) _ h in
      let (_, e₂, h₂) =
        >>=-eq-ok (guard (event_beq host ev.kind k) RunError.emission_mismatch) _ h₁ in
      let same : ev.kind ≡ k = event_beq_sound ev.kind k (guard-ok _ _ e₂) in
      elim (next-view cursor.reader cursor.buffered) [
        | inl (_, n) ↦
            absurd (or_fail-none (next cursor).0 RunError.trace_ended (ap (λ p. p.0) n) e₁)
        | inr (x, rest, r, n) ↦
            let read : x ≡ ev =
              or_fail-some (next cursor).0 RunError.trace_ended (ap (λ p. p.0) n) e₁ in
            let left : record { reader = rest; buffered = none } ≡ cursor' =
              ap (λ p. p.1) (sym n) ∙ ok-injective h₂ in
            ap (map λ x. x.kind) r ∙ rw (read, same, ← left)
      ]

  expect_events_sound :
      (ks : List (EventKind V)) (cursor cursor' : ReplayCursor V)
      → expect_events host ks cursor ≡ ok cursor'
      → kinds cursor ≡ ks ++ kinds cursor'
  unfolding expect_events
  expect_events_sound [] cursor cursor' h = ap kinds (ok-injective h)
  expect_events_sound (k ∷ ks) cursor cursor' h =
      let (middle, e₁, h₁) = >>=-eq-ok (expect_event host k cursor) _ h in
      expect_event_sound k cursor middle e₁
      ∙ ap (λ l. k ∷ l) (expect_events_sound ks middle cursor' h₁)

  put_back :
      (ev : TraceEvent V) (rs : List (TraceEvent V)) (cursor' : ReplayCursor V)
      → (guard (not (is_emitted ev.kind)) RunError.extra_event
          >> ok (record { reader = rs; buffered = some ev }))
        ≡ ok cursor'
      → (ev.kind ∷ map (λ x. x.kind) rs ≡ kinds cursor') × (starts_emitted (kinds cursor') ≡ false)
  put_back ev rs cursor' h =
      let (_, e₁, h₁) = >>=-eq-ok (guard (not (is_emitted ev.kind)) RunError.extra_event) _ h in
      let same = ok-injective h₁ in
      let quiet : is_emitted ev.kind ≡ false = not-true (is_emitted ev.kind) (guard-ok _ _ e₁) in
      (ap kinds same, ap (λ c. starts_emitted (kinds c)) (sym same) ∙ quiet)

  no_more_emits_sound :
      (rs : List (TraceEvent V)) (o : Option (TraceEvent V)) (cursor' : ReplayCursor V)
      → no_more_emits host (record { reader = rs; buffered = o }) ≡ ok cursor'
      → (kinds (record { reader = rs; buffered = o }) ≡ kinds cursor')
        × (starts_emitted (kinds cursor') ≡ false)
  unfolding no_more_emits
  no_more_emits_sound [] none cursor' h =
      let same = ok-injective h in (ap kinds same, ap (λ c. starts_emitted (kinds c)) (sym same))
  no_more_emits_sound (ev ∷ rs) none cursor' h = put_back ev rs cursor' h
  no_more_emits_sound rs (some ev) cursor' h = put_back ev rs cursor' h

  -- When values are compared as documented and the replay accepts what a step emits, the recorded
  -- events at the cursor are exactly these, in the same order, and the event behind them is none
  -- that a step emits.
  pub verify_replay_emits-exact :
      (expected : List (EventKind V)) (cursor cursor' : ReplayCursor V)
      → verify_replay_emits host expected cursor ≡ ok cursor'
      → (kinds cursor ≡ expected ++ kinds cursor') × (starts_emitted (kinds cursor') ≡ false)
  unfolding verify_replay_emits
  verify_replay_emits-exact expected cursor cursor' h =
      let (middle, e₁, h₁) = >>=-eq-ok (expect_events host expected cursor) _ h in
      let rest = no_more_emits_sound middle.reader middle.buffered cursor' h₁ in
      (expect_events_sound expected cursor middle e₁ ∙ ap (λ l. expected ++ l) rest.0, rest.1)
