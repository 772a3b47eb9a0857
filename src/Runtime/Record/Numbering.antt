-- ===== src/Runtime/Record/Numbering.antt =====
-- The sequence numbers of a recorded trace (record_event of crates/runtime/src/main.rs), as the
-- verifier of crates/tool/src/main.rs reads them.
use mathlib.Core.List.{append_assoc, append-nil}
use unified_correctness_orie.Base.{
  ℕ, suc, ◌+◌, ◌<◌, ◌≡◌, refl, sym, ap, subst, ◌∙◌, List, [], ◌∷◌, ◌++◌, arith, length, sat_add,
  wrap_inc, ok, >>=-eq-ok, ok-injective, u64_mod,
}
use unified_correctness_orie.Runtime.Event.{EventKind, TraceEvent, WireEnvelope}
use unified_correctness_orie.Runtime.Host.{Host}
use unified_correctness_orie.Runtime.Program.{Program, build_actor_system}
use unified_correctness_orie.Runtime.Node.{Config, Node}
use unified_correctness_orie.Runtime.Injector
use unified_correctness_orie.Runtime.Record.{
  Tape, seed, record_event, record_all, start_up, record_loop, record_main,
}
use unified_correctness_orie.Tool.Verify.Sound.{Numbered}

step_number : (n : ℕ) → n + 1 < u64_mod → sat_add n 1 ≡ wrap_inc n
step_number n h = omega arith

module _ {V : Type 0} where
  number : ℕ → ℕ → List (EventKind V) → List (TraceEvent V)
  number sd n [] = []
  number sd n (k ∷ ks) = record { seq = n; seed = sd; kind = k } ∷ number sd (wrap_inc n) ks

  length-number : (sd n : ℕ) (ks : List (EventKind V)) → length (number sd n ks) ≡ length ks
  unfolding number
  length-number sd n [] = refl
  length-number sd n (k ∷ ks) = ap suc (length-number sd (wrap_inc n) ks)

  number-Numbered :
      (sd n : ℕ) (ks : List (EventKind V))
      → length ks + n < u64_mod
      → Numbered sd n (number sd n ks)
  unfolding number Numbered
  number-Numbered sd n [] h = tt
  number-Numbered sd n (k ∷ ks) h = (
    refl,
    refl,
    rw (step_number n (omega arith)) (number-Numbered sd (wrap_inc n) ks (omega arith)),
  )

  record_all-events :
      (ks : List (EventKind V)) (tape : Tape V)
      → (record_all ks tape).events ≡ tape.events ++ number tape.seed tape.seq ks
  unfolding record_all record_event number
  record_all-events [] tape = rw append-nil
  record_all-events (k ∷ ks) tape = record_all-events ks (record_event k tape) ∙ rw append_assoc

  record_all-append :
      (xs ys : List (EventKind V)) (tape : Tape V)
      → record_all ys (record_all xs tape) ≡ record_all (xs ++ ys) tape
  unfolding record_all
  record_all-append [] ys tape = refl
  record_all-append (a ∷ xs) ys tape = record_all-append xs ys (record_event a tape)

module _ {V : Type 0} where
  -- The trace of a run in the record mode that ends without an error carries the one seed and is
  -- numbered from 0 without a gap, as the verifier asks, as long as it has fewer than 2 ^ 64
  -- events.
  pub record_main-Numbered :
      (host : Host V) (cfg : Config) (program : Program) (arrivals : ℕ → List (WireEnvelope V))
      (node : Node V) (tape : Tape V)
      → record_main host cfg program arrivals ≡ ok (node, tape)
      → length tape.events < u64_mod
      → Numbered seed 0 tape.events
  unfolding record_main
  record_main-Numbered host cfg program arrivals node tape h short =
      let services = (build_actor_system host program).1 in
      let tape₀ : Tape V = record { events = []; seq = 0; seed = seed } in
      let (started, e₁, h₁) = >>=-eq-ok (start_up host cfg program services) _ h in
      let (looped, e₂, h₂) =
        >>=-eq-ok
          (record_loop host cfg program services arrivals cfg.steps 0
            (started.0, Injector.new cfg.fault))
          _ h₁ in
      let written : tape.events ≡ number seed 0 (started.1 ++ looped.1) =
        ap (λ r. r.1.events) (sym (ok-injective h₂))
        ∙ ap (λ t. t.events) (record_all-append started.1 looped.1 tape₀)
        ∙ record_all-events (started.1 ++ looped.1) tape₀ in
      subst (Numbered seed 0) (sym written) (
        number-Numbered seed 0 (started.1 ++ looped.1)
          (rw (← length-number seed 0 (started.1 ++ looped.1), ← written) (omega arith)))
