-- ===== src/Runtime/Lines/Connect.antt =====
-- Which attempt connect_with_retry takes (crates/runtime/src/net.rs).
use unified_correctness_orie.Base.{
  ℕ, zero, suc, ◌+◌, ◌≤◌, ◌<◌, ◌≡◌, refl, true, Option, none, some, arith, Bool-cases, eqb, inl,
  inr, subst, Result, ok, err,
}
use unified_correctness_orie.Runtime.Lines.{connect_from, connect_with_retry}

eqb→eq : (a b : ℕ) → eqb a b ≡ true → a ≡ b
eqb→eq a b h = ground arith

module _ {S E : Type 0} (connect : ℕ → Result E S) where
  -- An attempt that failed.
  abbrev pub Fails : ℕ → Type 0
  Fails i = (reason : E) × (connect i ≡ err reason)

  -- Among the attempts from `first` on, before `end`: the one that is taken is the first that
  -- connects, after a sleep for each that failed; without one, all failed.
  abbrev pub IsFirst : ℕ → ℕ → Result (Option E) S × ℕ → Type 0
  IsFirst first end (ok stream, slept) =
      (first + slept < end)
      × (connect (first + slept) ≡ ok stream)
      × ((j : ℕ) → first ≤ j → j < first + slept → Fails j)
  IsFirst first end (err reason, slept) =
      (first + slept ≡ end) × ((j : ℕ) → first ≤ j → j < end → Fails j)

  Fails-from :
      (first end : ℕ)
      → Fails first
      → ((j : ℕ) → first + 1 ≤ j → j < end → Fails j)
      → (j : ℕ) → first ≤ j
      → j < end
      → Fails j
  Fails-from first end now later j low high = elim (Bool-cases (eqb first j)) [
    | inl same ↦ subst Fails (eqb→eq first j same) now
    | inr differs ↦ later j (ground arith) high
  ]

  -- After a failed attempt.
  one_more :
      (first end : ℕ) (out : Result (Option E) S) (slept : ℕ)
      → Fails first
      → IsFirst (first + 1) end (out, slept)
      → IsFirst first end (out, suc slept)
  one_more first end (ok stream) slept now (inside, connects, later) =
      let place : first + 1 + slept ≡ first + suc slept = omega arith in
      (
        omega arith,
        subst (λ n. connect n ≡ ok stream) place connects,
        λ j low high.
            Fails-from first (first + suc slept) now (λ i l h. later i l (omega arith)) j low high,
      )
  one_more first end (err reason) slept now (last, later) =
      (omega arith, Fails-from first end now later)

  attempt :
      (first attempts : ℕ) (last_err : Option E) (r : Result E S)
      → connect first ≡ r
      → ((e : Option E)
          → IsFirst
              (first + 1)
              (first + 1 + attempts)
              (connect_from connect (first + 1) attempts e))
      → IsFirst first (first + suc attempts) (connect_from connect first (suc attempts) last_err)
  unfolding connect_from
  attempt first attempts last_err (ok stream) e rest =
      let place : first + 0 ≡ first = omega arith in
      rw (connect_from, e) (omega arith, rw place e, λ j low high. absurd (omega arith))
  attempt first attempts last_err (err reason) e rest =
      let (out, slept) = connect_from connect (first + 1) attempts (some reason) in
      let last : first + 1 + attempts ≡ first + suc attempts = omega arith in
      let moved = rw last at rest (some reason) in
      rw (connect_from, e) (one_more first (first + suc attempts) out slept (reason, e) moved)

  connect_from-IsFirst :
      (first attempts : ℕ) (last_err : Option E)
      → IsFirst first (first + attempts) (connect_from connect first attempts last_err)
  unfolding connect_from
  connect_from-IsFirst first zero last_err = (omega arith, λ j h k. absurd (omega arith))
  connect_from-IsFirst first (suc attempts) last_err =
      attempt first attempts last_err (connect first) refl
        (connect_from-IsFirst (first + 1) attempts)

  -- connect_with_retry takes the first of its attempts that connects, and has slept once for each
  -- that failed before; when none does it fails, after it has slept once for each attempt.
  pub connect_with_retry-IsFirst :
      (attempts : ℕ) → IsFirst 0 attempts (connect_with_retry connect attempts)
  unfolding connect_with_retry
  connect_with_retry-IsFirst attempts =
      let all : 0 + attempts ≡ attempts = omega arith in
      subst (λ n. IsFirst 0 n (connect_from connect 0 attempts none)) all
        (connect_from-IsFirst 0 attempts none)
