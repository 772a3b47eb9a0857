-- ===== src/Tool/Verify/Effects.antt =====
-- The comparison of observed with declared effects in verify_trace (crates/tool/src/main.rs).
use unified_correctness_orie.Base.{
  ℕ, ◌≡◌, refl, Bool, true, false, List, [], ◌∷◌, arith, if◌then◌else◌, ◌==◌, append-eq-nil,
}
use unified_correctness_orie.Base.Dict
use unified_correctness_orie.Runtime.Event.{EffectKind}
use unified_correctness_orie.Runtime.EventEquality.{effect_rank-injective, kind_eq, kind_beq_iff}
use unified_correctness_orie.Tool.Problems.{Problem}
use unified_correctness_orie.Tool.Payload.{require}
use unified_correctness_orie.Tool.Checks.{set_insert, to_set, difference, is_nil, verify_effects}

contains-set_insert :
    (e x : EffectKind) (fs : List EffectKind)
    → Dict.contains (set_insert e fs) x ≡ (if e == x then true else Dict.contains fs x)
unfolding set_insert Dict.contains
contains-set_insert e x [] = refl
contains-set_insert e x (f ∷ fs) =
    ground (arith, effect_rank-injective e f, contains-set_insert e x fs)

contains-to_set :
    (es : List EffectKind) (x : EffectKind) → Dict.contains (to_set es) x ≡ Dict.contains es x
unfolding to_set Dict.contains
contains-to_set [] x = refl
contains-to_set (e ∷ es) x = rw (contains-set_insert e x (to_set es), contains-to_set es x)

difference-nil :
    (es ds : List EffectKind) (x : EffectKind)
    → is_nil (difference es ds) ≡ true
    → Dict.contains es x ≡ true
    → Dict.contains ds x ≡ true
unfolding difference Dict.contains
difference-nil [] ds x h k = ground arith
difference-nil (e ∷ es) ds x h k = ground (arith, kind_beq_iff e x, difference-nil es ds x)

require-nil : (b : Bool) (p : Problem) → require b p ≡ [] → b ≡ true
require-nil true p h = refl
require-nil false p h = cc

-- No problem with the effects means that what is observed is declared.
pub verify_effects-included :
    (seq : ℕ) (declared observed : List EffectKind)
    → verify_effects seq declared observed ≡ []
    → (x : EffectKind) → Dict.contains observed x ≡ true
    → Dict.contains declared x ≡ true
unfolding verify_effects
verify_effects-included seq declared observed h x k =
    let last = append-eq-nil _ _ (append-eq-nil _ _ h).1 in
    let none_left = require-nil _ _ last.1 in
    rw (← contains-to_set declared x) (
      difference-nil (to_set observed) (to_set declared) x none_left
        (rw (contains-to_set observed x) k))
