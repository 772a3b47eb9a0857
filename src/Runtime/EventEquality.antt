-- ===== src/Runtime/EventEquality.antt =====
-- `==` on events, which `event.rs` derives.
use unified_correctness_orie.Base.{
  ℕ, ◌≡◌, Bool, true, false, ◌&&◌, Option, none, some, arith, eqb, Eq, ◌==◌, nat_eq, list_eq, ◌↔◌,
}
use unified_correctness_orie.Runtime.Event.{EventKind, EffectKind, FaultAction}
use unified_correctness_orie.Runtime.Host.{Host}

unfoldable pub effect_rank : EffectKind → ℕ
effect_rank EffectKind.log = 0
effect_rank EffectKind.state_read = 1
effect_rank EffectKind.state_write = 2
effect_rank EffectKind.send_local = 3
effect_rank EffectKind.send_remote = 4
effect_rank EffectKind.timer_local = 5
effect_rank EffectKind.timer_remote = 6

abbrev pub kind_beq : EffectKind → EffectKind → Bool
kind_beq a b = eqb (effect_rank a) (effect_rank b)

pub effect_rank-injective : (a b : EffectKind) → effect_rank a ≡ effect_rank b → a ≡ b
unfolding effect_rank
effect_rank-injective a b h = ground arith

pub kind_beq_iff : (a b : EffectKind) → (kind_beq a b ≡ true) ↔ (a ≡ b)
kind_beq_iff a b = ground (arith, effect_rank-injective a b)

instance abbrev pub kind_eq : Eq EffectKind
kind_eq = record { beq = kind_beq; beq_iff = kind_beq_iff }

abbrev action_beq : FaultAction → FaultAction → Bool
action_beq FaultAction.drop FaultAction.drop = true
action_beq (FaultAction.delay a) (FaultAction.delay b) = eqb a b
action_beq (FaultAction.reorder a) (FaultAction.reorder b) = eqb a b
action_beq _ _ = false

abbrev option_beq : Option ℕ → Option ℕ → Bool
option_beq none none = true
option_beq (some a) (some b) = eqb a b
option_beq _ _ = false

module _ {V : Type 0} (host : Host V) where
  unfoldable pub event_beq : EventKind V → EventKind V → Bool
  event_beq (EventKind.spawn a b s) (EventKind.spawn a' b' s') =
      (a == a') && ((b == b') && (s == s'))
  event_beq (EventKind.send a b c p) (EventKind.send a' b' c' p') =
      (a == a') && ((b == b') && ((c == c') && host.value_beq p p'))
  event_beq (EventKind.deliver a b c) (EventKind.deliver a' b' c') =
      (a == a') && ((b == b') && (c == c'))
  event_beq (EventKind.timer_fired a b c) (EventKind.timer_fired a' b' c') =
      (a == a') && ((b == b') && (c == c'))
  event_beq (EventKind.net_recv a b c d p) (EventKind.net_recv a' b' c' d' p') =
      (a == a') && ((b == b') && ((c == c') && ((d == d') && host.value_beq p p')))
  event_beq (EventKind.net_send a b c d p) (EventKind.net_send a' b' c' d' p') =
      (a == a') && ((b == b') && ((c == c') && ((d == d') && host.value_beq p p')))
  event_beq (EventKind.log a b s t) (EventKind.log a' b' s' t') =
      (a == a') && ((b == b') && ((s == s') && (t == t')))
  event_beq (EventKind.effect_observed a b s t c d o)
        (EventKind.effect_observed a' b' s' t' c' d' o') =
      (a == a')
      && ((b == b') && ((s == s') && ((t == t') && ((c == c') && ((d == d') && (o == o'))))))
  event_beq (EventKind.fault_injected a b c d f) (EventKind.fault_injected a' b' c' d' f') =
      (a == a') && ((b == b') && ((c == c') && ((d == d') && action_beq f f')))
  event_beq (EventKind.fault_policy a b o c d) (EventKind.fault_policy a' b' o' c' d') =
      (a == a') && ((b == b') && (option_beq o o' && ((c == c') && (d == d'))))
  event_beq _ _ = false
