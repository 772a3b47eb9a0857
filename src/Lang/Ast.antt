-- ===== src/Lang/Ast.antt =====
-- crates/lang/src/ast.rs: the syntax tree of a service program.
use unified_correctness_orie.Base.{ℕ, List, Bool, true, ◌≡◌, ◌↔◌, Eq, eqb, arith, ℤ}
use unified_correctness_orie.Base.Text.{Text}

pub data HandlerEffect : Type 0 where
  log state_read state_write send_local send_remote timer_local timer_remote : HandlerEffect

-- The order that the source derives from the order of the variants.
unfoldable pub rank : HandlerEffect → ℕ
rank log = 0
rank state_read = 1
rank state_write = 2
rank send_local = 3
rank send_remote = 4
rank timer_local = 5
rank timer_remote = 6

pub data RemoteTarget : Type 0 where
  peers sender : RemoteTarget
  node : Text → RemoteTarget

pub data ActionDecl : Type 0 where
  log : (template : Text) → ActionDecl
  set_state : (key : Text) (value : ℤ) → ActionDecl
  inc_state : (key : Text) (by : ℤ) → ActionDecl
  timer_local : (steps : ℕ) (service message template : Text) → ActionDecl
  timer_remote : (steps : ℕ) (target : RemoteTarget) (service message template : Text) → ActionDecl
  send_local : (service message template : Text) → ActionDecl
  send_remote : (target : RemoteTarget) (service message template : Text) → ActionDecl
  if_state_eq : (key : Text) (value : ℤ) (then_action : ActionDecl) → ActionDecl

pub record StateDecl : Type 0 where
  pub name : Text
  pub initial : ℤ

pub record HandlerDecl : Type 0 where
  pub on : Text
  pub effects : List HandlerEffect
  pub actions : List ActionDecl

pub record ServiceDecl : Type 0 where
  pub name : Text
  pub states : List StateDecl
  pub handlers : List HandlerDecl

pub record Module : Type 0 where
  pub services : List ServiceDecl

abbrev pub effect_beq : HandlerEffect → HandlerEffect → Bool
effect_beq a b = eqb (rank a) (rank b)

pub rank-injective : (a b : HandlerEffect) → rank a ≡ rank b → a ≡ b
unfolding rank
rank-injective a b h = ground arith

pub effect_beq_iff : (a b : HandlerEffect) → (effect_beq a b ≡ true) ↔ (a ≡ b)
effect_beq_iff a b = ground (arith, rank-injective a b)

instance abbrev pub effect_eq : Eq HandlerEffect
effect_eq = record { beq = effect_beq; beq_iff = effect_beq_iff }
