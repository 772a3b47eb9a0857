-- ===== src/Lang/Modules/Flush.antt =====
-- What the parser's variables keep when a handler or a service ends (flush_handler and flush_service
-- of crates/lang/src/parser.rs).
use unified_correctness_orie.Base.{
  ℕ, ◌≡◌, false, not, Option, none, some, [], ◌∷◌, All, All-append, ok, ok-injective, Option-cases,
  inl, inr, subst, Holds, >>=-Holds,
}
use unified_correctness_orie.Lang.Actions.{or_error}
use unified_correctness_orie.Lang.Actions.Bounds.{IsWritable}
use unified_correctness_orie.Lang.Ast.{ServiceDecl, HandlerDecl}
use unified_correctness_orie.Lang.Errors.{check, check-ok, Message}
use unified_correctness_orie.Lang.Modules.{State, is_nil, add_handler, flush_handler, flush_service}

-- A handler that declares an effect and has an action, with its actions in their bounds.
abbrev pub Whole : HandlerDecl → Type 0
Whole h = (is_nil h.effects ≡ false) × (is_nil h.actions ≡ false) × All IsWritable h.actions

abbrev pub HasWhole : ServiceDecl → Type 0
HasWhole service = All Whole service.handlers

abbrev pub CurrentWhole : Option ServiceDecl → Type 0
CurrentWhole none = Unit
CurrentWhole (some service) = HasWhole service

abbrev pub CurrentActions : Option HandlerDecl → Type 0
CurrentActions none = Unit
CurrentActions (some h) = All IsWritable h.actions

abbrev pub Keeps : State → Type 0
Keeps s =
    All HasWhole s.services × CurrentWhole s.current_service × CurrentActions s.current_handler

add_handler-HasWhole :
    (o : Option ServiceDecl) (h : HandlerDecl) (line : ℕ) (service : ServiceDecl)
    → CurrentWhole o
    → Whole h
    → add_handler o h line ≡ ok service
    → HasWhole service
add_handler-HasWhole none h line service k w e = cc
add_handler-HasWhole (some current) h line service k w e =
    subst HasWhole (ok-injective e) (All-append Whole current.handlers (h ∷ []) k (w, tt))

pub flush_handler-Holds : (s : State) (line : ℕ) → Keeps s → Holds Keeps (flush_handler s line)
unfolding flush_handler
flush_handler-Holds s line k = elim (Option-cases s.current_handler) [
  | inl n ↦ rw n (k.0, k.1, tt)
  | inr (h, e) ↦ rw e (
      >>=-Holds Keeps (check (not (is_nil h.actions)) line _) _ (λ _ c₁.
        >>=-Holds Keeps (check (not (is_nil h.effects)) line _) _ (λ _ c₂.
          >>=-Holds Keeps (add_handler s.current_service h line) _ (λ service c₃. (
            k.0,
            add_handler-HasWhole s.current_service h line service k.1
                (check-ok _ _ _ c₂, check-ok _ _ _ c₁, subst CurrentActions e k.2) c₃,
            tt,
          )))))
]

pub flush_service-HasWhole : (s : State) → Keeps s → All HasWhole (flush_service s).services
unfolding flush_service
flush_service-HasWhole s k = elim (Option-cases s.current_service) [
  | inl n ↦ rw n (k.0)
  | inr (service, e) ↦
      rw e (All-append HasWhole s.services (service ∷ []) k.0 (subst CurrentWhole e k.1, tt))
]

pub flush_service-CurrentActions :
    (s : State) → Keeps s → CurrentActions (flush_service s).current_handler
unfolding flush_service
flush_service-CurrentActions s k = elim (Option-cases s.current_service) [
  | inl n ↦ rw n (k.2)
  | inr (service, e) ↦ rw e (k.2)
]

pub or_error-CurrentActions :
    (o : Option HandlerDecl) (n : ℕ) (m : Message) (h : HandlerDecl)
    → CurrentActions o
    → or_error o n m ≡ ok h
    → All IsWritable h.actions
or_error-CurrentActions none n m h k e = cc
or_error-CurrentActions (some g) n m h k e =
    subst (λ d. All IsWritable d.actions) (ok-injective e) k

pub or_error-HasWhole :
    (o : Option ServiceDecl) (n : ℕ) (m : Message) (service : ServiceDecl)
    → CurrentWhole o
    → or_error o n m ≡ ok service
    → HasWhole service
or_error-HasWhole none n m service k e = cc
or_error-HasWhole (some current) n m service k e = subst HasWhole (ok-injective e) k
