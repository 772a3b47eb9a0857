-- ===== src/Lang/Modules/Whole.antt =====
-- The handlers of a module that the parser accepts (parse_module of crates/lang/src/parser.rs).
use unified_correctness_orie.Base.{
  ℕ, ◌≡◌, Bool, true, false, not, ◌||◌, none, List, [], ◌∷◌, All, All-append, ok, ◌>>=◌, ◌>>◌,
  >>=-eq-ok, ok-injective, subst, suc, ◌+◌, length, if◌then◌else◌, ok-Holds,
}
use unified_correctness_orie.Base.Text.{Text, codes, starts_with, trim}
use unified_correctness_orie.Lang.Tokens.{tokenize}
use unified_correctness_orie.Lang.Actions.{or_error, parse_action}
use unified_correctness_orie.Lang.Actions.Bounds.{IsWritable, parse_action-IsWritable}
use unified_correctness_orie.Lang.Ast.{Module, HandlerDecl}
use unified_correctness_orie.Lang.Errors.{
  Parsed, check, check-ok, service_form, state_after_handler, panicked, handler_form,
  duplicate_effects, effects_after_actions, no_services,
}
use unified_correctness_orie.Lang.Modules.{
  State, is_nil, is_some, second, ensure_service, ensure_handler, parse_state_decl,
  parse_effects_decl, flush_handler, flush_service, service_line, state_line, handler_line,
  effects_line, action_line, parse_line, parse_lines, parse_module, lines,
}
use unified_correctness_orie.Lang.Modules.Flush.{
  HasWhole, Keeps, flush_handler-Holds, flush_service-HasWhole, flush_service-CurrentActions,
  or_error-CurrentActions, or_error-HasWhole,
}

module _ (line : Text) (n : ℕ) (s s' : State) (k : Keeps s) where
  either :
      (b : Bool) (x y : Parsed State)
      → (x ≡ ok s' → Keeps s')
      → (y ≡ ok s' → Keeps s')
      → (if b then x else y) ≡ ok s'
      → Keeps s'
  either true x y f g h = f h
  either false x y f g h = g h

  service_line-Keeps : service_line line n s ≡ ok s' → Keeps s'
  unfolding service_line
  service_line-Keeps h =
      let (flushed, e₁, h₁) = >>=-eq-ok (flush_handler s n) _ h in
      let (toks, e₂, h₂) = >>=-eq-ok (tokenize line n) _ h₁ in
      let (name, e₃, h₃) = >>=-eq-ok (second toks n service_form) _ h₂ in
      let kept = ok-Holds Keeps (flush_handler s n) flushed (flush_handler-Holds s n k) e₁ in
      subst Keeps (ok-injective h₃)
        (flush_service-HasWhole flushed kept, tt, flush_service-CurrentActions flushed kept)

  state_line-Keeps : state_line line n s ≡ ok s' → Keeps s'
  unfolding state_line
  state_line-Keeps h =
      let (_, e₁, h₁) = >>=-eq-ok (ensure_service s n) _ h in
      let (_, e₂, h₂) =
        >>=-eq-ok (check (not (is_some s.current_handler)) n state_after_handler) _ h₁ in
      let (decl, e₃, h₃) = >>=-eq-ok (parse_state_decl line n) _ h₂ in
      let (service, e₄, h₄) = >>=-eq-ok (or_error s.current_service n panicked) _ h₃ in
      subst Keeps (ok-injective h₄)
        (k.0, or_error-HasWhole s.current_service n panicked service k.1 e₄, k.2)

  handler_line-Keeps : handler_line line n s ≡ ok s' → Keeps s'
  unfolding handler_line
  handler_line-Keeps h =
      let (_, e₁, h₁) = >>=-eq-ok (ensure_service s n) _ h in
      let (flushed, e₂, h₂) = >>=-eq-ok (flush_handler s n) _ h₁ in
      let (toks, e₃, h₃) = >>=-eq-ok (tokenize line n) _ h₂ in
      let (name, e₄, h₄) = >>=-eq-ok (second toks n handler_form) _ h₃ in
      let kept = ok-Holds Keeps (flush_handler s n) flushed (flush_handler-Holds s n k) e₂ in
      subst Keeps (ok-injective h₄) (kept.0, kept.1, tt)

  effects_line-Keeps :
      (h : HandlerDecl) → All IsWritable h.actions → effects_line line n h s ≡ ok s' → Keeps s'
  unfolding effects_line
  effects_line-Keeps handler inside h =
      let (_, e₁, h₁) = >>=-eq-ok (check (is_nil handler.effects) n duplicate_effects) _ h in
      let (_, e₂, h₂) = >>=-eq-ok (check (is_nil handler.actions) n effects_after_actions) _ h₁ in
      let (effects, e₃, h₃) = >>=-eq-ok (parse_effects_decl line n) _ h₂ in
      subst Keeps (ok-injective h₃) (k.0, k.1, inside)

  action_line-Keeps :
      (h : HandlerDecl) → All IsWritable h.actions → action_line line n h s ≡ ok s' → Keeps s'
  unfolding action_line
  action_line-Keeps handler inside h =
      let (action, e₁, h₁) = >>=-eq-ok (parse_action line n 0) _ h in
      let readable = parse_action-IsWritable line n 0 action e₁ in
      subst Keeps (ok-injective h₁)
        (k.0, k.1, All-append IsWritable handler.actions (action ∷ []) inside (readable, tt))

  abbrev body : Parsed State
  body = do
    ensure_handler s n
    h ← or_error s.current_handler n panicked
    (if starts_with (codes "effects ") line
        then effects_line line n h s
        else action_line line n h s)

  body-Keeps : body ≡ ok s' → Keeps s'
  body-Keeps h =
      let (_, e₁, h₁) = >>=-eq-ok (ensure_handler s n) _ h in
      let (handler, e₂, h₂) = >>=-eq-ok (or_error s.current_handler n panicked) _ h₁ in
      let inside = or_error-CurrentActions s.current_handler n panicked handler k.2 e₂ in
      either (starts_with (codes "effects ") line) (effects_line line n handler s)
        (action_line line n handler s) (effects_line-Keeps handler inside)
        (action_line-Keeps handler inside) h₂

  abbrev from_on : Parsed State
  from_on = if starts_with (codes "on ") line then handler_line line n s else body

  abbrev from_state : Parsed State
  from_state = if starts_with (codes "state ") line then state_line line n s else from_on

  abbrev from_service : Parsed State
  from_service = if starts_with (codes "service ") line then service_line line n s else from_state

  parse_line-Keeps : parse_line line n s ≡ ok s' → Keeps s'
  unfolding parse_line
  parse_line-Keeps =
      either (is_nil line || (starts_with (codes "//") line || starts_with (codes "#") line)) (ok s)
        from_service (λ e. subst Keeps (ok-injective e) k)
        (either (starts_with (codes "service ") line) (service_line line n s) from_state
          service_line-Keeps
          (either (starts_with (codes "state ") line) (state_line line n s) from_on state_line-Keeps
            (either (starts_with (codes "on ") line) (handler_line line n s) body handler_line-Keeps
              body-Keeps)))

parse_lines-Keeps :
    (ls : List Text) (n : ℕ) (s s' : State) → Keeps s → parse_lines ls n s ≡ ok s' → Keeps s'
unfolding parse_lines
parse_lines-Keeps [] n s s' k h = subst Keeps (ok-injective h) k
parse_lines-Keeps (raw ∷ rest) n s s' k h =
    let (t, e, h₁) = >>=-eq-ok (parse_line (trim raw) n s) _ h in
    parse_lines-Keeps rest (n + 1) t s' (parse_line-Keeps (trim raw) n s t k e) h₁

-- A module that parse_module returns has a service, and each handler of its services declares an
-- effect and has an action; its actions have their numbers in the ranges of their types, at least
-- one step in a timer, and a text in a node's place.
pub parse_module-HasWhole :
    (src : Text) (m : Module)
    → parse_module src ≡ ok m
    → (is_nil m.services ≡ false) × All HasWhole m.services
unfolding parse_module
parse_module-HasWhole src m h =
    let start : State = record { services = []; current_service = none; current_handler = none } in
    let (s, e₁, h₁) = >>=-eq-ok (parse_lines (lines src) 1 start) _ h in
    let last = suc (length (lines src)) in
    let (flushed, e₂, h₂) = >>=-eq-ok (flush_handler s last) _ h₁ in
    let (_, e₃, h₃) =
      >>=-eq-ok (check (not (is_nil (flush_service flushed).services)) 1 no_services) _ h₂ in
    let kept = parse_lines-Keeps (lines src) 1 start s (tt, tt, tt) e₁ in
    let all =
      flush_service-HasWhole flushed
        (ok-Holds Keeps (flush_handler s last) flushed (flush_handler-Holds s last kept) e₂) in
    subst (λ r. (is_nil r.services ≡ false) × All HasWhole r.services) (ok-injective h₃)
      (check-ok _ _ _ e₃, all)
