-- ===== src/Lang/Modules.antt =====
-- parse_module of crates/lang/src/parser.rs: services, states and handlers, line by line.
pub mod Flush
pub mod Whole
use unified_correctness_orie.Base.{
  ℕ, suc, ◌+◌, Bool, true, false, ◌||◌, not, Option, none, some, List, [], ◌∷◌, ◌++◌, eqb,
  if◌then◌else◌, length, ok, ◌>>=◌, ◌>>◌, ◌==◌, nat_eq, list_eq, list_beq,
}
use unified_correctness_orie.Base.Dict
use unified_correctness_orie.Base.Text.{Text, codes, parse_i64, trim, split, starts_with}
use unified_correctness_orie.Lang.Ast.{
  Module, ServiceDecl, StateDecl, HandlerDecl, HandlerEffect, effect_eq,
}
use unified_correctness_orie.Lang.Errors.{
  Parsed, Message, fail, check, service_form, state_after_handler, handler_form, duplicate_effects,
  effects_after_actions, no_services, outside_service, outside_handler, no_actions, missing_effects,
  state_form, bad_initial, effects_form, unknown_effect, no_effects, panicked,
}
use unified_correctness_orie.Lang.Tokens.{tokenize}
use unified_correctness_orie.Lang.Actions.{parse_action, or_error}

-- `str::lines`: without the line ends, and without an empty last piece.
strip_return : Text → Text
strip_return [] = []
strip_return (c ∷ []) = if eqb c 13 then [] else c ∷ []
strip_return (c ∷ d ∷ cs) = c ∷ strip_return (d ∷ cs)

abbrev keep_lines : List Text → List Text
keep_lines [] = []
keep_lines ([] ∷ []) = []
keep_lines (l ∷ []) = l ∷ []
keep_lines (l ∷ m ∷ ls) = strip_return l ∷ keep_lines (m ∷ ls)

unfoldable pub lines : Text → List Text
unfolding split strip_return
lines src = keep_lines (split 10 src)

-- The parser's variables.
pub record State : Type 0 where
  pub services : List ServiceDecl
  pub current_service : Option ServiceDecl
  pub current_handler : Option HandlerDecl

abbrev pub is_nil {ℓ} : {A : Type ℓ} → List A → Bool
is_nil [] = true
is_nil (x ∷ xs) = false

abbrev pub is_some {ℓ} : {A : Type ℓ} → Option A → Bool
is_some none = false
is_some (some a) = true

unfoldable pub ensure_service : State → ℕ → Parsed (Unit {0})
ensure_service s line = check (is_some s.current_service) line outside_service

unfoldable pub ensure_handler : State → ℕ → Parsed (Unit {0})
unfolding ensure_service
ensure_handler s line = do
  ensure_service s line
  check (is_some s.current_handler) line outside_handler

abbrev pub add_handler : Option ServiceDecl → HandlerDecl → ℕ → Parsed ServiceDecl
add_handler none h line = fail line panicked
add_handler (some service) h line = ok (record service { handlers = service.handlers ++ h ∷ [] })

abbrev pub flush_some : HandlerDecl → State → ℕ → Parsed State
flush_some h s line = do
  check (not (is_nil h.actions)) line no_actions
  check (not (is_nil h.effects)) line missing_effects
  service ← add_handler s.current_service h line
  ok (record s { current_service = some service; current_handler = none })

unfoldable pub flush_handler : State → ℕ → Parsed State
flush_handler s line = elim s.current_handler [ none ↦ ok s | some h ↦ flush_some h s line ]

unfoldable pub flush_service : State → State
flush_service s = elim s.current_service [
  | none ↦ s
  | some service ↦ record s { services = s.services ++ service ∷ []; current_service = none }
]

state_of : List Text → ℕ → Parsed StateDecl
unfolding list_beq
state_of (keyword ∷ name ∷ equals ∷ raw ∷ []) line_no = do
  check (equals == codes "=") line_no state_form
  initial ← or_error (parse_i64 raw) line_no bad_initial
  ok (record { name = name; initial = initial })
state_of _ line_no = fail line_no state_form

unfoldable pub parse_state_decl : Text → ℕ → Parsed StateDecl
unfolding state_of
parse_state_decl line line_no = do toks ← tokenize line line_no; state_of toks line_no

unfoldable pub effect_of : Text → ℕ → Parsed HandlerEffect
unfolding list_beq
effect_of name line_no =
    if name == codes "log"
    then ok HandlerEffect.log
    else if name == codes "state_read"
    then ok HandlerEffect.state_read
    else if name == codes "state_write"
    then ok HandlerEffect.state_write
    else if name == codes "send_local"
    then ok HandlerEffect.send_local
    else if name == codes "send_remote"
    then ok HandlerEffect.send_remote
    else if name == codes "timer_local"
    then ok HandlerEffect.timer_local
    else if name == codes "timer_remote"
    then ok HandlerEffect.timer_remote
    else fail line_no unknown_effect

-- The loop over the parts of one token.
unfoldable pub parse_parts : List HandlerEffect → List Text → ℕ → Parsed (List HandlerEffect)
unfolding effect_of
parse_parts out [] line_no = ok out
parse_parts out (part ∷ parts) line_no =
    let skipped = parse_parts out parts line_no in
    let read = effect_of (trim part) line_no >>= λ effect.
    parse_parts (if Dict.contains out effect then out else out ++ effect ∷ []) parts line_no in
    if is_nil (trim part) then skipped else read

unfoldable pub parse_effect_tokens :
    List HandlerEffect → List Text → ℕ → Parsed (List HandlerEffect)
unfolding parse_parts
parse_effect_tokens out [] line_no = ok out
parse_effect_tokens out (raw ∷ toks) line_no = do
  out' ← parse_parts out (split b',' raw) line_no
  parse_effect_tokens out' toks line_no

abbrev effects_of : List Text → ℕ → Parsed (List HandlerEffect)
effects_of (keyword ∷ raw ∷ toks) line_no = parse_effect_tokens [] (raw ∷ toks) line_no
effects_of _ line_no = fail line_no effects_form

unfoldable pub parse_effects_decl : Text → ℕ → Parsed (List HandlerEffect)
unfolding parse_effect_tokens
parse_effects_decl line line_no = do
  toks ← tokenize line line_no
  out ← effects_of toks line_no
  check (not (is_nil out)) line_no no_effects
  ok out

-- The name in a line of two tokens.
abbrev pub second : List Text → ℕ → Message → Parsed Text
second (keyword ∷ name ∷ []) line_no message = ok name
second _ line_no message = fail line_no message

unfoldable pub service_line : Text → ℕ → State → Parsed State
service_line line line_no s = do
  flushed ← flush_handler s line_no
  toks ← tokenize line line_no
  name ← second toks line_no service_form
  let started : ServiceDecl = record { name = name; states = []; handlers = [] }
  ok (record (flush_service flushed) { current_service = some started })

unfoldable pub state_line : Text → ℕ → State → Parsed State
unfolding ensure_service parse_state_decl
state_line line line_no s = do
  ensure_service s line_no
  check (not (is_some s.current_handler)) line_no state_after_handler
  decl ← parse_state_decl line line_no
  service ← or_error s.current_service line_no panicked
  ok (record s { current_service = some (record service { states = service.states ++ decl ∷ [] }) })

unfoldable pub handler_line : Text → ℕ → State → Parsed State
unfolding ensure_service
handler_line line line_no s = do
  ensure_service s line_no
  flushed ← flush_handler s line_no
  toks ← tokenize line line_no
  name ← second toks line_no handler_form
  let started : HandlerDecl = record { on = name; effects = []; actions = [] }
  ok (record flushed { current_handler = some started })

unfoldable pub effects_line : Text → ℕ → HandlerDecl → State → Parsed State
unfolding parse_effects_decl
effects_line line line_no h s = do
  check (is_nil h.effects) line_no duplicate_effects
  check (is_nil h.actions) line_no effects_after_actions
  effects ← parse_effects_decl line line_no
  ok (record s { current_handler = some (record h { effects = effects }) })

unfoldable pub action_line : Text → ℕ → HandlerDecl → State → Parsed State
unfolding parse_action
action_line line line_no h s = do
  action ← parse_action line line_no 0
  ok (record s { current_handler = some (record h { actions = h.actions ++ action ∷ [] }) })

-- One round of the loop, on a trimmed line.
unfoldable pub parse_line : Text → ℕ → State → Parsed State
unfolding ensure_handler starts_with
parse_line line line_no s =
    if is_nil line || (starts_with (codes "//") line || starts_with (codes "#") line)
    then ok s
    else if starts_with (codes "service ") line
    then service_line line line_no s
    else if starts_with (codes "state ") line
    then state_line line line_no s
    else if starts_with (codes "on ") line
    then handler_line line line_no s
    else (do
      ensure_handler s line_no
      h ← or_error s.current_handler line_no panicked
      (if starts_with (codes "effects ") line
          then effects_line line line_no h s
          else action_line line line_no h s))

unfoldable pub parse_lines : List Text → ℕ → State → Parsed State
unfolding trim
parse_lines [] line_no s = ok s
parse_lines (raw ∷ rest) line_no s = do
  s' ← parse_line (trim raw) line_no s
  parse_lines rest (line_no + 1) s'

unfoldable pub parse_module : Text → Parsed Module
unfolding lines
parse_module src = do
  s ←
      parse_lines (lines src) 1
        (record { services = []; current_service = none; current_handler = none })
  flushed ← flush_handler s (suc (length (lines src)))
  let done = flush_service flushed
  check (not (is_nil done.services)) 1 no_services
  ok (record { services = done.services })
