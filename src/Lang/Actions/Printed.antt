-- ===== src/Lang/Actions/Printed.antt =====
-- The tokens of an action, and what the parser of crates/lang/src/parser.rs makes of them.
use unified_correctness_orie.Base.{
  ℕ, map, All, ap, ◌>>=◌, ◌+◌, ◌<◌, ◌≡◌, refl, ◌∙◌, true, false, List, [], ◌∷◌, ◌++◌, eqb, ltb,
  length, arith, ok, list_eq, list_beq, IsI64, u64_mod, lt→ltb, ℤ, if◌then◌else◌, ◌==◌, nat_eq,
}
use unified_correctness_orie.Base.Text.{Text, codes, decimal, starts_with, join_spaces}
use unified_correctness_orie.Base.Text.Numbers.{int_text, parse_i64-int_text, parse_u64-decimal}
use unified_correctness_orie.Lang.Ast.{ActionDecl, RemoteTarget}
use unified_correctness_orie.Lang.Errors.{Parsed}
use unified_correctness_orie.Lang.Tokens.{tokenize}
use unified_correctness_orie.Lang.Tokens.Quoted.{quote, IsFilled, tokenize-quoted}
use unified_correctness_orie.Lang.Actions.Bounds.{IsTarget, IsWritable}
use unified_correctness_orie.Lang.Actions.{
  parse_log, parse_set_state, parse_inc_state, parse_remote_target, parse_remote_timer,
  parse_scoped_timer, parse_timer_local, parse_remote_send, parse_send, parse_if_state_eq,
  parse_plain, parse_action_tokens, parse_action,
}

abbrev pub target_text : RemoteTarget → Text
target_text RemoteTarget.peers = codes "peers"
target_text RemoteTarget.sender = codes "sender"
target_text (RemoteTarget.node name) = codes "node:" ++ name

-- The tokens of an action, as a program writes them; a template is one token.
abbrev action_tokens : ActionDecl → List Text
action_tokens (ActionDecl.log template) = codes "log" ∷ (template ∷ [])
action_tokens (ActionDecl.set_state key value) = codes "set" ∷ (key ∷ (int_text value ∷ []))
action_tokens (ActionDecl.inc_state key by) = codes "inc" ∷ (key ∷ (int_text by ∷ []))
action_tokens (ActionDecl.timer_local steps service message template) =
    codes "timer" ∷ (decimal steps ∷ (codes "local" ∷ (service ∷ (message ∷ (template ∷ [])))))
action_tokens (ActionDecl.timer_remote steps target service message template) =
    codes "timer"
    ∷ (decimal steps
        ∷ (codes "remote" ∷ (target_text target ∷ (service ∷ (message ∷ (template ∷ []))))))
action_tokens (ActionDecl.send_local service message template) =
    codes "send" ∷ (codes "local" ∷ (service ∷ (message ∷ (template ∷ []))))
action_tokens (ActionDecl.send_remote target service message template) =
    codes "send" ∷ (codes "remote" ∷ (target_text target ∷ (service ∷ (message ∷ (template ∷ [])))))
action_tokens (ActionDecl.if_state_eq key value then_action) =
    codes "if" ∷ (key ∷ (codes "==" ∷ (int_text value ∷ action_tokens then_action)))

parse_remote_target-text :
    (target : RemoteTarget) (line : ℕ)
    → IsTarget target
    → parse_remote_target (target_text target) line ≡ ok target
unfolding parse_remote_target list_beq starts_with
parse_remote_target-text RemoteTarget.peers line h = refl
parse_remote_target-text RemoteTarget.sender line h = refl
parse_remote_target-text (RemoteTarget.node name) line h =
    let longer : ltb 5 (length (codes "node:" ++ name)) ≡ true = lt→ltb _ _ (omega arith) in
    rw longer refl

-- The tokens behind `timer <steps>`, once the number is read.
timer_read :
    (steps line : ℕ) (scope a b : Text) (rest : List Text)
    → 0 < steps
    → steps < u64_mod
    → parse_timer_local (decimal steps ∷ (scope ∷ (a ∷ (b ∷ rest)))) line ≡ (
        if scope == codes "remote"
        then parse_remote_timer steps (a ∷ (b ∷ rest)) line
        else if scope == codes "local"
        then parse_scoped_timer steps (a ∷ (b ∷ rest)) line
        else ok (ActionDecl.timer_local steps scope a (join_spaces (b ∷ rest))))
unfolding parse_timer_local
timer_read steps line scope a b rest h k =
    let positive : eqb steps 0 ≡ false = ground arith in
    rw (parse_u64-decimal steps k, positive) refl

if_read :
    (key : Text) (value : ℤ) (a : ActionDecl) (toks : List Text) (nested : Parsed ActionDecl)
    (line : ℕ)
    → IsI64 value
    → 0 < length toks
    → nested ≡ ok a
    → parse_if_state_eq key (codes "==") (int_text value) toks nested line
      ≡ ok (ActionDecl.if_state_eq key value a)
unfolding parse_if_state_eq list_beq
if_read key value a [] nested line h long e = absurd (omega arith)
if_read key value a (t ∷ toks) nested line h long e = rw (parse_i64-int_text value h, e) refl

action_tokens-length : (a : ActionDecl) → 0 < length (action_tokens a)
action_tokens-length (ActionDecl.log t) = omega arith
action_tokens-length (ActionDecl.set_state k v) = omega arith
action_tokens-length (ActionDecl.inc_state k v) = omega arith
action_tokens-length (ActionDecl.timer_local n s m t) = omega arith
action_tokens-length (ActionDecl.timer_remote n r s m t) = omega arith
action_tokens-length (ActionDecl.send_local s m t) = omega arith
action_tokens-length (ActionDecl.send_remote r s m t) = omega arith
action_tokens-length (ActionDecl.if_state_eq k v a) = omega arith

-- The parser makes of the tokens of an action this action.
parse_action_tokens-action_tokens :
    (a : ActionDecl) (line depth : ℕ)
    → IsWritable a
    → parse_action_tokens (action_tokens a) line depth ≡ ok a
unfolding parse_action_tokens parse_plain parse_log parse_set_state parse_inc_state parse_send
    parse_remote_send parse_remote_timer parse_scoped_timer join_spaces list_beq
parse_action_tokens-action_tokens (ActionDecl.log template) line depth h = refl
parse_action_tokens-action_tokens (ActionDecl.set_state key value) line depth h =
    rw (parse_i64-int_text value h) refl
parse_action_tokens-action_tokens (ActionDecl.inc_state key by) line depth h =
    rw (parse_i64-int_text by h) refl
parse_action_tokens-action_tokens (ActionDecl.timer_local steps service message template) line depth
      h =
    timer_read steps line (codes "local") service message (template ∷ []) (h.0) (h.1)
parse_action_tokens-action_tokens (ActionDecl.timer_remote steps target service message template)
      line depth h =
    timer_read steps line (codes "remote") (target_text target) service (message ∷ (template ∷ []))
      (h.0) (h.1)
    ∙ (rw (parse_remote_target-text target line (h.2)) refl)
parse_action_tokens-action_tokens (ActionDecl.send_local service message template) line depth h =
    refl
parse_action_tokens-action_tokens (ActionDecl.send_remote target service message template) line
      depth h =
    rw (parse_remote_target-text target line h) refl
parse_action_tokens-action_tokens (ActionDecl.if_state_eq key value then_action) line depth h =
    if_read key value then_action (action_tokens then_action) _ line (h.0)
      (action_tokens-length then_action)
      (parse_action_tokens-action_tokens then_action line (depth + 1) (h.1))

-- The line of an action: its tokens, each in quotes.
abbrev pub quoted_line : ActionDecl → Text
quoted_line a = join_spaces (map quote (action_tokens a))

-- No text of the action is empty.
abbrev pub IsNamed : ActionDecl → Type 0
IsNamed a = All IsFilled (action_tokens a)

tokenize-joined :
    (toks : List Text) (line : ℕ)
    → 0 < length toks
    → All IsFilled toks
    → tokenize (join_spaces (map quote toks)) line ≡ ok toks
tokenize-joined [] line h filled = absurd (omega arith)
tokenize-joined (t ∷ ts) line h filled = tokenize-quoted t ts line filled

-- The parser makes of the line of an action, its tokens in quotes, this action, when its numbers
-- are in the ranges of their types, its timers have a step, and no text in it is empty.
pub parse_action-quoted_line :
    (a : ActionDecl) (line : ℕ)
    → IsWritable a
    → IsNamed a
    → parse_action (quoted_line a) line 0 ≡ ok a
unfolding parse_action
parse_action-quoted_line a line h named =
    ap (λ r. r >>= λ toks. parse_action_tokens toks line 0)
      (tokenize-joined (action_tokens a) line (action_tokens-length a) named)
    ∙ parse_action_tokens-action_tokens a line 0 h
