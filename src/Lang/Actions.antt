-- ===== src/Lang/Actions.antt =====
-- The parsing of actions from tokens (crates/lang/src/parser.rs).
pub mod Bounds
pub mod Printed
use unified_correctness_orie.Base.{
  ℕ, ◌+◌, ◌&&◌, not, Option, none, some, List, [], ◌∷◌, leb, ltb, eqb, if◌then◌else◌, length, drop,
  pos, ok, ◌>>=◌, ◌>>◌, ◌==◌, nat_eq, list_eq, list_beq,
}
use unified_correctness_orie.Base.Text.{Text, codes, parse_i64, parse_u64, join_spaces, starts_with}
use unified_correctness_orie.Lang.Ast.{ActionDecl, RemoteTarget}
use unified_correctness_orie.Lang.Errors.{
  Parsed, Message, fail, check, log_form, bad_integer, set_form, inc_form, if_form, if_operator,
  timer_form, bad_steps, zero_steps, remote_timer_form, local_timer_form, send_incomplete,
  remote_send_form, unknown_scope, bad_remote_target, empty_action, unknown_action, depth_exceeded,
}
use unified_correctness_orie.Lang.Tokens.{tokenize}

abbrev pub or_error : {A : Type 0} → Option A → ℕ → Message → Parsed A
or_error none line message = fail line message
or_error (some a) line message = ok a

-- Each function takes the tokens behind the action's keyword.
unfoldable pub parse_log : List Text → ℕ → Parsed ActionDecl
unfolding join_spaces
parse_log [] line_no = fail line_no log_form
parse_log (t ∷ toks) line_no = ok (ActionDecl.log (join_spaces (t ∷ toks)))

unfoldable pub parse_set_state : List Text → ℕ → Parsed ActionDecl
parse_set_state (key ∷ raw ∷ []) line_no = do
  value ← or_error (parse_i64 raw) line_no bad_integer
  ok (ActionDecl.set_state key value)
parse_set_state _ line_no = fail line_no set_form

unfoldable pub parse_inc_state : List Text → ℕ → Parsed ActionDecl
parse_inc_state (key ∷ []) line_no = ok (ActionDecl.inc_state key (pos 1))
parse_inc_state (key ∷ raw ∷ []) line_no = do
  by ← or_error (parse_i64 raw) line_no bad_integer
  ok (ActionDecl.inc_state key by)
parse_inc_state _ line_no = fail line_no inc_form

abbrev prefix : Text
prefix = codes "node:"

unfoldable pub parse_remote_target : Text → ℕ → Parsed RemoteTarget
unfolding list_beq starts_with
parse_remote_target raw line_no =
    if raw == codes "peers"
    then ok RemoteTarget.peers
    else if raw == codes "sender"
    then ok RemoteTarget.sender
    else if starts_with prefix raw && ltb (length prefix) (length raw)
    then ok (RemoteTarget.node (drop (length prefix) raw))
    else fail line_no bad_remote_target

parse_remote_timer : ℕ → List Text → ℕ → Parsed ActionDecl
unfolding parse_remote_target
parse_remote_timer steps (raw ∷ service ∷ message ∷ t ∷ toks) line_no = do
  target ← parse_remote_target raw line_no
  ok (ActionDecl.timer_remote steps target service message (join_spaces (t ∷ toks)))
parse_remote_timer steps _ line_no = fail line_no remote_timer_form

parse_scoped_timer : ℕ → List Text → ℕ → Parsed ActionDecl
parse_scoped_timer steps (service ∷ message ∷ t ∷ toks) line_no =
    ok (ActionDecl.timer_local steps service message (join_spaces (t ∷ toks)))
parse_scoped_timer steps _ line_no = fail line_no local_timer_form

unfoldable pub parse_timer_local : List Text → ℕ → Parsed ActionDecl
unfolding parse_remote_timer parse_scoped_timer list_beq join_spaces
parse_timer_local (raw ∷ scope ∷ a ∷ b ∷ rest) line_no = do
  steps ← or_error (parse_u64 raw) line_no bad_steps
  check (not (eqb steps 0)) line_no zero_steps
  (if scope == codes "remote"
      then parse_remote_timer steps (a ∷ b ∷ rest) line_no
      else if scope == codes "local"
      then parse_scoped_timer steps (a ∷ b ∷ rest) line_no
      else ok (ActionDecl.timer_local steps scope a (join_spaces (b ∷ rest))))
parse_timer_local _ line_no = fail line_no timer_form

parse_remote_send : List Text → ℕ → Parsed ActionDecl
unfolding parse_remote_target
parse_remote_send (raw ∷ service ∷ message ∷ t ∷ toks) line_no = do
  target ← parse_remote_target raw line_no
  ok (ActionDecl.send_remote target service message (join_spaces (t ∷ toks)))
parse_remote_send _ line_no = fail line_no remote_send_form

unfoldable pub parse_send : List Text → ℕ → Parsed ActionDecl
unfolding parse_remote_send list_beq join_spaces
parse_send (scope ∷ a ∷ b ∷ c ∷ rest) line_no =
    if scope == codes "local"
    then ok (ActionDecl.send_local a b (join_spaces (c ∷ rest)))
    else if scope == codes "remote"
    then parse_remote_send (a ∷ b ∷ c ∷ rest) line_no
    else fail line_no unknown_scope
parse_send _ line_no = fail line_no send_incomplete

-- `nested` is the action behind the comparison.
unfoldable pub parse_if_state_eq :
    Text → Text → Text → List Text → Parsed ActionDecl → ℕ → Parsed ActionDecl
unfolding list_beq
parse_if_state_eq key op raw [] nested line_no = fail line_no if_form
parse_if_state_eq key op raw (t ∷ toks) nested line_no = do
  check (op == codes "==") line_no if_operator
  value ← or_error (parse_i64 raw) line_no bad_integer
  then_action ← nested
  ok (ActionDecl.if_state_eq key value then_action)

-- Every action but `if`.
parse_plain : Text → List Text → ℕ → Parsed ActionDecl
unfolding parse_log parse_set_state parse_inc_state parse_timer_local parse_send
parse_plain head args line_no =
    if head == codes "log"
    then parse_log args line_no
    else if head == codes "set"
    then parse_set_state args line_no
    else if head == codes "inc"
    then parse_inc_state args line_no
    else if head == codes "timer"
    then parse_timer_local args line_no
    else if head == codes "send"
    then parse_send args line_no
    else if head == codes "if"
    then fail line_no if_form
    else fail line_no unknown_action

-- `depth` is passed on and, as in the source, not read.
unfoldable pub parse_action_tokens : List Text → ℕ → ℕ → Parsed ActionDecl
unfolding parse_plain parse_if_state_eq
parse_action_tokens [] line_no depth = fail line_no empty_action
parse_action_tokens (head ∷ key ∷ op ∷ raw ∷ more) line_no depth =
    let nested = parse_action_tokens more line_no (depth + 1) in
    if head == codes "if"
    then parse_if_state_eq key op raw more nested line_no
    else parse_plain head (key ∷ op ∷ raw ∷ more) line_no
parse_action_tokens (head ∷ args) line_no depth = parse_plain head args line_no

unfoldable pub parse_action : Text → ℕ → ℕ → Parsed ActionDecl
unfolding parse_action_tokens tokenize
parse_action line line_no depth = do
  check (leb depth 8) line_no depth_exceeded
  toks ← tokenize line line_no
  parse_action_tokens toks line_no depth
