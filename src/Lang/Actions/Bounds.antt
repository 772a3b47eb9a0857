-- ===== src/Lang/Actions/Bounds.antt =====
-- What the parser of crates/lang/src/parser.rs accepts as an action.
use unified_correctness_orie.Base.{
  ℕ, ◌+◌, ◌<◌, ◌≡◌, Bool, true, false, ◌&&◌, not, Option, none, some, List, [], ◌∷◌, eqb, ltb, leb,
  length, drop, length-drop, ℤ, arith, ok, IsI64, u64_mod, ltb→lt, Holds, >>=-Holds, ok-Holds,
  if◌then◌else◌, ◌==◌, nat_eq, list_eq, Bool-cases, inl, inr,
}
use unified_correctness_orie.Base.Text.{Text, codes, parse_u64, parse_i64, starts_with}
use unified_correctness_orie.Base.Text.Numbers.{parse_i64-IsI64, parse_u64-lt}
use unified_correctness_orie.Lang.Ast.{ActionDecl, RemoteTarget}
use unified_correctness_orie.Lang.Errors.{
  Parsed, Message, fail, check, check-ok, bad_integer, bad_steps, zero_steps, depth_exceeded,
  bad_remote_target, if_operator,
}
use unified_correctness_orie.Lang.Tokens.{tokenize}
use unified_correctness_orie.Lang.Actions.{
  or_error, prefix, parse_log, parse_set_state, parse_inc_state, parse_remote_target,
  parse_remote_timer, parse_scoped_timer, parse_timer_local, parse_remote_send, parse_send,
  parse_if_state_eq, parse_plain, parse_action_tokens, parse_action,
}

-- A node's text is not empty.
abbrev pub IsTarget : RemoteTarget → Type 0
IsTarget (RemoteTarget.node name) = 0 < length name
IsTarget _ = Unit

-- Numbers are in the ranges of their types, timers have a step, and nodes have a text.
abbrev pub IsWritable : ActionDecl → Type 0
IsWritable (ActionDecl.set_state key value) = IsI64 value
IsWritable (ActionDecl.inc_state key by) = IsI64 by
IsWritable (ActionDecl.timer_local steps service message template) = (0 < steps) × (steps < u64_mod)
IsWritable (ActionDecl.timer_remote steps target service message template) =
    (0 < steps) × (steps < u64_mod) × IsTarget target
IsWritable (ActionDecl.send_remote target service message template) = IsTarget target
IsWritable (ActionDecl.if_state_eq key value then_action) = IsI64 value × IsWritable then_action
IsWritable _ = Unit

abbrev Good : Parsed ActionDecl → Type 0
Good = Holds IsWritable

if-Good : (b : Bool) (x y : Parsed ActionDecl) → Good x → Good y → Good (if b then x else y)
if-Good true x y h k = h
if-Good false x y h k = k

or_error-ok :
    {A : Type 0} (o : Option A) (line : ℕ) (m : Message) (a : A)
    → or_error o line m ≡ ok a
    → o ≡ some a
or_error-ok none line m a h = cc
or_error-ok (some b) line m a h = cc

or_error-IsI64 :
    (raw : Text) (line : ℕ) (z : ℤ) → or_error (parse_i64 raw) line bad_integer ≡ ok z → IsI64 z
or_error-IsI64 raw line z h = parse_i64-IsI64 raw (or_error-ok (parse_i64 raw) line bad_integer z h)

parse_log-Good : (toks : List Text) (line : ℕ) → Good (parse_log toks line)
unfolding parse_log
parse_log-Good [] line = tt
parse_log-Good (t ∷ toks) line = tt

parse_set_state-Good : (toks : List Text) (line : ℕ) → Good (parse_set_state toks line)
unfolding parse_set_state
parse_set_state-Good [] line = tt
parse_set_state-Good (key ∷ []) line = tt
parse_set_state-Good (key ∷ raw ∷ []) line =
    >>=-Holds IsWritable (or_error (parse_i64 raw) line bad_integer) _ (or_error-IsI64 raw line)
parse_set_state-Good (key ∷ raw ∷ t ∷ toks) line = tt

parse_inc_state-Good : (toks : List Text) (line : ℕ) → Good (parse_inc_state toks line)
unfolding parse_inc_state
parse_inc_state-Good [] line = tt
parse_inc_state-Good (key ∷ []) line = omega arith
parse_inc_state-Good (key ∷ raw ∷ []) line =
    >>=-Holds IsWritable (or_error (parse_i64 raw) line bad_integer) _ (or_error-IsI64 raw line)
parse_inc_state-Good (key ∷ raw ∷ t ∷ toks) line = tt

node_read :
    (raw : Text) (line : ℕ) (b : Bool)
    → Holds IsTarget (
        if b && ltb (length prefix) (length raw)
        then ok (RemoteTarget.node (drop (length prefix) raw))
        else fail line bad_remote_target)
node_read raw line false = tt
node_read raw line true = elim (Bool-cases (ltb (length prefix) (length raw))) [
  | inl long ↦ rw long (omega (arith, ltb→lt _ _ long, length-drop (length prefix) raw))
  | inr short ↦ rw short tt
]

if-IsTarget :
    (b : Bool) (x y : Parsed RemoteTarget)
    → Holds IsTarget x
    → Holds IsTarget y
    → Holds IsTarget (if b then x else y)
if-IsTarget true x y h k = h
if-IsTarget false x y h k = k

parse_remote_target-IsTarget :
    (raw : Text) (line : ℕ) → Holds IsTarget (parse_remote_target raw line)
unfolding parse_remote_target
parse_remote_target-IsTarget raw line =
    if-IsTarget (raw == codes "peers") _ _ tt
      (if-IsTarget (raw == codes "sender") _ _ tt (node_read raw line (starts_with prefix raw)))

-- What `u64::parse` and the test of the steps leave.
steps_read :
    (raw : Text) (line steps : ℕ)
    → or_error (parse_u64 raw) line bad_steps ≡ ok steps
    → check (not (eqb steps 0)) line zero_steps ≡ ok tt
    → (0 < steps) × (steps < u64_mod)
steps_read raw line steps h k =
    let some_step = check-ok (eqb steps 0) line zero_steps k in
    (
      ground (arith, some_step),
      parse_u64-lt raw (or_error-ok (parse_u64 raw) line bad_steps steps h),
    )

module _ (steps : ℕ) (positive : 0 < steps) (small : steps < u64_mod) (line : ℕ) where
  parse_remote_timer-Good : (toks : List Text) → Good (parse_remote_timer steps toks line)
  unfolding parse_remote_timer
  parse_remote_timer-Good (raw ∷ service ∷ message ∷ t ∷ toks) =
      >>=-Holds IsWritable (parse_remote_target raw line) _ (λ target e.
        (positive, small, ok-Holds IsTarget _ target (parse_remote_target-IsTarget raw line) e))
  parse_remote_timer-Good [] = tt
  parse_remote_timer-Good (a ∷ []) = tt
  parse_remote_timer-Good (a ∷ b ∷ []) = tt
  parse_remote_timer-Good (a ∷ b ∷ c ∷ []) = tt

  parse_scoped_timer-Good : (toks : List Text) → Good (parse_scoped_timer steps toks line)
  unfolding parse_scoped_timer
  parse_scoped_timer-Good (service ∷ message ∷ t ∷ toks) = (positive, small)
  parse_scoped_timer-Good [] = tt
  parse_scoped_timer-Good (a ∷ []) = tt
  parse_scoped_timer-Good (a ∷ b ∷ []) = tt

parse_timer_local-Good : (toks : List Text) (line : ℕ) → Good (parse_timer_local toks line)
unfolding parse_timer_local
parse_timer_local-Good (raw ∷ scope ∷ a ∷ b ∷ rest) line =
    >>=-Holds IsWritable (or_error (parse_u64 raw) line bad_steps) _ (λ steps e.
      >>=-Holds IsWritable (check (not (eqb steps 0)) line zero_steps) _ (λ _ k.
        let (positive, small) = steps_read raw line steps e k in
        if-Good (scope == codes "remote") _ _
          (parse_remote_timer-Good steps positive small line (a ∷ b ∷ rest))
          (if-Good (scope == codes "local") _ _
            (parse_scoped_timer-Good steps positive small line (a ∷ b ∷ rest)) (positive, small))))
parse_timer_local-Good [] line = tt
parse_timer_local-Good (a ∷ []) line = tt
parse_timer_local-Good (a ∷ b ∷ []) line = tt
parse_timer_local-Good (a ∷ b ∷ c ∷ []) line = tt

parse_remote_send-Good : (toks : List Text) (line : ℕ) → Good (parse_remote_send toks line)
unfolding parse_remote_send
parse_remote_send-Good (raw ∷ service ∷ message ∷ t ∷ toks) line =
    >>=-Holds IsWritable (parse_remote_target raw line) _
      (λ target e. ok-Holds IsTarget _ target (parse_remote_target-IsTarget raw line) e)
parse_remote_send-Good [] line = tt
parse_remote_send-Good (a ∷ []) line = tt
parse_remote_send-Good (a ∷ b ∷ []) line = tt
parse_remote_send-Good (a ∷ b ∷ c ∷ []) line = tt

parse_send-Good : (toks : List Text) (line : ℕ) → Good (parse_send toks line)
unfolding parse_send
parse_send-Good (scope ∷ a ∷ b ∷ c ∷ rest) line =
    if-Good (scope == codes "local") _ _ tt
      (if-Good (scope == codes "remote") _ _ (parse_remote_send-Good (a ∷ b ∷ c ∷ rest) line) tt)
parse_send-Good [] line = tt
parse_send-Good (a ∷ []) line = tt
parse_send-Good (a ∷ b ∷ []) line = tt
parse_send-Good (a ∷ b ∷ c ∷ []) line = tt

parse_if_state_eq-Good :
    (key op raw : Text) (toks : List Text) (nested : Parsed ActionDecl) (line : ℕ)
    → Good nested
    → Good (parse_if_state_eq key op raw toks nested line)
unfolding parse_if_state_eq
parse_if_state_eq-Good key op raw [] nested line h = tt
parse_if_state_eq-Good key op raw (t ∷ toks) nested line h =
    >>=-Holds IsWritable (check (op == codes "==") line if_operator) _ (λ _ _.
      >>=-Holds IsWritable (or_error (parse_i64 raw) line bad_integer) _ (λ value e.
        >>=-Holds IsWritable nested _
          (λ a k. (or_error-IsI64 raw line value e, ok-Holds IsWritable nested a h k))))

parse_plain-Good : (head : Text) (args : List Text) (line : ℕ) → Good (parse_plain head args line)
unfolding parse_plain
parse_plain-Good head args line = if-Good (head == codes "log") _ _ (parse_log-Good args line) (
    if-Good (head == codes "set") _ _ (parse_set_state-Good args line) (
      if-Good (head == codes "inc") _ _ (parse_inc_state-Good args line) (
        if-Good (head == codes "timer") _ _ (parse_timer_local-Good args line) (
          if-Good (head == codes "send") _ _ (parse_send-Good args line)
            (if-Good (head == codes "if") _ _ tt tt)))))

parse_action_tokens-Good :
    (toks : List Text) (line depth : ℕ) → Good (parse_action_tokens toks line depth)
unfolding parse_action_tokens
parse_action_tokens-Good (head ∷ key ∷ op ∷ raw ∷ more) line depth =
    if-Good (head == codes "if") _ _
      (parse_if_state_eq-Good key op raw more _ line
        (parse_action_tokens-Good more line (depth + 1)))
      (parse_plain-Good head (key ∷ op ∷ raw ∷ more) line)
parse_action_tokens-Good [] line depth = tt
parse_action_tokens-Good (head ∷ []) line depth = parse_plain-Good head [] line
parse_action_tokens-Good (head ∷ a ∷ []) line depth = parse_plain-Good head (a ∷ []) line
parse_action_tokens-Good (head ∷ a ∷ b ∷ []) line depth = parse_plain-Good head (a ∷ b ∷ []) line

parse_action-Good : (text : Text) (line depth : ℕ) → Good (parse_action text line depth)
unfolding parse_action
parse_action-Good text line depth =
    >>=-Holds IsWritable (check (leb depth 8) line depth_exceeded) _ (λ _ _.
      >>=-Holds IsWritable (tokenize text line) _
        (λ toks _. parse_action_tokens-Good toks line depth))

-- An action that the parser accepts has its numbers in the ranges of their types, at least one
-- step in a timer, and a text in a node's place.
pub parse_action-IsWritable :
    (text : Text) (line depth : ℕ) (a : ActionDecl)
    → parse_action text line depth ≡ ok a
    → IsWritable a
parse_action-IsWritable text line depth a h =
    ok-Holds IsWritable (parse_action text line depth) a (parse_action-Good text line depth) h
