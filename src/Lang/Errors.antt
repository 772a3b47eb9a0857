-- ===== src/Lang/Errors.antt =====
-- ParseError of crates/lang/src/parser.rs: the line, and the message without its quoted texts.
use unified_correctness_orie.Base.{ℕ, Result, err, Bool, true, false, ok, not, ◌≡◌, refl}

pub data Message : Type 0 where
  service_form state_after_handler handler_form duplicate_effects effects_after_actions : Message
  no_services outside_service outside_handler no_actions missing_effects : Message
  state_form bad_initial effects_form unknown_effect no_effects : Message
  depth_exceeded empty_action unknown_action log_form set_form bad_integer inc_form : Message
  if_form if_operator timer_form bad_steps zero_steps remote_timer_form local_timer_form : Message
  send_incomplete remote_send_form unknown_scope bad_remote_target : Message
  unterminated_escape unterminated_quote : Message
  -- an `expect` that fails
  panicked : Message

pub record ParseError : Type 0 where
  pub line : ℕ
  pub message : Message

abbrev pub Parsed : Type 0 → Type 0
Parsed A = Result ParseError A

abbrev pub fail : {A : Type 0} → ℕ → Message → Parsed A
fail line message = err (record { line = line; message = message })

-- `return Err(...)` unless the test holds.
abbrev pub check : Bool → ℕ → Message → Parsed (Unit {0})
check true line message = ok tt
check false line message = fail line message

-- A negated test that passes is false.
pub check-ok : (b : Bool) (line : ℕ) (m : Message) → check (not b) line m ≡ ok tt → b ≡ false
check-ok true line m h = cc
check-ok false line m h = refl
