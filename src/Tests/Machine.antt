-- ===== src/Tests/Machine.antt =====
-- The theorems about the runtime, applied to a program of one service.
use mathlib.Core.List.Perm
use unified_correctness_orie.Base.{
  ◌≡◌, ◌≢◌, refl, some, List, [], ◌∷◌, arith, ℤ, pos, ok, list_eq, nat_eq, pair_eq, list_beq,
}
use unified_correctness_orie.Base.Dict
use unified_correctness_orie.Base.Dict.{Dict}
use unified_correctness_orie.Base.Text.{Text, replace}
use unified_correctness_orie.Lang.Ast.{Module, ActionDecl, HandlerEffect, rank}
use unified_correctness_orie.Runtime.Host.{RuntimeMessage}
use unified_correctness_orie.Runtime.Scheduler.{
  PendingDelivery, choose_next_deterministic, IsLeast, choose-IsLeast, choose-perm,
}
use unified_correctness_orie.Runtime.Ids.{
  next_deterministic_msg_id, next_deterministic_timer_id, msg_id-injective, timer_id-injective,
  msg_id-ne-timer_id,
}
use unified_correctness_orie.Runtime.Template.{render_template}
use unified_correctness_orie.Runtime.Actor
use unified_correctness_orie.Runtime.Actor.{ActorContext, new_context}
use unified_correctness_orie.Runtime.Program.{Program, load_program, effect_set, set_insert}
use unified_correctness_orie.Runtime.Actions.{execute_actions}
use unified_correctness_orie.Runtime.Contract.{Within, observed-Within-declared}
use unified_correctness_orie.Runtime.Totality.{Outcome, execute_actions-Outcome}
use unified_correctness_orie.Tests.{host, root_message}

abbrev early : PendingDelivery
early = record { node = 1; to = 2; msg_id = 3 }

abbrev late : PendingDelivery
late = record { node = 1; to = 2; msg_id = 4 }

chosen : choose_next_deterministic (late ∷ early ∷ []) ≡ some early
unfolding choose_next_deterministic
chosen = refl

choose-IsLeast_example : IsLeast early (late ∷ early ∷ [])
choose-IsLeast_example = choose-IsLeast (late ∷ early ∷ []) early chosen

choose-perm_example :
    choose_next_deterministic (late ∷ early ∷ []) ≡ choose_next_deterministic (early ∷ late ∷ [])
choose-perm_example = choose-perm (late ∷ early ∷ []) (early ∷ late ∷ []) (Perm.swap early late [])

msg_id-injective_example : (next_deterministic_msg_id 7 0).0 ≢ (next_deterministic_msg_id 7 1).0
msg_id-injective_example = msg_id-injective 7 0 1 (omega arith) (omega arith) (omega arith)

timer_id-injective_example :
    (next_deterministic_timer_id 7 0).0 ≢ (next_deterministic_timer_id 7 1).0
timer_id-injective_example = timer_id-injective 7 0 1 (omega arith) (omega arith) (omega arith)

msg_id-ne-timer_id_example : (next_deterministic_msg_id 7 1).0 ≢ (next_deterministic_timer_id 7 1).0
msg_id-ne-timer_id_example = msg_id-ne-timer_id 7 1 1 (omega arith) (omega arith)

-- service A { state x = 0; on M effects [state_read, log] { if x == 0 { log "T" } } }
abbrev the_actions : List ActionDecl
the_actions = ActionDecl.if_state_eq (120 ∷ []) (pos 0) (ActionDecl.log (84 ∷ [])) ∷ []

abbrev the_effects : List HandlerEffect
the_effects = HandlerEffect.state_read ∷ HandlerEffect.log ∷ []

abbrev the_module : Module
the_module = record {
  services =
      record {
        name = 65 ∷ [];
        states = record { name = 120 ∷ []; initial = pos 0 } ∷ [];
        handlers = record { on = 77 ∷ []; effects = the_effects; actions = the_actions } ∷ [];
      }
      ∷ [];
}

abbrev start : Dict Text ℤ
start = (120 ∷ [], pos 0) ∷ []

abbrev the_program : Program
the_program = record {
  services = (65 ∷ []) ∷ [];
  service_initial_state = (65 ∷ [], start) ∷ [];
  handlers =
      ((65 ∷ [], 77 ∷ []), record { actions = the_actions; declared_effects = the_effects }) ∷ [];
}

loaded : load_program host the_module ≡ ok the_program
unfolding load_program Dict.contains Dict.get Dict.insert list_beq rank
loaded = refl

abbrev both : List HandlerEffect
both = HandlerEffect.log ∷ HandlerEffect.state_read ∷ []

abbrev after : ActorContext RuntimeMessage
after = record {
  self_node = 1;
  outbox = [];
  logs = record { service = 65 ∷ []; text = 84 ∷ [] } ∷ [];
}

executed :
    execute_actions host the_program (65 ∷ []) 9 root_message [] start (new_context 1)
    ≡ ok (record { declared = both; observed = both }, start, after)
unfolding execute_actions Dict.get list_beq effect_set set_insert Actor.log rank render_template
    replace
executed = refl

has_state : Dict.get (65 ∷ []) the_program.service_initial_state ≡ some start
unfolding Dict.get list_beq
has_state = refl

observed-Within-declared_example : Within both both
observed-Within-declared_example =
    observed-Within-declared host the_module the_program loaded (65 ∷ []) 9 root_message [] start
      start (new_context 1) after (record { declared = both; observed = both }) executed

execute_actions-Outcome_example :
    Outcome start
      (execute_actions host the_program (65 ∷ []) 9 root_message [] start (new_context 1))
execute_actions-Outcome_example =
    execute_actions-Outcome host the_module the_program loaded (65 ∷ []) 9 root_message [] start
      start (new_context 1) has_state (λ k h. h)
