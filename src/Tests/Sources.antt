-- ===== src/Tests/Sources.antt =====
-- The theorems about the parser, applied to a small source text.
use unified_correctness_orie.Base.{
  ◌≡◌, refl, false, [], ◌∷◌, ◌++◌, All, ok, list_beq, negsuc, arith,
}
use unified_correctness_orie.Base.Dict
use unified_correctness_orie.Base.Text.{Text, codes, decimal}
use unified_correctness_orie.Lang.Ast.{Module, ActionDecl, HandlerEffect, RemoteTarget}
use unified_correctness_orie.Lang.Actions.{parse_action}
use unified_correctness_orie.Lang.Actions.Printed.{quoted_line, IsNamed, parse_action-quoted_line}
use unified_correctness_orie.Lang.Modules.{
  is_nil, service_line, handler_line, effects_line, action_line, parse_line, parse_lines,
  parse_module, flush_handler, flush_service,
}
use unified_correctness_orie.Lang.Modules.Flush.{HasWhole}
use unified_correctness_orie.Lang.Modules.Whole.{parse_module-HasWhole}

abbrev source : Text
source =
    codes "service A" ++ 10 ∷ (codes "on M" ++ 10 ∷ (codes "effects log" ++ 10 ∷ codes "log hello"))

abbrev parsed : Module
parsed = record {
  services =
      record {
        name = codes "A";
        states = [];
        handlers =
            record {
              on = codes "M";
              effects = HandlerEffect.log ∷ [];
              actions = ActionDecl.log (codes "hello") ∷ [];
            }
            ∷ [];
      }
      ∷ [];
}

parses : parse_module source ≡ ok parsed
unfolding parse_module parse_lines parse_line service_line handler_line effects_line action_line
    flush_handler flush_service list_beq Dict.contains
parses = refl

parse_module-HasWhole_example : (is_nil parsed.services ≡ false) × All HasWhole parsed.services
parse_module-HasWhole_example = parse_module-HasWhole source parsed parses

-- A timer for one node, behind a comparison.
abbrev guarded : ActionDecl
guarded = ActionDecl.if_state_eq (codes "count") (negsuc 4) (
    ActionDecl.timer_remote 3 (RemoteTarget.node (codes "7")) (codes "A") (codes "M")
      (codes "again"))

named : IsNamed guarded
unfolding decimal
named = omega arith

parse_action-quoted_line_example : parse_action (quoted_line guarded) 4 0 ≡ ok guarded
parse_action-quoted_line_example =
    parse_action-quoted_line guarded 4 (omega arith, (omega arith, omega arith, omega arith)) named
