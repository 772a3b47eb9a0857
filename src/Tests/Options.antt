-- ===== src/Tests/Options.antt =====
-- Command lines of the runtime, at which the theorems on its options are applied. A UUID is shown
-- as one character that no other text has.
use unified_correctness_orie.Base.{
  ◌+◌, ◌-◌, ◌≡◌, refl, true, false, Option, none, some, List, [], ◌∷◌, arith, ok,
}
use unified_correctness_orie.Base.Text.{Text, codes, split, parse_u64}
use unified_correctness_orie.Base.Dict.{get}
use unified_correctness_orie.Runtime.Event.{Uuid}
use unified_correctness_orie.Runtime.Host.{Host, IsLawful, RuntimeMessage}
use unified_correctness_orie.Runtime.Fault.{
  FaultPhase, parse_fault_phase_spec, sort_and_validate_phases,
}
use unified_correctness_orie.Runtime.Fault.Phases.{AreDisjoint}
use unified_correctness_orie.Runtime.Fault.Specs.{
  phase_spec, Fits, parse_fault_phase_spec-phase_spec,
}
use unified_correctness_orie.Runtime.Node.{Config, Mode}
use unified_correctness_orie.Runtime.CommandLine.{
  parse_config, parse_args, argument, apply_setting, apply_switch, number,
}
use unified_correctness_orie.Runtime.CommandLine.Printed.{parse_config-command_line}
use unified_correctness_orie.Runtime.CommandLine.Options.{command_line, ConfigFits, FaultFits}
use unified_correctness_orie.Runtime.CommandLine.Bounds.{parse_config-IsBounded}
use unified_correctness_orie.Runtime.CommandLine.Values.{IsBounded}
use unified_correctness_orie.Tests.{host, host-IsLawful}

abbrev read_wide : Text → Option Uuid
read_wide (u ∷ []) = some (u - 1000)
read_wide _ = none

abbrev wide_host : Host RuntimeMessage
wide_host = record host { uuid_text = λ u. (u + 1000) ∷ []; parse_uuid = read_wide }

read_back : (u : Uuid) → u + 1000 - 1000 ≡ u
read_back u = omega arith

wide_host-IsLawful : IsLawful wide_host
wide_host-IsLawful = record {
  decode-encode = host-IsLawful.decode-encode;
  value_beq_iff = host-IsLawful.value_beq_iff;
  parse-text = λ u h. rw (read_back u) refl;
}

abbrev closed_phase : FaultPhase
closed_phase = record {
  start_step = 0;
  end_step = some 9;
  policy = record { drop_every = none; delay_steps = 1; reorder_window = 2 };
}

abbrev open_phase : FaultPhase
open_phase = record {
  start_step = 10;
  end_step = none;
  policy = record { drop_every = some 3; delay_steps = 2; reorder_window = 4 };
}

closed_phase-Fits : Fits closed_phase
closed_phase-Fits = (omega arith, omega arith, tt, omega arith, omega arith, omega arith)

open_phase-Fits : Fits open_phase
open_phase-Fits =
    (omega arith, tt, (omega arith, omega arith), omega arith, omega arith, omega arith)

parse_fault_phase_spec-phase_spec_example :
    parse_fault_phase_spec (phase_spec open_phase) ≡ ok open_phase
parse_fault_phase_spec-phase_spec_example =
    parse_fault_phase_spec-phase_spec open_phase open_phase-Fits

abbrev chosen : Config
chosen = record {
  mode = Mode.replaying;
  trace_path = codes "t.jsonl";
  program_path = codes "p.uco";
  node_id = 7;
  listen = some (codes "a:1");
  peers = (8, codes "b=2") ∷ (9, codes "c:3") ∷ [];
  bootstrap_hello = true;
  bootstrap_burst = 12;
  steps = 340;
  idle_sleep_ms = 0;
  startup_wait_ms = 5;
  fault = record {
    drop_every = some 3;
    delay_steps = 0;
    reorder_window = 1;
    phases = closed_phase ∷ open_phase ∷ [];
  };
}

faults-FaultFits : FaultFits chosen.fault
faults-FaultFits = (
  (omega arith, omega arith),
  omega arith,
  omega arith,
  omega arith,
  (closed_phase-Fits, (open_phase-Fits, tt)),
  (omega arith, (omega arith, tt), (tt, tt, tt)),
)

chosen-ConfigFits : ConfigFits chosen
unfolding get
chosen-ConfigFits = (
  omega arith,
  omega arith,
  omega arith,
  omega arith,
  omega arith,
  omega arith,
  (omega arith, refl, (omega arith, refl, tt)),
  faults-FaultFits,
)

parse_config-command_line_example :
    parse_config wide_host 1 (command_line wide_host chosen) ≡ ok chosen
parse_config-command_line_example =
    parse_config-command_line wide_host wide_host-IsLawful (λ u. (ground arith, tt)) 1 chosen
      chosen-ConfigFits

abbrev given : List Text
given =
    codes "--steps"
    ∷ codes "+7"
    ∷ codes "--replay"
    ∷ codes "--fault-phase"
    ∷ codes "10:*:3:2:4"
    ∷ codes "--fault-phase"
    ∷ codes "0:9:0:1:2"
    ∷ []

abbrev accepted : Config
accepted = record {
  mode = Mode.replaying;
  trace_path = codes "trace.jsonl";
  program_path = codes "programs/distributed_services.uco";
  node_id = 1;
  listen = none;
  peers = [];
  bootstrap_hello = false;
  bootstrap_burst = 1;
  steps = 7;
  idle_sleep_ms = 0;
  startup_wait_ms = 0;
  fault = record {
    drop_every = none;
    delay_steps = 0;
    reorder_window = 1;
    phases = closed_phase ∷ open_phase ∷ [];
  };
}

given-accepted : parse_config host 1 given ≡ ok accepted
unfolding parse_config parse_args argument apply_setting number parse_u64 parse_fault_phase_spec
    split sort_and_validate_phases apply_switch
given-accepted = refl

parse_config-IsBounded_example : IsBounded accepted × AreDisjoint accepted.fault.phases
parse_config-IsBounded_example = parse_config-IsBounded host 1 given given-accepted
