-- ===== src/Runtime/CommandLine.antt =====
-- The command line of the runtime: parse_config and parse_peer_spec (crates/runtime/src/main.rs).
pub mod Options
pub mod Printed
pub mod Values
pub mod Bounds
use mathlib.Core.Bool.{◌||◌}
use unified_correctness_orie.Base.{
  ℕ, Bool, true, false, not, Option, none, some, List, [], ◌∷◌, ◌++◌, eqb, if◌then◌else◌, Result,
  ok, err, ◌>>=◌, ◌>>◌, guard, or_fail, ◌==◌, nat_eq, list_eq, list_beq,
}
use unified_correctness_orie.Base.Dict
use unified_correctness_orie.Base.Text.{Text, codes, split_once, parse_u64}
use unified_correctness_orie.Runtime.Event.{Uuid}
use unified_correctness_orie.Runtime.Host.{Host}
use unified_correctness_orie.Runtime.Fault.{
  FaultConfig, PhaseError, SpecError, default_fault_config, nonzero, parse_fault_phase_spec,
  sort_and_validate_phases,
}
use unified_correctness_orie.Runtime.Node.{Config, Mode}

-- The options that take no value, and those that do.
pub data Switch : Type 0 where
  replay bootstrap_hello : Switch

pub data Setting : Type 0 where
  program trace node_id listen peer bootstrap_burst steps idle_sleep_ms startup_wait_ms : Setting
  fault_drop_every fault_delay_steps fault_reorder_window fault_phase : Setting

pub data Argument : Type 0 where
  help unknown : Argument
  switch : Switch → Argument
  setting : Setting → Argument

-- What ends the call before a configuration is there: `process::exit(0)` behind the usage text, or
-- a `bail!`.
pub data Stop : Type 0 where
  help_printed : Stop
  missing_value invalid_value zero_value : Setting → Stop
  unknown_argument : Text → Stop
  bad_phase : SpecError → Stop
  bad_phases : PhaseError → Stop

-- The patterns of the `match`.
unfoldable pub argument : Text → Argument
unfolding list_beq
argument arg =
    if (arg == codes "--help") || (arg == codes "-h")
    then help
    else if arg == codes "--replay"
    then switch replay
    else if arg == codes "--program"
    then setting program
    else if arg == codes "--trace"
    then setting trace
    else if arg == codes "--node-id"
    then setting node_id
    else if arg == codes "--listen"
    then setting listen
    else if arg == codes "--peer"
    then setting peer
    else if arg == codes "--bootstrap-hello"
    then switch bootstrap_hello
    else if arg == codes "--bootstrap-burst"
    then setting bootstrap_burst
    else if arg == codes "--steps"
    then setting steps
    else if arg == codes "--idle-sleep-ms"
    then setting idle_sleep_ms
    else if arg == codes "--startup-wait-ms"
    then setting startup_wait_ms
    else if arg == codes "--fault-drop-every"
    then setting fault_drop_every
    else if arg == codes "--fault-delay-steps"
    then setting fault_delay_steps
    else if arg == codes "--fault-reorder-window"
    then setting fault_reorder_window
    else if arg == codes "--fault-phase"
    then setting fault_phase
    else unknown

unfoldable pub apply_switch : Switch → Config → Config
apply_switch replay cfg = record cfg { mode = Mode.replaying }
apply_switch bootstrap_hello cfg = record cfg { bootstrap_hello = true }

-- A `u64`, and one that is not zero.
unfoldable pub number : Setting → Text → Result Stop ℕ
number key value = or_fail (parse_u64 value) (invalid_value key)

unfoldable pub positive_number : Setting → Text → Result Stop ℕ
unfolding number
positive_number key value = do n ← number key value; guard (not (eqb n 0)) (zero_value key); ok n

unfoldable pub lift_spec : {A : Type 0} → Result SpecError A → Result Stop A
lift_spec (ok a) = ok a
lift_spec (err reason) = err (bad_phase reason)

unfoldable pub lift_phases : {A : Type 0} → Result PhaseError A → Result Stop A
lift_phases (ok a) = ok a
lift_phases (err reason) = err (bad_phases reason)

-- The variables as they are before the loop; `fresh` is `Uuid::new_v4()`.
abbrev pub initial_config : Uuid → Config
initial_config fresh = record {
  mode = Mode.recording;
  trace_path = codes "trace.jsonl";
  program_path = codes "programs/distributed_services.uco";
  node_id = fresh;
  listen = none;
  peers = [];
  bootstrap_hello = false;
  bootstrap_burst = 1;
  steps = 40;
  idle_sleep_ms = 0;
  startup_wait_ms = 0;
  fault = default_fault_config;
}

module _ {V : Type 0} where
  unfoldable pub parse_peer_spec : Host V → Text → Result Stop (Uuid × Text)
  parse_peer_spec host spec = do
    parts ← or_fail (split_once b'=' spec) (invalid_value peer)
    node ← or_fail (host.parse_uuid (parts.0)) (invalid_value peer)
    ok (node, parts.1)

  -- The body of the branch of an option with its value.
  unfoldable pub apply_setting : Host V → Setting → Text → Config → Result Stop Config
  unfolding lift_spec
  apply_setting host program value cfg = ok (record cfg { program_path = value })
  apply_setting host trace value cfg = ok (record cfg { trace_path = value })
  apply_setting host node_id value cfg = do
    node ← or_fail (host.parse_uuid value) (invalid_value node_id)
    ok (record cfg { node_id = node })
  apply_setting host listen value cfg = ok (record cfg { listen = some value })
  apply_setting host peer value cfg = do
    parsed ← parse_peer_spec host value
    ok (record cfg { peers = Dict.insert (parsed.0) (parsed.1) cfg.peers })
  apply_setting host bootstrap_burst value cfg = do
    n ← positive_number bootstrap_burst value
    ok (record cfg { bootstrap_burst = n })
  apply_setting host steps value cfg = do n ← number steps value; ok (record cfg { steps = n })
  apply_setting host idle_sleep_ms value cfg = do
    n ← number idle_sleep_ms value
    ok (record cfg { idle_sleep_ms = n })
  apply_setting host startup_wait_ms value cfg = do
    n ← number startup_wait_ms value
    ok (record cfg { startup_wait_ms = n })
  apply_setting host fault_drop_every value cfg = do
    n ← number fault_drop_every value
    ok (record cfg { fault = record cfg.fault { drop_every = nonzero n } })
  apply_setting host fault_delay_steps value cfg = do
    n ← number fault_delay_steps value
    ok (record cfg { fault = record cfg.fault { delay_steps = n } })
  apply_setting host fault_reorder_window value cfg = do
    n ← positive_number fault_reorder_window value
    ok (record cfg { fault = record cfg.fault { reorder_window = n } })
  apply_setting host fault_phase value cfg = do
    phase ← lift_spec (parse_fault_phase_spec value)
    ok (record cfg { fault = record cfg.fault { phases = cfg.fault.phases ++ (phase ∷ []) } })

  -- The loop over `args[i..]`.
  unfoldable pub parse_args : Host V → List Text → Config → Result Stop Config
  parse_args host [] cfg = ok cfg
  parse_args host (arg ∷ []) cfg = elim (argument arg) [
    | help ↦ err help_printed
    | unknown ↦ err (unknown_argument arg)
    | switch s ↦ ok (apply_switch s cfg)
    | setting key ↦ err (missing_value key)
  ]
  parse_args host (arg ∷ value ∷ rest) cfg = elim (argument arg) [
    | help ↦ err help_printed
    | unknown ↦ err (unknown_argument arg)
    | switch s ↦ parse_args host (value ∷ rest) (apply_switch s cfg)
    | setting key ↦ apply_setting host key value cfg >>= parse_args host rest
  ]

  -- `args` is what follows the name of the program.
  unfoldable pub parse_config : Host V → Uuid → List Text → Result Stop Config
  unfolding lift_phases
  parse_config host fresh args = do
    cfg ← parse_args host args (initial_config fresh)
    fault ← lift_phases (sort_and_validate_phases cfg.fault)
    ok (record cfg { fault = fault })
