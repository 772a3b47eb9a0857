-- ===== src/Runtime/CommandLine/Options.antt =====
-- The options that set a configuration, as print_usage lists them, and the parsing of one of them
-- (crates/runtime/src/main.rs).
use unified_correctness_orie.Base.{
  ℕ, ◌<◌, ◌≡◌, refl, ap, Bool, true, false, Option, none, some, List, [], ◌∷◌, ◌++◌, arith, eqb,
  All, Bool-cases, inl, inr, u64_mod, u128_mod, ok, nat_eq,
}
use unified_correctness_orie.Base.Dict
use unified_correctness_orie.Base.Dict.{Dict}
use unified_correctness_orie.Base.Text.{Text, codes, decimal}
use unified_correctness_orie.Base.Text.Numbers.{parse_u64-decimal}
use unified_correctness_orie.Runtime.Event.{Uuid}
use unified_correctness_orie.Runtime.Host.{Host}
use unified_correctness_orie.Runtime.Fault.{FaultPhase, FaultConfig, nonzero}
use unified_correctness_orie.Runtime.Fault.Phases.{AreDisjoint}
use unified_correctness_orie.Runtime.Fault.Specs.{phase_spec, Fits, DropFits, drop_text, drop_read}
use unified_correctness_orie.Runtime.Node.{Config, Mode}
use unified_correctness_orie.Runtime.CommandLine.{
  Switch, Setting, argument, switch, setting, apply_switch, number, positive_number, apply_setting,
  parse_args,
}

abbrev pub replay_option : Mode → List Text → List Text
replay_option Mode.recording rest = rest
replay_option Mode.replaying rest = codes "--replay" ∷ rest

abbrev pub hello_option : Bool → List Text → List Text
hello_option false rest = rest
hello_option true rest = codes "--bootstrap-hello" ∷ rest

abbrev pub listen_option : Option Text → List Text → List Text
listen_option none rest = rest
listen_option (some addr) rest = codes "--listen" ∷ addr ∷ rest

abbrev pub phase_options : List FaultPhase → List Text → List Text
phase_options [] rest = rest
phase_options (p ∷ phases) rest = codes "--fault-phase" ∷ phase_spec p ∷ phase_options phases rest

module _ {V : Type 0} where
  abbrev pub peer_options : Host V → Dict Uuid Text → List Text → List Text
  peer_options host [] rest = rest
  peer_options host ((node, addr) ∷ peers) rest =
      codes "--peer" ∷ (host.uuid_text node ++ (b'=' ∷ addr)) ∷ peer_options host peers rest

  abbrev pub value_options : Host V → Config → List Text → List Text
  value_options host cfg rest =
      codes "--program"
      ∷ cfg.program_path
      ∷ codes "--trace"
      ∷ cfg.trace_path
      ∷ codes "--node-id"
      ∷ host.uuid_text cfg.node_id
      ∷ codes "--bootstrap-burst"
      ∷ decimal cfg.bootstrap_burst
      ∷ codes "--steps"
      ∷ decimal cfg.steps
      ∷ codes "--idle-sleep-ms"
      ∷ decimal cfg.idle_sleep_ms
      ∷ codes "--startup-wait-ms"
      ∷ decimal cfg.startup_wait_ms
      ∷ codes "--fault-drop-every"
      ∷ drop_text cfg.fault.drop_every
      ∷ codes "--fault-delay-steps"
      ∷ decimal cfg.fault.delay_steps
      ∷ codes "--fault-reorder-window"
      ∷ decimal cfg.fault.reorder_window
      ∷ rest

  unfoldable pub command_line : Host V → Config → List Text
  command_line host cfg = replay_option cfg.mode (
      hello_option cfg.bootstrap_hello (
        listen_option cfg.listen (
          value_options host cfg
            (peer_options host cfg.peers (phase_options cfg.fault.phases [])))))

  pub setting_step :
      (host : Host V) (key : Setting) (arg value : Text) (rest : List Text) (cfg next : Config)
      → argument arg ≡ setting key
      → apply_setting host key value cfg ≡ ok next
      → parse_args host (arg ∷ value ∷ rest) cfg ≡ parse_args host rest next
  unfolding parse_args
  setting_step host key arg value rest cfg next a b = rw (parse_args, a, b) refl

  pub switch_step :
      (host : Host V) (s : Switch) (arg : Text) (rest : List Text) (cfg : Config)
      → argument arg ≡ switch s
      → parse_args host (arg ∷ rest) cfg ≡ parse_args host rest (apply_switch s cfg)
  unfolding parse_args
  switch_step host s arg [] cfg a = rw (parse_args, a) refl
  switch_step host s arg (value ∷ rest) cfg a = rw (parse_args, a) refl

pub number-decimal : (key : Setting) (n : ℕ) → n < u64_mod → number key (decimal n) ≡ ok n
unfolding number
number-decimal key n h = rw (parse_u64-decimal n h) refl

pub positive_number-decimal :
    (key : Setting) (n : ℕ) → 0 < n → n < u64_mod → positive_number key (decimal n) ≡ ok n
unfolding positive_number
positive_number-decimal key n pos h =
    let some : eqb n 0 ≡ false = ground arith in rw (number-decimal key n h, some) refl

pub drop_number :
    (key : Setting) (d : Option ℕ)
    → DropFits d
    → (n : ℕ) × (number key (drop_text d) ≡ ok n) × (nonzero n ≡ d)
unfolding number
drop_number key d h = let (n, read, same) = drop_read d h in (n, rw read refl, same)

-- The value of each field is one that it can hold; a count that must not be 0 is not.
abbrev pub FaultFits : FaultConfig → Type 0
FaultFits fault =
    DropFits fault.drop_every
    × (fault.delay_steps < u64_mod)
    × (0 < fault.reorder_window)
    × (fault.reorder_window < u64_mod)
    × All Fits fault.phases
    × AreDisjoint fault.phases

-- The ids of the peers are different.
abbrev pub AreNew : Dict Uuid Text → Dict Uuid Text → Type 0
AreNew seen [] = Unit
AreNew seen ((node, addr) ∷ peers) =
    (node < u128_mod) × (Dict.get node seen ≡ none) × AreNew (seen ++ ((node, addr) ∷ [])) peers

abbrev pub ConfigFits : Config → Type 0
ConfigFits cfg =
    (cfg.node_id < u128_mod)
    × (0 < cfg.bootstrap_burst)
    × (cfg.bootstrap_burst < u64_mod)
    × (cfg.steps < u64_mod)
    × (cfg.idle_sleep_ms < u64_mod)
    × (cfg.startup_wait_ms < u64_mod)
    × AreNew [] cfg.peers
    × FaultFits cfg.fault

pub insert-new :
    (node : Uuid) (addr : Text) (peers : Dict Uuid Text)
    → Dict.get node peers ≡ none
    → Dict.insert node addr peers ≡ peers ++ ((node, addr) ∷ [])
unfolding Dict.get Dict.insert
insert-new node addr [] h = refl
insert-new node addr ((other, at) ∷ peers) h = elim (Bool-cases (eqb other node)) [
  | inl same ↦ ground arith
  | inr differs ↦ rw differs (ap (◌∷◌ (other, at)) (insert-new node addr peers (ground arith)))
]
