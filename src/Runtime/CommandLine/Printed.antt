-- ===== src/Runtime/CommandLine/Printed.antt =====
-- What parse_config gives back of the options that a configuration is written as
-- (crates/runtime/src/main.rs).
use mathlib.Core.List.{append_assoc, append-nil}
use unified_correctness_orie.Base.{
  ◌<◌, ◌≡◌, refl, ◌∙◌, Bool, true, false, Option, none, some, List, [], ◌∷◌, ◌++◌, All, u128_mod,
  ok, nat_eq,
}
use unified_correctness_orie.Base.Dict
use unified_correctness_orie.Base.Dict.{Dict}
use unified_correctness_orie.Base.Text.{Text, codes}
use unified_correctness_orie.Base.Text.Pieces.{Lacks, split_once-piece}
use unified_correctness_orie.Runtime.Event.{Uuid}
use unified_correctness_orie.Runtime.Host.{Host, IsLawful}
use unified_correctness_orie.Runtime.Fault.{FaultPhase}
use unified_correctness_orie.Runtime.Fault.Phases.{disjoint_accepted}
use unified_correctness_orie.Runtime.Fault.Specs.{
  phase_spec, Fits, parse_fault_phase_spec-phase_spec,
}
use unified_correctness_orie.Runtime.Node.{Config, Mode}
use unified_correctness_orie.Runtime.CommandLine.{
  Switch, Setting, argument, apply_switch, parse_peer_spec, apply_setting, parse_args,
  initial_config, parse_config,
}
use unified_correctness_orie.Runtime.CommandLine.Options.{
  replay_option, hello_option, listen_option, phase_options, peer_options, value_options,
  command_line, setting_step, switch_step, number-decimal, positive_number-decimal, drop_number,
  AreNew, ConfigFits, insert-new,
}

module _ {V : Type 0} (host : Host V) (lawful : IsLawful host)
    (plain : (u : Uuid) → Lacks b'=' (host.uuid_text u)) where
  peer_read :
      (node : Uuid) (addr : Text) (cfg : Config)
      → node < u128_mod
      → Dict.get node cfg.peers ≡ none
      → apply_setting host Setting.peer (host.uuid_text node ++ (b'=' ∷ addr)) cfg
        ≡ ok (record cfg { peers = cfg.peers ++ ((node, addr) ∷ []) })
  unfolding apply_setting parse_peer_spec
  peer_read node addr cfg h new =
      rw
        (
          split_once-piece b'=' (host.uuid_text node) addr (plain node),
          lawful.parse-text node h,
          insert-new node addr cfg.peers new,
        )
        refl

  peers_read :
      (peers : Dict Uuid Text) (rest : List Text) (cfg : Config)
      → AreNew cfg.peers peers
      → parse_args host (peer_options host peers rest) cfg
        ≡ parse_args host rest (record cfg { peers = cfg.peers ++ peers })
  unfolding argument
  peers_read [] rest cfg h = rw (append-nil cfg.peers) refl
  peers_read ((node, addr) ∷ peers) rest cfg (small, new, later) =
      setting_step host Setting.peer (codes "--peer") _ _ cfg _ refl
        (peer_read node addr cfg small new)
      ∙ peers_read peers rest _ later
      ∙ rw (append_assoc cfg.peers ((node, addr) ∷ []) peers) refl

  phase_read :
      (p : FaultPhase) (cfg : Config)
      → Fits p
      → apply_setting host Setting.fault_phase (phase_spec p) cfg
        ≡ ok (record cfg { fault = record cfg.fault { phases = cfg.fault.phases ++ (p ∷ []) } })
  unfolding apply_setting
  phase_read p cfg h = rw (parse_fault_phase_spec-phase_spec p h) refl

  phases_read :
      (phases : List FaultPhase) (rest : List Text) (cfg : Config)
      → All Fits phases
      → parse_args host (phase_options phases rest) cfg
        ≡ parse_args host rest
            (record cfg { fault = record cfg.fault { phases = cfg.fault.phases ++ phases } })
  unfolding argument
  phases_read [] rest cfg h = rw (append-nil cfg.fault.phases) refl
  phases_read (p ∷ phases) rest cfg h =
      setting_step host Setting.fault_phase (codes "--fault-phase") _ _ cfg _ refl
        (phase_read p cfg h.0)
      ∙ phases_read phases rest _ h.1
      ∙ rw (append_assoc cfg.fault.phases (p ∷ []) phases) refl

  module _ (fresh : Uuid) where
    abbrev switched : Mode → Bool → Option Text → Config
    switched m hello addr = record (initial_config fresh) {
      mode = m;
      bootstrap_hello = hello;
      listen = addr;
    }

    mode_read :
        (m : Mode) (rest : List Text)
        → parse_args host (replay_option m rest) (switched Mode.recording false none)
          ≡ parse_args host rest (switched m false none)
    unfolding argument apply_switch
    mode_read Mode.recording rest = refl
    mode_read Mode.replaying rest = switch_step host Switch.replay (codes "--replay") rest _ refl

    hello_read :
        (m : Mode) (hello : Bool) (rest : List Text)
        → parse_args host (hello_option hello rest) (switched m false none)
          ≡ parse_args host rest (switched m hello none)
    unfolding argument apply_switch
    hello_read m false rest = refl
    hello_read m true rest =
        switch_step host Switch.bootstrap_hello (codes "--bootstrap-hello") rest _ refl

    listen_read :
        (m : Mode) (hello : Bool) (addr : Option Text) (rest : List Text)
        → parse_args host (listen_option addr rest) (switched m hello none)
          ≡ parse_args host rest (switched m hello addr)
    unfolding argument apply_setting
    listen_read m hello none rest = refl
    listen_read m hello (some addr) rest =
        setting_step host Setting.listen (codes "--listen") addr rest _ _ refl refl

    abbrev valued : Config → Config
    valued cfg = record cfg { peers = []; fault = record cfg.fault { phases = [] } }

    values_read :
        (cfg : Config) (rest : List Text)
        → ConfigFits cfg
        → parse_args host
            (value_options host cfg rest)
            (switched cfg.mode cfg.bootstrap_hello cfg.listen)
          ≡ parse_args host rest (valued cfg)
    unfolding parse_args argument apply_setting
    values_read cfg rest
          (
            id,
            positive,
            burst,
            steps,
            idle,
            wait,
            peers,
            (drop, delay, nonzero_window, window, phases, disjoint),
          ) =
        let (n, read, same) = drop_number Setting.fault_drop_every cfg.fault.drop_every drop in
        rw
          (
            lawful.parse-text cfg.node_id id,
            positive_number-decimal Setting.bootstrap_burst cfg.bootstrap_burst positive burst,
            number-decimal Setting.steps cfg.steps steps,
            number-decimal Setting.idle_sleep_ms cfg.idle_sleep_ms idle,
            number-decimal Setting.startup_wait_ms cfg.startup_wait_ms wait,
            read,
            same,
            number-decimal Setting.fault_delay_steps cfg.fault.delay_steps delay,
            positive_number-decimal Setting.fault_reorder_window cfg.fault.reorder_window
                nonzero_window window,
          )
          refl

    args_end : (cfg : Config) → parse_args host [] cfg ≡ ok cfg
    unfolding parse_args
    args_end cfg = refl

    args_read :
        (cfg : Config)
        → ConfigFits cfg
        → parse_args host (command_line host cfg) (initial_config fresh) ≡ ok cfg
    unfolding command_line
    args_read cfg h =
        mode_read cfg.mode _
        ∙ hello_read cfg.mode cfg.bootstrap_hello _
        ∙ listen_read cfg.mode cfg.bootstrap_hello cfg.listen _
        ∙ values_read cfg _ h
        ∙ peers_read cfg.peers _ (valued cfg) (h.6)
        ∙ phases_read cfg.fault.phases [] _ (h.7.4)
        ∙ args_end cfg

    -- A configuration that is written as options is what parse_config gives back, when its
    -- numbers fit, its peers have different ids and its phases are in order without overlap, and
    -- when ids are shown without an equals sign and read back.
    pub parse_config-command_line :
        (cfg : Config) → ConfigFits cfg → parse_config host fresh (command_line host cfg) ≡ ok cfg
    unfolding parse_config
    parse_config-command_line cfg h = rw (args_read cfg h, disjoint_accepted cfg.fault (h.7.5)) refl
