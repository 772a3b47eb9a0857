-- ===== src/Runtime/CommandLine/Bounds.antt =====
-- The values of a configuration that parse_config accepts (crates/runtime/src/main.rs).
use unified_correctness_orie.Base.{
  ◌≡◌, refl, subst, List, [], ◌∷◌, All-append, ok, err, ◌>>=◌, or_fail, nat_eq, >>=-eq-ok,
  ok-injective,
}
use unified_correctness_orie.Base.{list_eq}
use unified_correctness_orie.Base.Text.{Text}
use unified_correctness_orie.Runtime.Event.{Uuid}
use unified_correctness_orie.Runtime.Host.{Host}
use unified_correctness_orie.Runtime.Fault.{parse_fault_phase_spec, sort_and_validate_phases}
use unified_correctness_orie.Runtime.Fault.Phases.{AreDisjoint}
use unified_correctness_orie.Runtime.Fault.Specs.{Fits}
use unified_correctness_orie.Runtime.Node.{Config}
use unified_correctness_orie.Runtime.CommandLine.{
  Setting, Argument, Stop, argument, apply_switch, number, positive_number, parse_peer_spec,
  apply_setting, parse_args, initial_config, parse_config, lift_spec, lift_phases,
}
use unified_correctness_orie.Runtime.CommandLine.Values.{
  nonzero-DropFits, parse_fault_phase_spec-Fits, number-lt, positive_number-lt, IsBounded,
  apply_switch-IsBounded, lift_spec-ok, lift_phases-ok, initial-IsBounded, validated,
}

module _ {V : Type 0} (host : Host V) where
  apply_setting-IsBounded :
      (key : Setting) (value : Text) (cfg : Config) {next : Config}
      → IsBounded cfg
      → apply_setting host key value cfg ≡ ok next
      → IsBounded next
  unfolding apply_setting
  apply_setting-IsBounded Setting.program value cfg b h = subst IsBounded (ok-injective h) b
  apply_setting-IsBounded Setting.trace value cfg b h = subst IsBounded (ok-injective h) b
  apply_setting-IsBounded Setting.listen value cfg b h = subst IsBounded (ok-injective h) b
  apply_setting-IsBounded Setting.node_id value cfg b h =
      let (u, read, done) = >>=-eq-ok (or_fail (host.parse_uuid value) _) _ h in
      subst IsBounded (ok-injective done) b
  apply_setting-IsBounded Setting.peer value cfg b h =
      let (u, read, done) = >>=-eq-ok (parse_peer_spec host value) _ h in
      subst IsBounded (ok-injective done) b
  apply_setting-IsBounded Setting.bootstrap_burst value cfg
        (burst, steps, idle, wait, drop, delay, window, phases) h =
      let (n, read, done) = >>=-eq-ok (positive_number Setting.bootstrap_burst value) _ h in
      subst IsBounded (ok-injective done) (
        positive_number-lt Setting.bootstrap_burst value read,
        steps,
        idle,
        wait,
        drop,
        delay,
        window,
        phases,
      )
  apply_setting-IsBounded Setting.steps value cfg
        (burst, steps, idle, wait, drop, delay, window, phases) h =
      let (n, read, done) = >>=-eq-ok (number Setting.steps value) _ h in
      subst IsBounded (ok-injective done)
        (burst, number-lt Setting.steps value read, idle, wait, drop, delay, window, phases)
  apply_setting-IsBounded Setting.idle_sleep_ms value cfg
        (burst, steps, idle, wait, drop, delay, window, phases) h =
      let (n, read, done) = >>=-eq-ok (number Setting.idle_sleep_ms value) _ h in
      subst IsBounded (ok-injective done) (
        burst,
        steps,
        number-lt Setting.idle_sleep_ms value read,
        wait,
        drop,
        delay,
        window,
        phases,
      )
  apply_setting-IsBounded Setting.startup_wait_ms value cfg
        (burst, steps, idle, wait, drop, delay, window, phases) h =
      let (n, read, done) = >>=-eq-ok (number Setting.startup_wait_ms value) _ h in
      subst IsBounded (ok-injective done) (
        burst,
        steps,
        idle,
        number-lt Setting.startup_wait_ms value read,
        drop,
        delay,
        window,
        phases,
      )
  apply_setting-IsBounded Setting.fault_drop_every value cfg
        (burst, steps, idle, wait, drop, delay, window, phases) h =
      let (n, read, done) = >>=-eq-ok (number Setting.fault_drop_every value) _ h in
      subst IsBounded (ok-injective done) (
        burst,
        steps,
        idle,
        wait,
        nonzero-DropFits n (number-lt Setting.fault_drop_every value read),
        delay,
        window,
        phases,
      )
  apply_setting-IsBounded Setting.fault_delay_steps value cfg
        (burst, steps, idle, wait, drop, delay, window, phases) h =
      let (n, read, done) = >>=-eq-ok (number Setting.fault_delay_steps value) _ h in
      subst IsBounded (ok-injective done) (
        burst,
        steps,
        idle,
        wait,
        drop,
        number-lt Setting.fault_delay_steps value read,
        window,
        phases,
      )
  apply_setting-IsBounded Setting.fault_reorder_window value cfg
        (burst, steps, idle, wait, drop, delay, window, phases) h =
      let (n, read, done) = >>=-eq-ok (positive_number Setting.fault_reorder_window value) _ h in
      subst IsBounded (ok-injective done) (
        burst,
        steps,
        idle,
        wait,
        drop,
        delay,
        positive_number-lt Setting.fault_reorder_window value read,
        phases,
      )
  apply_setting-IsBounded Setting.fault_phase value cfg
        (burst, steps, idle, wait, drop, delay, window, phases) h =
      let (p, read, done) = >>=-eq-ok (lift_spec (parse_fault_phase_spec value)) _ h in
      let one = parse_fault_phase_spec-Fits value (lift_spec-ok _ read) in
      let all = All-append Fits cfg.fault.phases (p ∷ []) phases (one, tt) in
      subst IsBounded (ok-injective done) (burst, steps, idle, wait, drop, delay, window, all)

  -- What is left bounded by the loop from `args` on.
  abbrev Keeps : List Text → Config → Type 0
  Keeps args last =
      (cfg : Config) → IsBounded cfg → parse_args host args cfg ≡ ok last → IsBounded last

  last_argument :
      (a : Argument) (arg : Text) {last : Config} → argument arg ≡ a → Keeps (arg ∷ []) last
  unfolding parse_args
  last_argument Argument.help arg {last} e cfg b h =
      let stopped : err Stop.help_printed ≡ ok last = rw (parse_args, e) at h in cc
  last_argument Argument.unknown arg {last} e cfg b h =
      let stopped : err (Stop.unknown_argument arg) ≡ ok last = rw (parse_args, e) at h in cc
  last_argument (Argument.setting key) arg {last} e cfg b h =
      let stopped : err (Stop.missing_value key) ≡ ok last = rw (parse_args, e) at h in cc
  last_argument (Argument.switch s) arg {last} e cfg b h =
      let set : ok (apply_switch s cfg) ≡ ok last = rw (parse_args, e) at h in
      subst IsBounded (ok-injective set) (apply_switch-IsBounded s cfg b)

  one_argument :
      (a : Argument) (arg value : Text) (rest : List Text) {last : Config}
      → argument arg ≡ a
      → Keeps (value ∷ rest) last
      → Keeps rest last
      → Keeps (arg ∷ value ∷ rest) last
  unfolding parse_args
  one_argument Argument.help arg value rest {last} e near far cfg b h =
      let stopped : err Stop.help_printed ≡ ok last = rw (parse_args, e) at h in cc
  one_argument Argument.unknown arg value rest {last} e near far cfg b h =
      let stopped : err (Stop.unknown_argument arg) ≡ ok last = rw (parse_args, e) at h in cc
  one_argument (Argument.switch s) arg value rest {last} e near far cfg b h =
      let next : parse_args host (value ∷ rest) (apply_switch s cfg) ≡ ok last =
        rw (parse_args, e) at h in
      near (apply_switch s cfg) (apply_switch-IsBounded s cfg b) next
  one_argument (Argument.setting key) arg value rest {last} e near far cfg b h =
      let steps : (apply_setting host key value cfg >>= parse_args host rest) ≡ ok last =
        rw (parse_args, e) at h in
      let (next, applied, done) = >>=-eq-ok (apply_setting host key value cfg) _ steps in
      far next (apply_setting-IsBounded key value cfg b applied) done

  parse_args-IsBounded : (args : List Text) {last : Config} → Keeps args last
  unfolding parse_args
  parse_args-IsBounded [] {last} cfg b h = subst IsBounded (ok-injective h) b
  parse_args-IsBounded (arg ∷ []) {last} cfg b h = last_argument (argument arg) arg refl cfg b h
  parse_args-IsBounded (arg ∷ value ∷ rest) {last} cfg b h =
      one_argument (argument arg) arg value rest refl (parse_args-IsBounded (value ∷ rest))
        (parse_args-IsBounded rest) cfg b h

  -- When parse_config accepts its arguments, each number of the configuration fits into its
  -- field, the burst and the window of the base policy and of each phase are at least 1, a count
  -- of drops is none or at least 1, and the phases are in order without overlap.
  pub parse_config-IsBounded :
      (fresh : Uuid) (args : List Text) {cfg : Config}
      → parse_config host fresh args ≡ ok cfg
      → IsBounded cfg × AreDisjoint cfg.fault.phases
  unfolding parse_config
  parse_config-IsBounded fresh args {cfg} h =
      let (read, parsed, h1) = >>=-eq-ok (parse_args host args (initial_config fresh)) _ h in
      let (fault, valid, h2) = >>=-eq-ok (lift_phases (sort_and_validate_phases read.fault)) _ h1 in
      let bounded =
        parse_args-IsBounded args (initial_config fresh) (initial-IsBounded fresh) parsed in
      subst (λ c. IsBounded c × AreDisjoint c.fault.phases) (ok-injective h2)
        (validated read fault bounded (lift_phases-ok _ valid))
