-- ===== src/Runtime/Node/Silent.antt =====
-- The parts that both modes share, in the replay mode (crates/runtime/src/main.rs): they hand no
-- envelope to the network, and have no loop on fuel.
use mathlib.Core.List.{append-nil}
use unified_correctness_orie.Base.{
  ℕ, zero, suc, ◌+◌, ◌≡◌, refl, ◌∙◌, Bool, true, false, ◌&&◌, not, Option, none, some, List, [],
  ◌∷◌, Result, ok, err, ◌>>=◌, guard, or_fail, ltb, ◌==◌, Bool-cases, inl, inr, nat_eq, list_eq,
}
use unified_correctness_orie.Base.Dict
use unified_correctness_orie.Base.Dict.{Dict}
use unified_correctness_orie.Base.Text.{Text, codes}
use unified_correctness_orie.Runtime.Event.{Uuid, EventKind}
use unified_correctness_orie.Runtime.Host.{Host, RuntimeMessage}
use unified_correctness_orie.Runtime.Scheduler.{PendingDelivery}
use unified_correctness_orie.Runtime.Actor.{Actor, Target, Outgoing, new_context}
use unified_correctness_orie.Runtime.Program.{Program}
use unified_correctness_orie.Runtime.Actions.{ExecError, execute_actions}
use unified_correctness_orie.Runtime.Node.{
  Config, Mode, RunError, Node, lift_exec, dispatch_outgoing, send_outgoing, send_all, run_handler,
  process_delivery, pop_front, is_replaying,
}
use unified_correctness_orie.Runtime.Startup.{
  bootstrap_loop, enqueue_bootstrap, spawn_events, entry_service,
}
use unified_correctness_orie.Runtime.Record.{initial_node, start_up}

-- The reason is another than fuel.
abbrev pub IsReason : RunError → Type 0
IsReason RunError.out_of_fuel = ⊥
IsReason _ = Unit

-- A result for which a predicate holds, or an error that is not for fuel.
abbrev pub Safe : {A : Type 0} → (A → Type 0) → Result RunError A → Type 0
Safe P (ok a) = P a
Safe P (err reason) = IsReason reason

pub >>=-Safe :
    {A B : Type 0} (P : A → Type 0) (Q : B → Type 0) (first : Result RunError A)
    (next : A → Result RunError B)
    → Safe P first
    → ((a : A) → P a → Safe Q (next a))
    → Safe Q (first >>= next)
>>=-Safe P Q (ok a) next h k = k a h
>>=-Safe P Q (err reason) next h k = h

pub or_fail-Safe :
    {A B : Type 0} (Q : B → Type 0) (o : Option A) (reason : RunError)
    (next : A → Result RunError B)
    → IsReason reason
    → ((a : A) → Safe Q (next a))
    → Safe Q (or_fail o reason >>= next)
or_fail-Safe Q none reason next h k = h
or_fail-Safe Q (some a) reason next h k = k a

pub guard-Safe :
    {B : Type 0} (Q : B → Type 0) (b : Bool) (reason : RunError)
    (next : Unit {0} → Result RunError B)
    → IsReason reason
    → Safe Q (next tt)
    → Safe Q (guard b reason >>= next)
guard-Safe Q true reason next h k = k
guard-Safe Q false reason next h k = h

-- As above, where what follows needs that the guard holds.
pub guarded-Safe :
    {B : Type 0} (Q : B → Type 0) (b : Bool) (reason : RunError)
    (next : Unit {0} → Result RunError B)
    → IsReason reason
    → (b ≡ true → Safe Q (next tt))
    → Safe Q (guard b reason >>= next)
guarded-Safe Q true reason next h k = k refl
guarded-Safe Q false reason next h k = h

abbrev pub Any : {A : Type 0} → A → Type 0
Any a = Unit

-- Nothing was handed to the network.
abbrev pub IsSilent : {V : Type 0} → Node V → Type 0
IsSilent node = node.wire ≡ []

abbrev pub SilentWith : {V A : Type 0} → Node V × A → Type 0
SilentWith r = IsSilent r.0

lift_exec-Safe : {A : Type 0} (r : Result ExecError A) → Safe Any (lift_exec r)
lift_exec-Safe (ok a) = tt
lift_exec-Safe (err reason) = tt

spawn_events-Safe :
    (V : Type 0) (cfg : Config) (service_to_actor : Dict Text Uuid) (services : List Text)
    → Safe (Any {A = List (EventKind V)}) (spawn_events cfg service_to_actor services)
unfolding spawn_events
spawn_events-Safe V cfg service_to_actor [] = tt
spawn_events-Safe V cfg service_to_actor (s ∷ services) =
    or_fail-Safe (Any {A = List (EventKind V)}) (Dict.get s service_to_actor)
      RunError.missing_mapping _ tt
      (λ _.
        >>=-Safe Any Any (spawn_events {V = V} cfg service_to_actor services) _
          (spawn_events-Safe V cfg service_to_actor services) (λ _ _. tt))

or_fail-Any :
    {A : Type 0} (o : Option A) (reason : RunError) → IsReason reason → Safe Any (or_fail o reason)
or_fail-Any none reason h = h
or_fail-Any (some a) reason h = tt

entry_service-Safe :
    (program : Program) (service_to_actor : Dict Text Uuid)
    → Safe Any (entry_service program service_to_actor)
unfolding entry_service
entry_service-Safe program service_to_actor =
    elim (Bool-cases (Dict.has (codes "Gateway") service_to_actor)) [
      | inl gateway ↦ rw gateway tt
      | inr other ↦ rw other (or_fail-Any _ RunError.no_services tt)
    ]

module _ {V : Type 0} (cfg : Config) (service_to_actor : Dict Text Uuid) where
  pub dispatch_outgoing-Safe :
      (from : Uuid) (target : Target) (payload : V) (node : Node V)
      → IsSilent node
      → Safe SilentWith
          (dispatch_outgoing cfg service_to_actor from target payload Mode.replaying node)
  unfolding dispatch_outgoing
  dispatch_outgoing-Safe from (Target.local_service service) payload node silent =
      or_fail-Safe SilentWith (Dict.get service service_to_actor) RunError.unknown_target _ tt
        (λ actor.
          or_fail-Safe SilentWith (Dict.get actor node.sys) RunError.unknown_actor _ tt
            (λ _. silent))
  dispatch_outgoing-Safe from (Target.remote_service to service) payload node silent =
      or_fail-Safe SilentWith (Dict.get service service_to_actor) RunError.unknown_target _ tt
        (λ _. append-nil node.wire ∙ silent)

  module _ (replaying : cfg.mode ≡ Mode.replaying) where
    send_outgoing-Safe :
        (actor : Uuid) (step : ℕ) (out : Outgoing V) (node : Node V)
        → IsSilent node
        → Safe SilentWith (send_outgoing cfg service_to_actor actor step out node)
    unfolding send_outgoing
    send_outgoing-Safe actor step out node silent =
        let sent =
          >>=-Safe SilentWith SilentWith
            (dispatch_outgoing cfg service_to_actor actor out.target out.payload Mode.replaying
              node)
            (λ r. ok (r.0, r.1 ∷ []))
            (dispatch_outgoing-Safe actor out.target out.payload node silent) (λ _ h. h) in
        elim (Bool-cases (ltb 0 out.delay_steps)) [
          | inl timer ↦ rw timer silent
          | inr now ↦ rw (now, replaying) sent
        ]

    send_all-Safe :
        (actor : Uuid) (step : ℕ) (outs : List (Outgoing V)) (node : Node V)
        → IsSilent node
        → Safe SilentWith (send_all cfg service_to_actor actor step outs node)
    unfolding send_all
    send_all-Safe actor step [] node silent = silent
    send_all-Safe actor step (out ∷ outs) node silent =
        >>=-Safe SilentWith SilentWith (send_outgoing cfg service_to_actor actor step out node) _
          (send_outgoing-Safe actor step out node silent)
          (λ r h.
            >>=-Safe SilentWith SilentWith (send_all cfg service_to_actor actor step outs (r.0)) _
              (send_all-Safe actor step outs (r.0) h) (λ _ k. k))

    run_handler-Safe :
        (host : Host V) (program : Program) (step : ℕ) (actor : Actor V) (msg_id : Uuid)
        (incoming : RuntimeMessage) (node : Node V)
        → IsSilent node
        → Safe SilentWith
            (run_handler host cfg program service_to_actor step actor msg_id incoming node)
    unfolding run_handler
    run_handler-Safe host program step actor msg_id incoming node silent =
        let P = SilentWith {V = V} {A = List (EventKind V)} in
        or_fail-Safe P (Dict.get actor.id node.sys) RunError.unknown_actor _ tt (λ target.
          let run =
            execute_actions host program actor.service msg_id incoming cfg.peers target.state
              (new_context cfg.node_id) in
          >>=-Safe Any P (lift_exec run) _ (lift_exec-Safe run) (λ r _.
            let after = record node {
              sys = Dict.insert actor.id (record target { state = r.1 }) node.sys;
            } in
            >>=-Safe SilentWith P (send_all cfg service_to_actor actor.id step ((r.2).outbox) after)
              _ (send_all-Safe actor.id step ((r.2).outbox) after silent) (λ _ h. h)))

    pub process_delivery-Safe :
        (host : Host V) (program : Program) (step : ℕ) (d : PendingDelivery) (node : Node V)
        → IsSilent node
        → Safe SilentWith (process_delivery host cfg program service_to_actor step d node)
    unfolding process_delivery
    process_delivery-Safe host program step d node silent =
        let P = SilentWith {V = V} {A = List (EventKind V)} in
        or_fail-Safe P (Dict.get d.to node.sys) RunError.unknown_actor _ tt (λ actor.
          or_fail-Safe P (pop_front actor.inbox) RunError.empty_inbox _ tt (λ front.
            guard-Safe P (not (is_replaying cfg.mode && not (front.0 == d.msg_id)))
              RunError.msg_id_mismatch _ tt
              (or_fail-Safe P (host.decode (front.1)) RunError.decode_failed _ tt (λ incoming.
                run_handler-Safe host program step actor (front.0) incoming _ silent))))

  bootstrap_loop-Safe :
      (host : Host V) (entry : Uuid) (count idx : ℕ) (node : Node V)
      → IsSilent node
      → Safe SilentWith (bootstrap_loop host cfg entry count idx node)
  unfolding bootstrap_loop
  bootstrap_loop-Safe host entry zero idx node silent = silent
  bootstrap_loop-Safe host entry (suc count) idx node silent =
      or_fail-Safe SilentWith (Dict.get entry node.sys) RunError.unknown_actor _ tt (λ actor.
        >>=-Safe SilentWith SilentWith (bootstrap_loop host cfg entry count (idx + 1) _) _
          (bootstrap_loop-Safe host entry count (idx + 1) _ silent) (λ _ h. h))

  enqueue_bootstrap-Safe :
      (host : Host V) (entry : Text) (node : Node V)
      → IsSilent node
      → Safe SilentWith (enqueue_bootstrap host cfg service_to_actor entry node)
  unfolding enqueue_bootstrap
  enqueue_bootstrap-Safe host entry node silent =
      or_fail-Safe SilentWith (Dict.get entry service_to_actor) RunError.unknown_entry _ tt
        (λ actor. bootstrap_loop-Safe host actor _ 0 node silent)

  pub start_up-Safe :
      (host : Host V) (program : Program)
      → Safe SilentWith (start_up host cfg program service_to_actor)
  unfolding start_up
  start_up-Safe host program =
      >>=-Safe Any SilentWith (entry_service program service_to_actor) _
        (entry_service-Safe program service_to_actor)
        (λ entry _.
          >>=-Safe Any SilentWith (spawn_events cfg service_to_actor program.services) _
            (spawn_events-Safe V cfg service_to_actor program.services)
            (λ spawned _.
              >>=-Safe SilentWith SilentWith
                (enqueue_bootstrap host cfg service_to_actor entry (initial_node host program)) _
                (enqueue_bootstrap-Safe host entry (initial_node host program) refl) (λ _ h. h)))
