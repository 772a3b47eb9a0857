-- ===== src/Runtime/Startup.antt =====
-- The start-up of main (crates/runtime/src/main.rs): the actors' events, the entry service and the
-- bootstrap messages.
use unified_correctness_orie.Base.{
  ℕ, zero, suc, ◌+◌, Option, none, some, List, [], ◌∷◌, ◌++◌, if◌then◌else◌, Result, ok, ◌>>=◌,
  or_fail, nat_eq, list_eq,
}
use unified_correctness_orie.Base.Dict
use unified_correctness_orie.Base.Dict.{Dict}
use unified_correctness_orie.Base.Text.{Text, codes, decimal}
use unified_correctness_orie.Runtime.Event.{Uuid, EventKind}
use unified_correctness_orie.Runtime.Host.{Host, RuntimeMessage}
use unified_correctness_orie.Runtime.Ids.{next_deterministic_msg_id}
use unified_correctness_orie.Runtime.Program.{Program}
use unified_correctness_orie.Runtime.Node.{Config, RunError, Node, push_inbox}

module _ {V : Type 0} where
  abbrev bootstrap_message : Host V → Uuid → ℕ → Uuid → RuntimeMessage
  bootstrap_message host node_id idx msg_id = record {
    msg_type = codes "start";
    from_node = host.uuid_text node_id;
    from_service = codes "System";
    text = codes "bootstrap #" ++ decimal (idx + 1);
    provenance = some (record {
      origin_node = host.uuid_text node_id;
      origin_service = codes "System";
      origin_msg_id = host.uuid_text msg_id;
      parent_node = host.uuid_text node_id;
      parent_msg_id = host.uuid_text msg_id;
      hops = 0;
    });
  }

  -- The loop of `enqueue_bootstrap`, with `count` messages left, the next of which is `idx`.
  unfoldable pub bootstrap_loop :
      Host V → Config → Uuid → ℕ → ℕ → Node V → Result RunError (Node V × List (EventKind V))
  bootstrap_loop host cfg entry_actor zero idx node = ok (node, [])
  bootstrap_loop host cfg entry_actor (suc count) idx node = do
    let (msg_id, msg_counter) = next_deterministic_msg_id cfg.node_id node.msg_counter
    let payload = host.encode (bootstrap_message host cfg.node_id idx msg_id)
    actor ← or_fail (Dict.get entry_actor node.sys) RunError.unknown_actor
    let sys = Dict.insert entry_actor (push_inbox msg_id payload actor) node.sys
    (node', evs) ←
        bootstrap_loop host cfg entry_actor count (idx + 1)
          (record node { sys = sys; msg_counter = msg_counter })
    ok (node', EventKind.send (host.new_v5 (codes "System")) entry_actor msg_id payload ∷ evs)

  unfoldable pub enqueue_bootstrap :
      Host V
      → Config
      → Dict Text Uuid
      → Text
      → Node V
      → Result RunError (Node V × List (EventKind V))
  unfolding bootstrap_loop
  enqueue_bootstrap host cfg service_to_actor entry_service node = do
    entry_actor ← or_fail (Dict.get entry_service service_to_actor) RunError.unknown_entry
    let count = if cfg.bootstrap_hello then cfg.bootstrap_burst else 1
    bootstrap_loop host cfg entry_actor count 0 node

  unfoldable pub spawn_events :
      Config → Dict Text Uuid → List Text → Result RunError (List (EventKind V))
  spawn_events cfg service_to_actor [] = ok []
  spawn_events cfg service_to_actor (service ∷ services) = do
    actor ← or_fail (Dict.get service service_to_actor) RunError.missing_mapping
    rest ← spawn_events cfg service_to_actor services
    ok (EventKind.spawn cfg.node_id actor service ∷ rest)

abbrev first_service : List Text → Option Text
first_service [] = none
first_service (s ∷ ss) = some s

unfoldable pub entry_service : Program → Dict Text Uuid → Result RunError Text
entry_service program service_to_actor =
    if Dict.has (codes "Gateway") service_to_actor
    then ok (codes "Gateway")
    else or_fail (first_service program.services) RunError.no_services
