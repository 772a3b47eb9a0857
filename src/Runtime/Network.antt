-- ===== src/Runtime/Network.antt =====
-- drain_network of crates/runtime/src/main.rs: the inbound wire messages of one step.
pub mod Released
pub mod Order
use unified_correctness_orie.Base.{List, [], ◌∷◌, ◌++◌, map, if◌then◌else◌, ◌==◌, nat_eq, ℕ, not}
use unified_correctness_orie.Base.Writer.{Writer, ◌>>=◌, ◌>>◌, pure, tell}
use unified_correctness_orie.Runtime.Event.{Uuid, EventKind, WireEnvelope}
use unified_correctness_orie.Runtime.Injector.{
  FaultInjector, sync_policy, ingest, flush_remainder, release_due,
}
use unified_correctness_orie.Runtime.Actor.{ActorSystem}
use unified_correctness_orie.Runtime.Node.{deliver_to_inbox}

module _ {V : Type 0} where
  -- `arrivals` is what the channel yields until it is empty.
  unfoldable pub ingest_all :
      List (WireEnvelope V) → ℕ → Uuid → FaultInjector V → Writer (EventKind V) (FaultInjector V)
  ingest_all [] current_step node_id inj = pure inj
  ingest_all (env ∷ arrivals) current_step node_id inj = do
    inj' ← (if not (env.to_node == node_id) then pure inj else ingest env current_step node_id inj)
    ingest_all arrivals current_step node_id inj'

  unfoldable pub net_recv_event : WireEnvelope V → EventKind V
  net_recv_event env =
      EventKind.net_recv env.to_node env.from_node env.to_actor env.msg_id env.payload

  unfoldable pub receive_all : List (WireEnvelope V) → ActorSystem V → ActorSystem V
  unfolding deliver_to_inbox
  receive_all [] sys = sys
  receive_all (env ∷ envs) sys =
      receive_all envs (deliver_to_inbox env.to_actor env.msg_id env.payload sys)

  unfoldable pub drain_network :
      List (WireEnvelope V)
      → Uuid
      → ℕ
      → ActorSystem V
      → FaultInjector V
      → Writer (EventKind V) (ActorSystem V × FaultInjector V)
  drain_network arrivals node_id current_step sys injector = do
    synced ← sync_policy current_step node_id injector
    ingested ← ingest_all arrivals current_step node_id synced
    flushed ← flush_remainder node_id ingested
    let released = release_due current_step flushed
    tell (map net_recv_event released.0)
    pure (receive_all released.0 sys, released.1)
