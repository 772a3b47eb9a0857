-- ===== src/Runtime/Actor.antt =====
-- crates/runtime/src/actor.rs: actors, and the context that collects what a handler does.
use unified_correctness_orie.Base.{ℕ, ℤ, List, [], ◌∷◌, ◌++◌}
use unified_correctness_orie.Base.Dict.{Dict}
use unified_correctness_orie.Base.Text.{Text}
use unified_correctness_orie.Runtime.Event.{Uuid}

pub data Target : Type 0 where
  local_service : (service : Text) → Target
  remote_service : (node : Uuid) (service : Text) → Target

pub record Outgoing (V : Type 0) : Type 0 where
  pub target : Target
  pub payload : V
  pub delay_steps : ℕ

pub record LogEmission : Type 0 where
  pub service : Text
  pub text : Text

pub record Actor (V : Type 0) : Type 0 where
  pub id : Uuid
  pub service : Text
  pub state : Dict Text ℤ
  pub inbox : List (Uuid × V)

pub record ActorContext (V : Type 0) : Type 0 where
  pub self_node : Uuid
  pub outbox : List (Outgoing V)
  pub logs : List LogEmission

abbrev pub ActorSystem : Type 0 → Type 0
ActorSystem V = Dict Uuid (Actor V)

module _ {V : Type 0} where
  abbrev pub new_context : Uuid → ActorContext V
  new_context self_node = record { self_node = self_node; outbox = []; logs = [] }

  unfoldable pub log : Text → Text → ActorContext V → ActorContext V
  log service text ctx = record ctx {
    logs = ctx.logs ++ record { service = service; text = text } ∷ [];
  }

  unfoldable pub send_local_service_after : ℕ → Text → V → ActorContext V → ActorContext V
  send_local_service_after delay_steps service payload ctx = record ctx {
    outbox =
        ctx.outbox
        ++ record {
          target = Target.local_service service;
          payload = payload;
          delay_steps = delay_steps;
        }
          ∷ [];
  }

  unfoldable pub send_local_service : Text → V → ActorContext V → ActorContext V
  unfolding send_local_service_after
  send_local_service service payload ctx = send_local_service_after 0 service payload ctx

  unfoldable pub send_remote_service_after : ℕ → Uuid → Text → V → ActorContext V → ActorContext V
  send_remote_service_after delay_steps node service payload ctx = record ctx {
    outbox =
        ctx.outbox
        ++ record {
          target = Target.remote_service node service;
          payload = payload;
          delay_steps = delay_steps;
        }
          ∷ [];
  }

  unfoldable pub send_remote_service : Uuid → Text → V → ActorContext V → ActorContext V
  unfolding send_remote_service_after
  send_remote_service node service payload ctx =
      send_remote_service_after 0 node service payload ctx
