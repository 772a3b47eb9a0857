-- ===== src/Runtime/Host.antt =====
-- The messages that services exchange (crates/runtime/src/main.rs), and what the runtime uses of
-- the `uuid` and `serde_json` crates, which are not part of the repository.
use unified_correctness_orie.Base.{ℕ, ◌<◌, ◌≡◌, ◌↔◌, Bool, true, Option, some, u128_mod}
use unified_correctness_orie.Base.Text.{Text}
use unified_correctness_orie.Runtime.Event.{Uuid}

pub record Provenance : Type 0 where
  pub origin_node : Text
  pub origin_service : Text
  pub origin_msg_id : Text
  pub parent_node : Text
  pub parent_msg_id : Text
  pub hops : ℕ

pub record RuntimeMessage : Type 0 where
  pub msg_type : Text
  pub from_node : Text
  pub from_service : Text
  pub text : Text
  pub provenance : Option Provenance

-- `V` is `serde_json::Value`.
pub record Host (V : Type 0) : Type 0 where
  -- serde_json::to_value, serde_json::from_value, and `==` on values
  pub encode : RuntimeMessage → V
  pub decode : V → Option RuntimeMessage
  pub value_beq : V → V → Bool
  -- Uuid::to_string, Uuid::parse_str, Uuid::new_v5 in the OID name space
  pub uuid_text : Uuid → Text
  pub parse_uuid : Text → Option Uuid
  pub new_v5 : Text → Uuid

-- The documented behaviour of those crates.
pub record IsLawful {V : Type 0} (host : Host V) : Type 0 where
  pub decode-encode : (m : RuntimeMessage) → host.decode (host.encode m) ≡ some m
  pub value_beq_iff : (a b : V) → (host.value_beq a b ≡ true) ↔ (a ≡ b)
  pub parse-text : (u : Uuid) → u < u128_mod → host.parse_uuid (host.uuid_text u) ≡ some u
