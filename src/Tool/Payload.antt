-- ===== src/Tool/Payload.antt =====
-- The payloads and provenance that the verifiers read, and the lineage check of one delivery
-- (crates/tool/src/main.rs).
use unified_correctness_orie.Base.{
  ℕ, Bool, true, false, ◌&&◌, not, Option, none, some, List, [], ◌∷◌, eqb, if◌then◌else◌, sat_add,
  ◌==◌, nat_eq, list_eq, pair_eq,
}
use unified_correctness_orie.Base.Dict
use unified_correctness_orie.Base.Dict.{Dict}
use unified_correctness_orie.Base.Text.{Text}
use unified_correctness_orie.Base.Writer.{Writer, ◌>>=◌, ◌>>◌, pure, tell}
use unified_correctness_orie.Runtime.Event.{Uuid}
use unified_correctness_orie.Tool.Problems.{
  Problem, Field, origin_msg_id, parent_node, parent_msg_id, from_node, payload_decode_failed,
  payload_missing_provenance, invalid_field, root_origin_msg, root_parent_msg, root_parent_node,
  root_origin_node, root_origin_service, parent_is_self, parent_hops, parent_origin_msg,
  parent_origin_node, parent_origin_service,
}

-- An absent `parent_node` is read as the empty text.
pub record MessageProvenance : Type 0 where
  pub origin_node : Text
  pub origin_service : Text
  pub origin_msg_id : Text
  pub parent_node : Text
  pub parent_msg_id : Text
  pub hops : ℕ

pub record RuntimePayload : Type 0 where
  pub msg_type : Text
  pub from_node : Text
  pub from_service : Text
  pub provenance : Option MessageProvenance

-- What the verifiers use of `serde_json` and `uuid`, which are not part of the repository.
pub record Reader (V : Type 0) : Type 0 where
  -- serde_json::from_value at `RuntimePayload`, `==` on values, Uuid::parse_str
  pub decode : V → Option RuntimePayload
  pub value_beq : V → V → Bool
  pub parse_uuid : Text → Option Uuid

pub record DeliveredLineage : Type 0 where
  pub origin_msg_id : Uuid
  pub origin_node : Text
  pub origin_service : Text
  pub hops : ℕ

-- Sender and message.
abbrev pub LineageKey : Type 0
LineageKey = Uuid × Uuid

abbrev pub Lineage : Type 0
Lineage = Dict LineageKey DeliveredLineage

-- A problem unless the test holds.
abbrev pub require : Bool → Problem → List Problem
require true p = []
require false p = p ∷ []

abbrev is_nil : Text → Bool
is_nil [] = true
is_nil (c ∷ cs) = false

-- The fields of a payload, parsed.
pub record ParsedLineage : Type 0 where
  pub prov : MessageProvenance
  pub payload : RuntimePayload
  pub origin : Uuid
  pub parent : LineageKey
  pub sender : Uuid

module _ {V : Type 0} (reader : Reader V) where
  unfoldable pub parse_uuid_field : ℕ → Field → Text → Writer Problem (Option Uuid)
  parse_uuid_field seq field raw = elim (reader.parse_uuid raw) [
    | some v ↦ pure (some v)
    | none ↦ (none, invalid_field seq field raw ∷ [])
  ]

  -- `let Some(x) = … else { return; }`
  abbrev on_some :
      {A B : Type 0} → Option A → (A → Writer Problem (Option B)) → Writer Problem (Option B)
  on_some none f = pure none
  on_some (some a) f = f a

  -- The parses of `verify_payload_lineage`, the first failure of which ends it.
  unfoldable pub parse_lineage : ℕ → Uuid → V → Writer Problem (Option ParsedLineage)
  unfolding parse_uuid_field
  parse_lineage seq msg_id value = elim (reader.decode value) [
    | none ↦ (none, payload_decode_failed seq msg_id ∷ [])
    | some payload ↦ elim payload.provenance [
      | none ↦ (none, payload_missing_provenance seq msg_id ∷ [])
      | some prov ↦ (do
        origin? ← parse_uuid_field seq origin_msg_id prov.origin_msg_id
        on_some origin? λ origin. do
          let raw = if is_nil prov.parent_node then payload.from_node else prov.parent_node
          node? ← parse_uuid_field seq parent_node raw
          on_some node? λ node. do
            msg? ← parse_uuid_field seq parent_msg_id prov.parent_msg_id
            on_some msg? λ msg. do
              sender? ← parse_uuid_field seq from_node payload.from_node
              on_some sender? λ sender. pure (
                  some (record {
                    prov = prov;
                    payload = payload;
                    origin = origin;
                    parent = (node, msg);
                    sender = sender;
                  })))
    ]
  ]

-- A message with `hops = 0` is its own origin and parent.
unfoldable pub check_root : ℕ → Uuid → ParsedLineage → Writer Problem (Unit {0})
check_root seq msg_id l = do
  tell (require (l.origin == msg_id) (root_origin_msg seq msg_id l.origin))
  tell (require (l.parent.1 == msg_id) (root_parent_msg seq msg_id l.parent.1))
  tell (require (l.parent.0 == l.sender) (root_parent_node seq msg_id))
  tell (require (l.prov.origin_node == l.payload.from_node) (root_origin_node seq msg_id))
  tell (require (l.prov.origin_service == l.payload.from_service) (root_origin_service seq msg_id))

-- The comparison with a parent that was delivered before.
unfoldable pub check_parent :
    ℕ → Uuid → ParsedLineage → DeliveredLineage → Writer Problem (Unit {0})
check_parent seq msg_id l parent = do
  tell (require (l.prov.hops == sat_add parent.hops 1) (parent_hops seq msg_id))
  tell (require (l.origin == parent.origin_msg_id) (parent_origin_msg seq msg_id))
  tell (require (l.prov.origin_node == parent.origin_node) (parent_origin_node seq msg_id))
  tell (require (l.prov.origin_service == parent.origin_service) (parent_origin_service seq msg_id))

unfoldable pub check_descendant : ℕ → Uuid → ParsedLineage → Lineage → Writer Problem (Unit {0})
unfolding check_parent
check_descendant seq msg_id l delivered = do
  tell (require (not (l.parent.0 == l.sender && l.parent.1 == msg_id)) (parent_is_self seq msg_id))
  elim (Dict.get l.parent delivered) [
    | none ↦ pure tt
    | some parent ↦ check_parent seq msg_id l parent
  ]

unfoldable pub check_lineage : ℕ → Uuid → ParsedLineage → Lineage → Writer Problem Lineage
unfolding check_root check_descendant
check_lineage seq msg_id l delivered = do
  (if eqb l.prov.hops 0 then check_root seq msg_id l else check_descendant seq msg_id l delivered)
  pure (
      Dict.insert (l.sender, msg_id)
        (record {
          origin_msg_id = l.origin;
          origin_node = l.prov.origin_node;
          origin_service = l.prov.origin_service;
          hops = l.prov.hops;
        })
        delivered)

unfoldable pub verify_payload_lineage :
    {V : Type 0} → Reader V → ℕ → Uuid → V → Lineage → Writer Problem Lineage
unfolding parse_lineage check_lineage
verify_payload_lineage reader seq msg_id value delivered = do
  parsed ← parse_lineage reader seq msg_id value
  elim parsed [ none ↦ pure delivered | some l ↦ check_lineage seq msg_id l delivered ]
