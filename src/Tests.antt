-- ===== src/Tests.antt =====
-- Concrete inputs at which the theorems are applied: a message is its own encoding, and a UUID is
-- shown as the number that it is.
mod Files
mod Lines
mod Machine
mod Options
mod Replays
mod Runs
mod Sources
mod Traces
use unified_correctness_orie.Base.{
  ℕ, ◌+◌, ◌≡◌, ◌↔◌, refl, Bool, true, false, ◌&&◌, Option, none, some, List, [], ◌∷◌, arith, eqb,
  length, ◌==◌, nat_eq, list_eq, list_beq_iff, ◌<◌, u128_mod,
}
use unified_correctness_orie.Base.Text.{Text}
use unified_correctness_orie.Runtime.Event.{Uuid}
use unified_correctness_orie.Runtime.Host.{Host, IsLawful, RuntimeMessage, Provenance}
use unified_correctness_orie.Tool.Payload.{Reader, RuntimePayload, MessageProvenance}

provenance_beq : Provenance → Provenance → Bool
provenance_beq p q =
    (p.origin_node == q.origin_node)
    && ((p.origin_service == q.origin_service)
        && ((p.origin_msg_id == q.origin_msg_id)
            && ((p.parent_node == q.parent_node)
                && ((p.parent_msg_id == q.parent_msg_id) && eqb p.hops q.hops))))

abbrev provenance?_beq : Option Provenance → Option Provenance → Bool
provenance?_beq none none = true
provenance?_beq (some p) (some q) = provenance_beq p q
provenance?_beq _ _ = false

unfoldable pub message_beq : RuntimeMessage → RuntimeMessage → Bool
unfolding provenance_beq
message_beq a b =
    (a.msg_type == b.msg_type)
    && ((a.from_node == b.from_node)
        && ((a.from_service == b.from_service)
            && ((a.text == b.text) && provenance?_beq a.provenance b.provenance)))

provenance_beq_iff : (p q : Provenance) → (provenance_beq p q ≡ true) ↔ (p ≡ q)
unfolding provenance_beq
provenance_beq_iff p q = ground (
  arith,
  list_beq_iff p.origin_node q.origin_node,
  list_beq_iff p.origin_service q.origin_service,
  list_beq_iff p.origin_msg_id q.origin_msg_id,
  list_beq_iff p.parent_node q.parent_node,
  list_beq_iff p.parent_msg_id q.parent_msg_id,
)

provenance?_beq_iff : (p q : Option Provenance) → (provenance?_beq p q ≡ true) ↔ (p ≡ q)
provenance?_beq_iff none none = ground arith
provenance?_beq_iff none (some q) = ground arith
provenance?_beq_iff (some p) none = ground arith
provenance?_beq_iff (some p) (some q) = ground (arith, provenance_beq_iff p q)

message_beq_iff : (a b : RuntimeMessage) → (message_beq a b ≡ true) ↔ (a ≡ b)
unfolding message_beq
message_beq_iff a b = ground (
  arith,
  list_beq_iff a.msg_type b.msg_type,
  list_beq_iff a.from_node b.from_node,
  list_beq_iff a.from_service b.from_service,
  list_beq_iff a.text b.text,
  provenance?_beq_iff a.provenance b.provenance,
)

abbrev pub read_uuid : Text → Option Uuid
read_uuid (u ∷ []) = some u
read_uuid _ = none

abbrev pub host : Host RuntimeMessage
host = record {
  encode = λ m. m;
  decode = some;
  value_beq = message_beq;
  uuid_text = λ u. u ∷ [];
  parse_uuid = read_uuid;
  new_v5 = λ t. 1000 + length t;
}

pub host-IsLawful : IsLawful host
host-IsLawful = record {
  decode-encode = λ m. refl;
  value_beq_iff = message_beq_iff;
  parse-text = λ u h. refl;
}

abbrev to_provenance : Provenance → MessageProvenance
to_provenance p = record {
  origin_node = p.origin_node;
  origin_service = p.origin_service;
  origin_msg_id = p.origin_msg_id;
  parent_node = p.parent_node;
  parent_msg_id = p.parent_msg_id;
  hops = p.hops;
}

abbrev to_provenance? : Option Provenance → Option MessageProvenance
to_provenance? none = none
to_provenance? (some p) = some (to_provenance p)

abbrev to_payload : RuntimeMessage → RuntimePayload
to_payload m = record {
  msg_type = m.msg_type;
  from_node = m.from_node;
  from_service = m.from_service;
  provenance = to_provenance? m.provenance;
}

abbrev pub reader : Reader RuntimeMessage
reader = record {
  decode = λ m. some (to_payload m);
  value_beq = message_beq;
  parse_uuid = read_uuid;
}

-- A message of node 1 that begins a lineage.
abbrev pub root_message : RuntimeMessage
root_message = record {
  msg_type = 77 ∷ [];
  from_node = 1 ∷ [];
  from_service = 65 ∷ [];
  text = 84 ∷ [];
  provenance = some (record {
    origin_node = 1 ∷ [];
    origin_service = 65 ∷ [];
    origin_msg_id = 9 ∷ [];
    parent_node = 1 ∷ [];
    parent_msg_id = 9 ∷ [];
    hops = 0;
  });
}
