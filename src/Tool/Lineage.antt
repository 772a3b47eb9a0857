-- ===== src/Tool/Lineage.antt =====
-- The lineage index of a trace and its summary (crates/tool/src/main.rs).
pub mod Path
pub mod Counts
use unified_correctness_orie.Base.{
  ℕ, ◌+◌, Bool, true, false, Option, none, some, List, [], ◌∷◌, ◌++◌, eqb, ltb, if◌then◌else◌,
  length, ◌==◌, nat_eq, pair_eq,
}
use unified_correctness_orie.Base.Dict
use unified_correctness_orie.Base.Dict.{Dict}
use unified_correctness_orie.Base.Text.{Text}
use unified_correctness_orie.Runtime.Event.{Uuid, EventKind, TraceEvent}
use unified_correctness_orie.Tool.Payload.{Reader, LineageKey, MessageProvenance, RuntimePayload}
use unified_correctness_orie.Tool.Checks.{push_produced, store_queue}

pub record DeliveredPayload (V : Type 0) : Type 0 where
  pub seq : ℕ
  pub node : Uuid
  pub to : Uuid
  pub msg_id : Uuid
  pub payload : V

pub record LineageRecord : Type 0 where
  pub key : LineageKey
  pub seq : ℕ
  pub local_node : Uuid
  pub to : Uuid
  pub from_service : Text
  pub msg_type : Text
  pub provenance : MessageProvenance

pub record LineageSummary : Type 0 where
  pub total : ℕ
  pub roots : ℕ
  pub resolved_parents : ℕ
  pub unresolved_internal_parents : ℕ
  pub unresolved_external_parents : ℕ
  pub invalid_parent_refs : ℕ
  pub max_hops : ℕ

abbrev is_nil : Text → Bool
is_nil [] = true
is_nil (c ∷ cs) = false

module _ {V : Type 0} where
  -- The delivery that an event makes, and the payloads that are still to be delivered.
  unfoldable pub collect_event :
      TraceEvent V
      → Dict (Uuid × Uuid) (List V)
      → List (DeliveredPayload V) × Dict (Uuid × Uuid) (List V)
  unfolding push_produced store_queue
  collect_event ev produced = elim ev.kind [
    | EventKind.send _ to msg_id payload ↦ ([], push_produced (to, msg_id) payload produced)
    | EventKind.net_recv _ _ to msg_id payload ↦ ([], push_produced (to, msg_id) payload produced)
    | EventKind.deliver node to msg_id ↦ elim (Dict.get (to, msg_id) produced) [
      | none ↦ ([], produced)
      | some [] ↦ ([], store_queue (to, msg_id) [] produced)
      | some (payload ∷ queue) ↦ (
        record { seq = ev.seq; node = node; to = to; msg_id = msg_id; payload = payload } ∷ [],
        store_queue (to, msg_id) queue produced,
      )
    ]
    | _ ↦ ([], produced)
  ]

  unfoldable pub collect_from :
      Dict (Uuid × Uuid) (List V) → List (TraceEvent V) → List (DeliveredPayload V)
  unfolding collect_event
  collect_from produced [] = []
  collect_from produced (ev ∷ evs) =
      let (out, produced') = collect_event ev produced in out ++ collect_from produced' evs

  unfoldable pub collect_deliveries_with_payload : List (TraceEvent V) → List (DeliveredPayload V)
  unfolding collect_from
  collect_deliveries_with_payload events = collect_from [] events

  module _ (reader : Reader V) where
    -- `none` where a reference does not parse.
    unfoldable pub lineage_parent_key : LineageRecord → Option LineageKey
    lineage_parent_key rec =
        let prov = rec.provenance in
        elim (if is_nil prov.parent_node
          then some rec.key.0
          else reader.parse_uuid prov.parent_node) [
            | none ↦ none
            | some node ↦ elim (reader.parse_uuid prov.parent_msg_id) [
              | none ↦ none
              | some msg_id ↦ some (node, msg_id)
            ]
          ]

    abbrev record_of : DeliveredPayload V → RuntimePayload → Option LineageRecord
    record_of delivery payload = elim payload.provenance [
      | none ↦ none
      | some provenance ↦ elim (reader.parse_uuid payload.from_node) [
        | none ↦ none
        | some from_node ↦ some (record {
          key = (from_node, delivery.msg_id);
          seq = delivery.seq;
          local_node = delivery.node;
          to = delivery.to;
          from_service = payload.from_service;
          msg_type = payload.msg_type;
          provenance = provenance;
        })
      ]
    ]

    -- The record of a delivery, none where the source goes on to the next.
    unfoldable pub lineage_record : DeliveredPayload V → Option LineageRecord
    lineage_record delivery = elim (reader.decode delivery.payload) [
      | none ↦ none
      | some payload ↦ record_of delivery payload
    ]

    abbrev add_record :
        Option LineageRecord → Dict LineageKey LineageRecord → Dict LineageKey LineageRecord
    add_record none out = out
    add_record (some rec) out = Dict.insert rec.key rec out

    unfoldable pub index_from :
        Dict LineageKey LineageRecord → List (DeliveredPayload V) → Dict LineageKey LineageRecord
    unfolding lineage_record
    index_from out [] = out
    index_from out (d ∷ ds) = index_from (add_record (lineage_record d) out) ds

    unfoldable pub build_lineage_index : List (TraceEvent V) → Dict LineageKey LineageRecord
    unfolding index_from collect_deliveries_with_payload
    build_lineage_index events = index_from [] (collect_deliveries_with_payload events)

    abbrev pub max_of : ℕ → ℕ → ℕ
    max_of a b = if ltb a b then b else a

    -- One round of the loop of `summarize_lineage`.
    unfoldable pub summarize_record :
        Dict LineageKey LineageRecord → LineageRecord → LineageSummary → LineageSummary
    unfolding lineage_parent_key
    summarize_record index rec s =
        let seen = record s { max_hops = max_of s.max_hops rec.provenance.hops } in
        if eqb rec.provenance.hops 0
        then record seen { roots = seen.roots + 1 }
        else elim (lineage_parent_key rec) [
          | none ↦ record seen { invalid_parent_refs = seen.invalid_parent_refs + 1 }
          | some parent ↦
              if Dict.has parent index
              then record seen { resolved_parents = seen.resolved_parents + 1 }
              else if parent.0 == rec.local_node
              then record seen {
                unresolved_internal_parents = seen.unresolved_internal_parents + 1;
              }
              else record seen {
                unresolved_external_parents = seen.unresolved_external_parents + 1;
              }
        ]

    unfoldable pub summarize_each :
        Dict LineageKey LineageRecord → List LineageRecord → LineageSummary → LineageSummary
    unfolding summarize_record
    summarize_each index [] s = s
    summarize_each index (rec ∷ recs) s = summarize_each index recs (summarize_record index rec s)

    unfoldable pub summarize_lineage : Dict LineageKey LineageRecord → LineageSummary
    unfolding summarize_each
    summarize_lineage index = summarize_each index (Dict.values index) (record {
      total = length index;
      roots = 0;
      resolved_parents = 0;
      unresolved_internal_parents = 0;
      unresolved_external_parents = 0;
      invalid_parent_refs = 0;
      max_hops = 0;
    })
