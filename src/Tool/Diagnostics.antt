-- ===== src/Tool/Diagnostics.antt =====
-- What the reports say of a message: its code, and the numbers and ids found in its text
-- (crates/tool/src/main.rs).
pub mod Extract
use unified_correctness_orie.Base.{
  ℕ, Bool, true, false, ◌&&◌, ◌||◌, not, Option, none, some, List, [], ◌∷◌, ◌++◌, leb, eqb,
  if◌then◌else◌, length, drop, reverse, nat_eq, list_eq,
}
use unified_correctness_orie.Base.Dict.{contains}
use unified_correctness_orie.Base.Text.{Text, codes, starts_with, split, parse_u64, is_whitespace}
use unified_correctness_orie.Runtime.Event.{Uuid}

-- What stands behind the first place at which the marker stands: `find`, and the slice behind it.
unfoldable pub after : Text → Text → Option Text
unfolding starts_with
after marker [] = if starts_with marker [] then some [] else none
after marker (c ∷ cs) =
    let later = after marker cs in
    if starts_with marker (c ∷ cs) then some (drop (length marker) (c ∷ cs)) else later

abbrev is_some : {A : Type 0} → Option A → Bool
is_some none = false
is_some (some a) = true

abbrev or_else : {A : Type 0} → Option A → Option A → Option A
or_else none b = b
or_else (some a) b = some a

abbrev first : {A : Type 0} → List A → Option A
first [] = none
first (x ∷ xs) = some x

abbrev second : {A : Type 0} → List A → Option A
second [] = none
second (x ∷ xs) = first xs

-- `contains` on a text.
abbrev mentions : Text → Text → Bool
mentions problem part = is_some (after part problem)

-- Codes by the first part that a message contains.
abbrev code_by : Text → List (Text × Text) → Text → Text
code_by problem [] other = other
code_by problem ((part, code) ∷ rules) other =
    if mentions problem part then code else code_by problem rules other

-- The arms up to that of the dropped message.
abbrev trace_codes : List (Text × Text)
trace_codes =
    (codes "seq mismatch", codes "trace_seq_mismatch")
    ∷ (codes "seed mismatch", codes "trace_seed_mismatch")
    ∷ (codes "without prior Send/NetRecv", codes "deliver_without_source")
    ∷ (codes "without EffectObserved", codes "deliver_without_effect_observed")
    ∷ (codes "without preceding Deliver", codes "effect_without_deliver")
    ∷ (codes "does not match preceding Deliver", codes "effect_deliver_mismatch")
    ∷ (codes "undeclared observed effects", codes "effect_undeclared_observed")
    ∷ (codes "duplicate declared effects", codes "effect_declared_duplicate")
    ∷ (codes "duplicate observed effects", codes "effect_observed_duplicate")
    ∷ (codes "payload decode failed", codes "payload_decode_failed")
    ∷ (codes "payload missing provenance", codes "payload_missing_provenance")
    ∷ (codes "invalid provenance field", codes "payload_invalid_provenance_field")
    ∷ (codes "has hops=0 but", codes "lineage_invalid_root")
    ∷ (codes "has hops>0 but parent_msg_id is self", codes "lineage_parent_self")
    ∷ (codes "does not match parent", codes "lineage_parent_mismatch")
    ∷ (codes "has hops=", codes "lineage_parent_mismatch")
    ∷ (codes "dropped earlier but later NetRecv observed", codes "fault_drop_recv_conflict")
    ∷ []

-- The arms that also ask for `TimerFired`.
abbrev timer_codes : List (Text × Text)
timer_codes =
    (codes "not followed by Send/NetSend", codes "timer_without_immediate_emit")
    ∷ (codes "expected next send from actor", codes "timer_emit_actor_mismatch")
    ∷ (codes "reached end-of-trace without Send/NetSend", codes "timer_without_emit_end_of_trace")
    ∷ []

abbrev cluster_codes : List (Text × Text)
cluster_codes =
    (codes "unknown actor", codes "unknown_actor_reference")
    ∷ (codes "no matching NetRecv or Drop fault", codes "cluster_send_missing_inbound_evidence")
    ∷ (codes "has no matching NetSend in provided traces", codes "cluster_missing_send")
    ∷ (codes "payload mismatch", codes "cluster_payload_mismatch")
    ∷ (codes "has both NetRecv and Drop fault evidence", codes "cluster_conflicting_recv_and_drop")
    ∷ (codes "missing in-cluster parent", codes "cluster_missing_lineage_parent")
    ∷ (codes "duplicate NetSend key", codes "cluster_duplicate_network_key")
    ∷ (codes "duplicate NetRecv key", codes "cluster_duplicate_network_key")
    ∷ (codes "duplicate Drop fault key", codes "cluster_duplicate_network_key")
    ∷ (codes "duplicate delivered lineage key", codes "cluster_duplicate_lineage_key")
    ∷ (codes "invalid parent reference", codes "lineage_invalid_parent_reference")
    ∷ (codes "mixes multiple node ids", codes "cluster_trace_mixed_nodes")
    ∷ (codes "has no node-scoped events", codes "cluster_trace_missing_node_scope")
    ∷ []

unfoldable pub classify_problem : Text → Text
unfolding after
classify_problem problem =
    let cluster = code_by problem cluster_codes (codes "unknown") in
    code_by problem trace_codes (
      if mentions problem (codes "TimerFired")
      then code_by problem timer_codes cluster
      else cluster)

abbrev pub is_digit : ℕ → Bool
is_digit c = leb 48 c && leb c 57

unfoldable pub take_while : (ℕ → Bool) → Text → Text
take_while test [] = []
take_while test (c ∷ cs) = let rest = take_while test cs in if test c then c ∷ rest else []

-- `parse_u64` fails on the empty text, as the source does before it parses.
unfoldable pub extract_first_u64_after : Text → Text → Option ℕ
extract_first_u64_after problem marker = elim (after marker problem) [
  | none ↦ none
  | some rest ↦ parse_u64 (take_while is_digit rest)
]

unfoldable pub trim_start_by : (ℕ → Bool) → Text → Text
trim_start_by test [] = []
trim_start_by test (c ∷ cs) = let rest = trim_start_by test cs in if test c then rest else c ∷ cs

-- `trim_matches`
abbrev trim_matches : (ℕ → Bool) → Text → Text
trim_matches test s = reverse (trim_start_by test (reverse (trim_start_by test s)))

-- `split` on a set of characters.
split_by_from : (ℕ → Bool) → Text → Text → List Text
split_by_from test cur [] = reverse cur ∷ []
split_by_from test cur (c ∷ cs) =
    let rest = split_by_from test [] cs in
    let more = split_by_from test (c ∷ cur) cs in if test c then reverse cur ∷ rest else more

unfoldable pub split_by : (ℕ → Bool) → Text → List Text
unfolding split_by_from
split_by test s = split_by_from test [] s

abbrev is_hex_digit : ℕ → Bool
is_hex_digit c = is_digit c || (leb 65 c && leb c 70) || (leb 97 c && leb c 102)

-- The characters that `parse_uuid_token` trims.
abbrev is_around_uuid : ℕ → Bool
is_around_uuid c = not (eqb c b'-') && not (is_hex_digit c) && not (eqb c b'/') && not (eqb c b'`')

-- `, ) ] ;` and white space; the other split also takes `: ( [`.
abbrev ends_token : ℕ → Bool
ends_token c = is_whitespace c || (eqb c b',') || (eqb c b')') || (eqb c b']') || (eqb c b';')

abbrev is_between : ℕ → Bool
is_between c = ends_token c || (eqb c b':') || (eqb c b'(') || (eqb c b'[')

-- `Uuid::parse_str` is `parse_uuid`.
module _ (parse_uuid : Text → Option Uuid) where
  abbrev first_uuid : List Text → Option Text
  first_uuid [] = none
  first_uuid (candidate ∷ rest) =
      if is_some (parse_uuid candidate) then some candidate else first_uuid rest

  unfoldable pub parse_uuid_token : Text → Option Text
  unfolding trim_start_by split
  parse_uuid_token raw = first_uuid (split b'/' (trim_matches is_around_uuid raw))

  abbrev token_uuid : Option Text → Option Text
  token_uuid none = none
  token_uuid (some token) = parse_uuid_token token

  unfoldable pub extract_uuid_after : Text → Text → Option Text
  unfolding parse_uuid_token after split_by is_whitespace
  extract_uuid_after problem marker = elim (after marker problem) [
    | none ↦ none
    | some rest ↦ token_uuid (first (split_by ends_token rest))
  ]

  abbrev push_new : Option Text → List Text → List Text
  push_new none out = out
  push_new (some uuid) out = if contains out uuid then out else out ++ (uuid ∷ [])

  -- The loop over the tokens, with what it has found.
  unfoldable pub uuids_from : List Text → List Text → List Text
  unfolding parse_uuid_token contains
  uuids_from out [] = out
  uuids_from out (token ∷ tokens) = uuids_from (push_new (parse_uuid_token token) out) tokens

  unfoldable pub extract_all_uuids : Text → List Text
  unfolding uuids_from split_by is_whitespace
  extract_all_uuids problem = uuids_from [] (split_by is_between problem)

pub record ProblemDetail : Type 0 where
  pub code : Text
  pub seq : Option ℕ
  pub node : Option Text
  pub actor : Option Text
  pub msg_id : Option Text
  pub message : Text

unfoldable pub build_problem_detail : (Text → Option Uuid) → Text → ProblemDetail
unfolding classify_problem extract_first_u64_after extract_uuid_after extract_all_uuids
build_problem_detail parse_uuid problem =
    let found : Text → Option Text = λ marker. extract_uuid_after parse_uuid problem marker in
    let uuids = extract_all_uuids parse_uuid problem in
    record {
      code = classify_problem problem;
      seq = extract_first_u64_after problem (codes "seq ");
      node = or_else (found (codes "node=")) (
          or_else (found (codes "from_node="))
            (or_else (found (codes "local_node=")) (first uuids)));
      actor = or_else (found (codes "actor=")) (
          or_else (found (codes "actor "))
            (or_else (found (codes "to=")) (found (codes "from actor "))));
      msg_id =
          or_else (found (codes "msg_id="))
            (or_else (found (codes "msg_id ")) (or_else (found (codes "msg_id")) (second uuids)));
      message = problem;
    }
