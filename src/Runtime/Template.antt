-- ===== src/Runtime/Template.antt =====
-- render_template of crates/runtime/src/main.rs.
use unified_correctness_orie.Base.{ℤ, Option, none, some, List, [], ◌∷◌, ◌++◌, list_eq, nat_eq}
use unified_correctness_orie.Base.Dict
use unified_correctness_orie.Base.Dict.{Dict}
use unified_correctness_orie.Base.Sort.{sort_by}
use unified_correctness_orie.Base.Text.{Text, codes, replace, decimal, int_decimal, text_le}
use unified_correctness_orie.Runtime.Event.{Uuid}
use unified_correctness_orie.Runtime.Host.{Host, RuntimeMessage, Provenance}

-- The provenance texts, empty where the message has none.
abbrev prov_text : (Provenance → Text) → Option Provenance → Text
prov_text f none = []
prov_text f (some prov) = f prov

replace_value : Text → Text → Option ℤ → Text
replace_value key out none = out
replace_value key out (some value) = replace out (codes "$state." ++ key) (int_decimal value)

unfoldable pub replace_states : Dict Text ℤ → List Text → Text → Text
unfolding replace_value
replace_states state [] out = out
replace_states state (key ∷ keys) out =
    replace_states state keys (replace_value key out (Dict.get key state))

module _ {V : Type 0} (host : Host V) where
  -- The tokens of the message, in the order in which the source replaces them.
  unfoldable pub replace_tokens : Text → Uuid → Text → RuntimeMessage → Text
  replace_tokens template self_node self_service incoming =
      let out = replace template (codes "$self_node") (host.uuid_text self_node) in
      let out = replace out (codes "$self_service") self_service in
      let out = replace out (codes "$from_node") incoming.from_node in
      let out = replace out (codes "$from_service") incoming.from_service in
      let out = replace out (codes "$text") incoming.text in
      let out = replace out (codes "$type") incoming.msg_type in
      let prov = incoming.provenance in
      let out = replace out (codes "$prov.origin_node") (prov_text (λ p. p.origin_node) prov) in
      let out =
        replace out (codes "$prov.origin_service") (prov_text (λ p. p.origin_service) prov) in
      let out = replace out (codes "$prov.origin_msg") (prov_text (λ p. p.origin_msg_id) prov) in
      let out = replace out (codes "$prov.parent_node") (prov_text (λ p. p.parent_node) prov) in
      let out = replace out (codes "$prov.parent_msg") (prov_text (λ p. p.parent_msg_id) prov) in
      replace out (codes "$prov.hops") (prov_text (λ p. decimal p.hops) prov)

  unfoldable pub render_template : Text → Uuid → Text → RuntimeMessage → Dict Text ℤ → Text
  unfolding replace_tokens replace_states sort_by text_le
  render_template template self_node self_service incoming state =
      replace_states state (sort_by text_le (Dict.keys state))
        (replace_tokens template self_node self_service incoming)
