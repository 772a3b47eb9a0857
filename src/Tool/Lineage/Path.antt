-- ===== src/Tool/Lineage/Path.antt =====
-- The walk of print_lineage_path along the parents of a message (crates/tool/src/main.rs).
pub mod Walk
pub mod Limit
use unified_correctness_orie.Base.{
  ℕ, zero, suc, Option, none, some, List, [], ◌∷◌, eqb, true, false, Bool, if◌then◌else◌, Result,
  ok, err, ◌>>=◌, ◌==◌, nat_eq, pair_eq,
}
use unified_correctness_orie.Base.Dict
use unified_correctness_orie.Base.Dict.{Dict}
use unified_correctness_orie.Tool.Payload.{Reader, LineageKey}
use unified_correctness_orie.Tool.Lineage.{LineageRecord, lineage_parent_key}

-- What is printed behind the last record.
pub data Ending : Type 0 where
  missing : LineageKey → Ending
  root_reached invalid_parent parent_is_self cycle_detected depth_limit : Ending

pub data PathError : Type 0 where
  start_not_found : PathError

-- The records that are printed, in order, and the ending.
abbrev pub Printed : Type 0
Printed = List LineageRecord × Ending

abbrev pub print_first : LineageRecord → Printed → Printed
print_first rec rest = (rec ∷ rest.0, rest.1)

abbrev pub not_in_index : ℕ → LineageKey → Result PathError Printed
not_in_index depth current = if eqb depth 0 then err start_not_found else ok ([], missing current)

module _ {V : Type 0} (reader : Reader V) (index : Dict LineageKey LineageRecord) where
  -- The tests on a record, and its parent; `again` is whether the key was visited before.
  abbrev pub next_key : LineageKey → Bool → LineageRecord → Result Ending LineageKey
  next_key current again rec =
      if eqb rec.provenance.hops 0 then err root_reached else elim (lineage_parent_key reader rec) [
        | none ↦ err invalid_parent
        | some parent ↦
            if parent == current
            then err parent_is_self
            else if again
            then err cycle_detected
            else ok parent
      ]

  -- The rounds of the loop that are left, the depth of the next, and the keys visited so far.
  unfoldable pub walk : ℕ → ℕ → LineageKey → List LineageKey → Result PathError Printed
  unfolding Dict.contains
  walk zero depth current visited = ok ([], depth_limit)
  walk (suc rounds) depth current visited = elim (Dict.get current index) [
    | none ↦ not_in_index depth current
    | some rec ↦ elim (next_key current (Dict.contains visited current) rec) [
      | err ending ↦ ok (rec ∷ [], ending)
      | ok parent ↦
          walk rounds (suc depth) parent (current ∷ visited) >>= λ rest. ok (print_first rec rest)
    ]
  ]

  unfoldable pub print_lineage_path : LineageKey → Result PathError Printed
  unfolding walk
  print_lineage_path start = walk 256 0 start []
