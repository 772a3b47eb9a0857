-- ===== src/Tool/Lineage/Path/Limit.antt =====
-- That the rounds of print_lineage_path are enough for a small index (crates/tool/src/main.rs).
use unified_correctness_orie.Base.{
  ℕ, zero, suc, ◌<◌, ◌≡◌, ◌≢◌, refl, sym, subst, ap, ◌∙◌, List, [], ◌∷◌, arith, eqb, false, Bool,
  Bool-cases, Option-cases, inl, inr, length, Result, ok, err, ◌>>=◌, nat_eq, pair_eq,
}
use unified_correctness_orie.Base.Dict
use unified_correctness_orie.Base.Dict.{Dict}
use unified_correctness_orie.Base.Dict.Unseen.{unseen, unseen-le-length, unseen-less}
use unified_correctness_orie.Tool.Payload.{Reader, LineageKey}
use unified_correctness_orie.Tool.Lineage.{LineageRecord}
use unified_correctness_orie.Tool.Lineage.Path.{
  Ending, depth_limit, PathError, Printed, print_first, next_key, not_in_index, walk,
  print_lineage_path,
}
use unified_correctness_orie.Tool.Lineage.Path.Walk.{go_on, walk-absent, walk-held}

-- A walk that did not stop at the limit.
abbrev pub IsComplete : Result PathError Printed → Type 0
IsComplete (ok (recs, ending)) = ending ≢ depth_limit
IsComplete (err reason) = Unit

module _ {V : Type 0} (reader : Reader V) (index : Dict LineageKey LineageRecord) where
  not_in_index-IsComplete : (depth : ℕ) (key : LineageKey) → IsComplete (not_in_index depth key)
  not_in_index-IsComplete depth key = elim (Bool-cases (eqb depth 0)) [
    | inl start ↦ rw start tt
    | inr later ↦ rw later (λ e. cc)
  ]

  print_first-IsComplete :
      (rec : LineageRecord) (out : Result PathError Printed)
      → IsComplete out
      → IsComplete (out >>= λ rest. ok (print_first rec rest))
  print_first-IsComplete rec (ok (recs, ending)) h = h
  print_first-IsComplete rec (err reason) h = tt

  next_key-ne :
      (key : LineageKey) (again : Bool) (rec : LineageRecord)
      → next_key reader index key again rec ≢ err depth_limit
  next_key-ne key again rec h = ground arith

  next_key-fresh :
      (key parent : LineageKey) (again : Bool) (rec : LineageRecord)
      → next_key reader index key again rec ≡ ok parent
      → again ≡ false
  next_key-fresh key parent again rec h = ground arith

  go_on-IsComplete :
      (rounds depth : ℕ) (key : LineageKey) (visited : List LineageKey) (rec : LineageRecord)
      (r : Result Ending LineageKey)
      → next_key reader index key (Dict.contains visited key) rec ≡ r
      → ((parent : LineageKey)
          → Dict.contains visited key ≡ false
          → IsComplete (walk reader index rounds (suc depth) parent (key ∷ visited)))
      → IsComplete (go_on reader index rounds depth key visited rec r)
  go_on-IsComplete rounds depth key visited rec (err ending) e later =
      λ same. next_key-ne key (Dict.contains visited key) rec (e ∙ ap err same)
  go_on-IsComplete rounds depth key visited rec (ok parent) e later =
      print_first-IsComplete rec _ (later parent (next_key-fresh key parent _ rec e))

  walk-IsComplete :
      (rounds depth : ℕ) (key : LineageKey) (visited : List LineageKey)
      → unseen visited index < rounds
      → IsComplete (walk reader index rounds depth key visited)
  walk-IsComplete zero depth key visited h = absurd (omega arith)
  walk-IsComplete (suc rounds) depth key visited h = elim (Option-cases (Dict.get key index)) [
    | inl absent ↦
        subst IsComplete (sym (walk-absent reader index rounds depth key visited absent))
          (not_in_index-IsComplete depth key)
    | inr (rec, held) ↦
        let r = next_key reader index key (Dict.contains visited key) rec in
        subst IsComplete (sym (walk-held reader index rounds depth key visited rec r held refl)) (
          go_on-IsComplete rounds depth key visited rec r refl (λ parent fresh.
            walk-IsComplete rounds (suc depth) parent (key ∷ visited)
              (omega (arith, unseen-less visited key index held fresh))))
  ]

  -- In an index of fewer than 256 messages the walk does not stop at its depth limit.
  pub print_lineage_path-IsComplete :
      (start : LineageKey) → length index < 256 → IsComplete (print_lineage_path reader index start)
  unfolding print_lineage_path
  print_lineage_path-IsComplete start h =
      walk-IsComplete 256 0 start [] (omega (arith, unseen-le-length [] index))
