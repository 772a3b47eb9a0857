-- ===== src/Tool/Lineage/Counts.antt =====
-- What the counts of summarize_lineage add up to (crates/tool/src/main.rs).
use unified_correctness_orie.Base.{
  ℕ, ◌+◌, ◌≤◌, ◌≡◌, refl, List, [], ◌∷◌, All, length, length-map, arith, Option-cases, inl, inr,
  nat_eq, pair_eq,
}
use unified_correctness_orie.Base.Dict
use unified_correctness_orie.Base.Dict.{Dict}
use unified_correctness_orie.Tool.Payload.{Reader, LineageKey}
use unified_correctness_orie.Tool.Lineage.{
  LineageRecord, LineageSummary, lineage_parent_key, summarize_record, summarize_each,
  summarize_lineage,
}

-- The messages that are counted in one of the groups.
abbrev pub grouped : LineageSummary → ℕ
grouped s =
    s.roots + s.resolved_parents + s.unresolved_internal_parents + s.unresolved_external_parents
    + s.invalid_parent_refs

module _ {V : Type 0} (reader : Reader V) (index : Dict LineageKey LineageRecord) where
  -- One message is counted in one group, and the greatest number of hops takes it in.
  abbrev CountsOne : LineageRecord → LineageSummary → LineageSummary → Type 0
  CountsOne rec s s' =
      (grouped s' ≡ grouped s + 1)
      × (s'.total ≡ s.total)
      × (rec.provenance.hops ≤ s'.max_hops)
      × (s.max_hops ≤ s'.max_hops)

  summarize_record-CountsOne :
      (rec : LineageRecord) (s : LineageSummary)
      → CountsOne rec s (summarize_record reader index rec s)
  unfolding summarize_record
  summarize_record-CountsOne rec s = elim (Option-cases (lineage_parent_key reader rec)) [
    | inl bad ↦ rw (summarize_record, bad) (ground arith, ground arith, ground arith, ground arith)
    | inr (parent, read) ↦
        rw (summarize_record, read) (ground arith, ground arith, ground arith, ground arith)
  ]

  -- What the loop counts of the records that are left.
  abbrev CountsAll : List LineageRecord → LineageSummary → LineageSummary → Type 0
  CountsAll recs s s' =
      (grouped s' ≡ grouped s + length recs)
      × (s'.total ≡ s.total)
      × All (λ rec. rec.provenance.hops ≤ s'.max_hops) recs
      × (s.max_hops ≤ s'.max_hops)

  summarize_each-CountsAll :
      (recs : List LineageRecord) (s : LineageSummary)
      → CountsAll recs s (summarize_each reader index recs s)
  unfolding summarize_each
  summarize_each-CountsAll [] s = (omega arith, refl, tt, omega arith)
  summarize_each-CountsAll (rec ∷ recs) s =
      let (sum, total, most, more) = summarize_record-CountsOne rec s in
      let (sum', total', most', more') =
        summarize_each-CountsAll recs (summarize_record reader index rec s) in
      (omega arith, omega arith, (omega arith, most'), omega arith)

-- The counts of a lineage summary: the total is the number of indexed messages, each of them is
-- in exactly one of the groups, and none has more hops than the maximum that is shown.
pub summarize_lineage_sums :
    {V : Type 0} (reader : Reader V) (index : Dict LineageKey LineageRecord)
    → let s = summarize_lineage reader index in
      (s.total ≡ length index)
      × (grouped s ≡ s.total)
      × All (λ rec. rec.provenance.hops ≤ s.max_hops) (Dict.values index)
unfolding summarize_lineage
summarize_lineage_sums reader index =
    let (sum, total, most, more) = summarize_each-CountsAll reader index (Dict.values index) _ in
    (total, omega (arith, length-map index (λ p. p.1)), most)
