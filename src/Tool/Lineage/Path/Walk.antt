-- ===== src/Tool/Lineage/Path/Walk.antt =====
-- What print_lineage_path prints (crates/tool/src/main.rs): the chain of the parents, to its end.
use unified_correctness_orie.Base.{
  ℕ, zero, suc, ◌≤◌, ◌≡◌, ◌≢◌, refl, sym, subst, none, some, List, [], ◌∷◌, arith, eqb, true, false,
  Bool, Bool-cases, Option-cases, inl, inr, length, Result, ok, err, ◌>>=◌, ◌==◌, nat_eq, pair_eq,
  pair_beq_iff,
}
use unified_correctness_orie.Base.Dict
use unified_correctness_orie.Base.Dict.{Dict}
use unified_correctness_orie.Tool.Payload.{Reader, LineageKey}
use unified_correctness_orie.Tool.Lineage.{LineageRecord, lineage_parent_key}
use unified_correctness_orie.Tool.Lineage.Path.{
  Ending, missing, root_reached, invalid_parent, parent_is_self, cycle_detected, depth_limit,
  PathError, Printed, print_first, next_key, not_in_index, walk, print_lineage_path,
}

module _ {V : Type 0} (reader : Reader V) (index : Dict LineageKey LineageRecord) where
  abbrev pub Holds : LineageKey → LineageRecord → Type 0
  Holds key rec = Dict.get key index ≡ some rec

  -- The parent that a record names: it is not a root, and the parent is another key.
  abbrev HasParent : LineageKey → LineageRecord → LineageKey → Type 0
  HasParent key rec parent =
      (rec.provenance.hops ≢ 0) × (lineage_parent_key reader rec ≡ some parent) × (parent ≢ key)

  -- From a key on, with the number of records that may still be printed and the keys visited
  -- before: the records are those of the key, of its parent, of the parent of that, and so on. Each
  -- ending has its condition, and the walk goes on only from a key that was not visited before.
  pub data IsTrail : ℕ → List LineageKey → LineageKey → List LineageRecord → Ending → Type 0 where
    not_indexed :
        {left : ℕ} {visited : List LineageKey} {key : LineageKey}
        → Dict.get key index ≡ none
        → IsTrail (suc left) visited key [] (missing key)
    too_deep : {visited : List LineageKey} {key : LineageKey} → IsTrail 0 visited key [] depth_limit
    root :
        {left : ℕ} {visited : List LineageKey} {key : LineageKey} {rec : LineageRecord}
        → Holds key rec
        → rec.provenance.hops ≡ 0
        → IsTrail (suc left) visited key (rec ∷ []) root_reached
    unreadable :
        {left : ℕ} {visited : List LineageKey} {key : LineageKey} {rec : LineageRecord}
        → Holds key rec
        → rec.provenance.hops ≢ 0
        → lineage_parent_key reader rec ≡ none
        → IsTrail (suc left) visited key (rec ∷ []) invalid_parent
    own_parent :
        {left : ℕ} {visited : List LineageKey} {key : LineageKey} {rec : LineageRecord}
        → Holds key rec
        → rec.provenance.hops ≢ 0
        → lineage_parent_key reader rec ≡ some key
        → IsTrail (suc left) visited key (rec ∷ []) parent_is_self
    seen_before :
        {left : ℕ} {visited : List LineageKey} {key parent : LineageKey} {rec : LineageRecord}
        → Holds key rec
        → HasParent key rec parent
        → Dict.contains visited key ≡ true
        → IsTrail (suc left) visited key (rec ∷ []) cycle_detected
    onward :
        {left : ℕ} {visited : List LineageKey} {key parent : LineageKey} {rec : LineageRecord}
        {recs : List LineageRecord} {ending : Ending}
        → Holds key rec
        → HasParent key rec parent
        → Dict.contains visited key ≡ false
        → IsTrail left (key ∷ visited) parent recs ending
        → IsTrail (suc left) visited key (rec ∷ recs) ending

  module _ (left : ℕ) (visited : List LineageKey) (key : LineageKey) (rec : LineageRecord)
      (held : Holds key rec) where
    abbrev Next : Bool → Result Ending LineageKey
    Next again = next_key reader index key again rec

    -- With the tests on the record computed: why the walk ends there, or that it goes on.
    abbrev IsNext : Result Ending LineageKey → Type 0
    IsNext (err ending) = IsTrail (suc left) visited key (rec ∷ []) ending
    IsNext (ok parent) = HasParent key rec parent × (Dict.contains visited key ≡ false)

    differs : {parent : LineageKey} → parent ≡ key → (parent == key) ≡ false → ⊥
    differs {parent} e other = let same = (pair_beq_iff parent key).1 e in cc

    parent_next :
        (parent : LineageKey)
        → rec.provenance.hops ≢ 0
        → eqb rec.provenance.hops 0 ≡ false
        → lineage_parent_key reader rec ≡ some parent
        → IsNext (Next (Dict.contains visited key))
    parent_next parent some_hops test read = elim (Bool-cases (parent == key)) [
      | inl same ↦
          let own = rw ((pair_beq_iff parent key).0 same) at read in
          rw (test, read, same) (own_parent held some_hops own)
      | inr other ↦ elim (Bool-cases (Dict.contains visited key)) [
        | inl again ↦
            rw (test, read, other, again)
              (seen_before held (some_hops, read, (λ e. absurd (differs e other))) again)
        | inr fresh ↦
            rw (test, read, other, fresh)
              ((some_hops, read, (λ e. absurd (differs e other))), fresh)
      ]
    ]

    next_key-IsNext : IsNext (Next (Dict.contains visited key))
    next_key-IsNext = elim (Bool-cases (eqb rec.provenance.hops 0)) [
      | inl no_hops ↦ rw no_hops (root held (ground arith))
      | inr hops ↦ elim (Option-cases (lineage_parent_key reader rec)) [
        | inl bad ↦ rw (hops, bad) (unreadable held (λ e. ground arith) bad)
        | inr (parent, read) ↦ parent_next parent (λ e. ground arith) hops read
      ]
    ]

  -- What a walk gives: at most as many records as it has rounds, along the parents.
  abbrev Walked : ℕ → ℕ → List LineageKey → LineageKey → Result PathError Printed → Type 0
  Walked rounds depth visited key (ok (recs, ending)) =
      IsTrail rounds visited key recs ending × (length recs ≤ rounds)
  Walked rounds depth visited key (err reason) = (depth ≡ 0) × (Dict.get key index ≡ none)

  print_first-Walked :
      (rounds depth : ℕ) (visited : List LineageKey) (key parent : LineageKey) (rec : LineageRecord)
      (out : Result PathError Printed)
      → Holds key rec
      → HasParent key rec parent × (Dict.contains visited key ≡ false)
      → Walked rounds (suc depth) (key ∷ visited) parent out
      → Walked (suc rounds) depth visited key (out >>= λ rest. ok (print_first rec rest))
  print_first-Walked rounds depth visited key parent rec (ok (recs, ending)) held (named, fresh)
        (trail, short) =
      (onward held named fresh trail, omega (arith, short))
  print_first-Walked rounds depth visited key parent rec (err reason) held next (deep, _) =
      absurd (omega arith)

  pub walk-absent :
      (rounds depth : ℕ) (key : LineageKey) (visited : List LineageKey)
      → Dict.get key index ≡ none
      → walk reader index (suc rounds) depth key visited ≡ not_in_index depth key
  unfolding walk
  walk-absent rounds depth key visited absent = rw (walk, absent) refl

  abbrev pub go_on :
      ℕ
      → ℕ
      → LineageKey
      → List LineageKey
      → LineageRecord
      → Result Ending LineageKey
      → Result PathError Printed
  go_on rounds depth key visited rec (err ending) = ok (rec ∷ [], ending)
  go_on rounds depth key visited rec (ok parent) =
      walk reader index rounds (suc depth) parent (key ∷ visited) >>= λ rest.
      ok (print_first rec rest)

  pub walk-held :
      (rounds depth : ℕ) (key : LineageKey) (visited : List LineageKey) (rec : LineageRecord)
      (r : Result Ending LineageKey)
      → Holds key rec
      → next_key reader index key (Dict.contains visited key) rec ≡ r
      → walk reader index (suc rounds) depth key visited ≡ go_on rounds depth key visited rec r
  unfolding walk
  walk-held rounds depth key visited rec (err ending) held e = rw (walk, held, e) refl
  walk-held rounds depth key visited rec (ok parent) held e = rw (walk, held, e) refl

  not_in_index-Walked :
      (rounds depth : ℕ) (key : LineageKey) (visited : List LineageKey)
      → Dict.get key index ≡ none
      → Walked (suc rounds) depth visited key (not_in_index depth key)
  not_in_index-Walked rounds depth key visited absent = elim (Bool-cases (eqb depth 0)) [
    | inl start ↦ rw start (ground arith, absent)
    | inr later ↦ rw later (not_indexed absent, omega arith)
  ]

  go_on-Walked :
      (rounds depth : ℕ) (key : LineageKey) (visited : List LineageKey) (rec : LineageRecord)
      (r : Result Ending LineageKey)
      → (held : Holds key rec) → IsNext rounds visited key rec held r
      → ((parent : LineageKey)
          → Walked rounds
              (suc depth)
              (key ∷ visited)
              parent
              (walk reader index rounds (suc depth) parent (key ∷ visited)))
      → Walked (suc rounds) depth visited key (go_on rounds depth key visited rec r)
  go_on-Walked rounds depth key visited rec (err ending) held next later = (next, omega arith)
  go_on-Walked rounds depth key visited rec (ok parent) held next later =
      print_first-Walked rounds depth visited key parent rec _ held next (later parent)

  walk-Walked :
      (rounds depth : ℕ) (key : LineageKey) (visited : List LineageKey)
      → Walked rounds depth visited key (walk reader index rounds depth key visited)
  unfolding walk
  walk-Walked zero depth key visited = (too_deep, omega arith)
  walk-Walked (suc rounds) depth key visited = elim (Option-cases (Dict.get key index)) [
    | inl absent ↦
        subst (Walked (suc rounds) depth visited key)
          (sym (walk-absent rounds depth key visited absent))
          (not_in_index-Walked rounds depth key visited absent)
    | inr (rec, held) ↦
        let r = next_key reader index key (Dict.contains visited key) rec in
        subst (Walked (suc rounds) depth visited key)
          (sym (walk-held rounds depth key visited rec r held refl))
          (go_on-Walked rounds depth key visited rec r held
            (next_key-IsNext rounds visited key rec held)
            (λ parent. walk-Walked rounds (suc depth) parent (key ∷ visited)))
  ]

  abbrev pub IsPrinted : LineageKey → Result PathError Printed → Type 0
  IsPrinted start (ok (recs, ending)) = IsTrail 256 [] start recs ending × (length recs ≤ 256)
  IsPrinted start (err reason) = Dict.get start index ≡ none

  -- What is printed is a trail from the message on, of at most 256 records: the record of the
  -- message, then each time that of the parent which the last one names, never going on from a
  -- message twice, up to the first record at which the reason that is printed holds; the depth
  -- limit is printed only behind 256 records. An error means that the message is not in the
  -- index.
  pub print_lineage_path-IsPrinted :
      (start : LineageKey) → IsPrinted start (print_lineage_path reader index start)
  unfolding print_lineage_path
  print_lineage_path-IsPrinted start =
      printed (walk reader index 256 0 start []) (walk-Walked 256 0 start [])
    where
      printed : (out : Result PathError Printed) → Walked 256 0 [] start out → IsPrinted start out
      printed (ok (recs, ending)) h = h
      printed (err reason) h = h.1
