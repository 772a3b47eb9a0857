-- ===== src/Tool/Main/Kinds.antt =====
-- The counts that print_summary shows (crates/tool/src/main.rs).
use unified_correctness_orie.Base.{
  ℕ, ◌+◌, ◌≡◌, refl, sym, ap, ◌∙◌, eqb, eqb_iff, list_beq, List, [], ◌∷◌, if◌then◌else◌, arith,
  ◌==◌, nat_eq, list_eq, list_beq_iff, Bool-cases, inl, inr,
}
use unified_correctness_orie.Base.Dict
use unified_correctness_orie.Base.Dict.{Dict, get-insert}
use unified_correctness_orie.Base.Text.{Text, codes}
use unified_correctness_orie.Runtime.Event.{EventKind, TraceEvent}
use unified_correctness_orie.Tool.Main.{event_kind_name, count_of, count_kinds}

counted :
    (name kind : Text) (by_kind : Dict Text ℕ)
    → count_of (Dict.get kind (Dict.insert name (count_of (Dict.get name by_kind) + 1) by_kind))
      ≡ count_of (Dict.get kind by_kind) + (if name == kind then 1 else 0)
counted name kind by_kind = elim (Bool-cases (name == kind)) [
  | inl same ↦
      let equal = (list_beq_iff name kind).0 same in
      rw (get-insert name kind (count_of (Dict.get name by_kind) + 1) by_kind, same)
        (ap (λ k. count_of (Dict.get k by_kind) + 1) equal)
  | inr other ↦
      rw (get-insert name kind (count_of (Dict.get name by_kind) + 1) by_kind, other) (omega arith)
]

-- The variants of `EventKind`.
pub data Kind : Type 0 where
  spawn send deliver timer_fired net_recv net_send log effect_observed fault_injected fault_policy :
      Kind

abbrev rank : Kind → ℕ
rank spawn = 0
rank send = 1
rank deliver = 2
rank timer_fired = 3
rank net_recv = 4
rank net_send = 5
rank log = 6
rank effect_observed = 7
rank fault_injected = 8
rank fault_policy = 9

rank-injective : (a b : Kind) → rank a ≡ rank b → a ≡ b
rank-injective a b h = ground arith

-- The name of a variant in the source.
abbrev pub name_of : Kind → Text
name_of spawn = codes "Spawn"
name_of send = codes "Send"
name_of deliver = codes "Deliver"
name_of timer_fired = codes "TimerFired"
name_of net_recv = codes "NetRecv"
name_of net_send = codes "NetSend"
name_of log = codes "Log"
name_of effect_observed = codes "EffectObserved"
name_of fault_injected = codes "FaultInjected"
name_of fault_policy = codes "FaultPolicy"

-- The place of a name among the names of the variants.
name_rank : Text → ℕ
unfolding list_beq
name_rank name =
    if name == codes "Spawn"
    then 0
    else if name == codes "Send"
    then 1
    else if name == codes "Deliver"
    then 2
    else if name == codes "TimerFired"
    then 3
    else if name == codes "NetRecv"
    then 4
    else if name == codes "NetSend"
    then 5
    else if name == codes "Log"
    then 6
    else if name == codes "EffectObserved"
    then 7
    else if name == codes "FaultInjected"
    then 8
    else if name == codes "FaultPolicy"
    then 9
    else 10

name_rank-name_of : (k : Kind) → name_rank (name_of k) ≡ rank k
unfolding name_rank list_beq
name_rank-name_of spawn = refl
name_rank-name_of send = refl
name_rank-name_of deliver = refl
name_rank-name_of timer_fired = refl
name_rank-name_of net_recv = refl
name_rank-name_of net_send = refl
name_rank-name_of log = refl
name_rank-name_of effect_observed = refl
name_rank-name_of fault_injected = refl
name_rank-name_of fault_policy = refl

name_of-injective : (a b : Kind) → name_of a ≡ name_of b → a ≡ b
name_of-injective a b h =
    rank-injective a b (sym (name_rank-name_of a) ∙ ap name_rank h ∙ name_rank-name_of b)

module _ {V : Type 0} where
  -- The variant that an event is of.
  abbrev kind_of : EventKind V → Kind
  kind_of (EventKind.spawn _ _ _) = spawn
  kind_of (EventKind.send _ _ _ _) = send
  kind_of (EventKind.deliver _ _ _) = deliver
  kind_of (EventKind.timer_fired _ _ _) = timer_fired
  kind_of (EventKind.net_recv _ _ _ _ _) = net_recv
  kind_of (EventKind.net_send _ _ _ _ _) = net_send
  kind_of (EventKind.log _ _ _ _) = log
  kind_of (EventKind.effect_observed _ _ _ _ _ _ _) = effect_observed
  kind_of (EventKind.fault_injected _ _ _ _ _) = fault_injected
  kind_of (EventKind.fault_policy _ _ _ _ _) = fault_policy

  -- The number of the events of a variant.
  abbrev pub occurrences : Kind → List (TraceEvent V) → ℕ
  occurrences kind [] = 0
  occurrences kind (ev ∷ events) =
      (if eqb (rank (kind_of ev.kind)) (rank kind) then 1 else 0) + occurrences kind events

  named : (event : EventKind V) → event_kind_name event ≡ name_of (kind_of event)
  unfolding event_kind_name
  named (EventKind.spawn _ _ _) = refl
  named (EventKind.send _ _ _ _) = refl
  named (EventKind.deliver _ _ _) = refl
  named (EventKind.timer_fired _ _ _) = refl
  named (EventKind.net_recv _ _ _ _ _) = refl
  named (EventKind.net_send _ _ _ _ _) = refl
  named (EventKind.log _ _ _ _) = refl
  named (EventKind.effect_observed _ _ _ _ _ _ _) = refl
  named (EventKind.fault_injected _ _ _ _ _) = refl
  named (EventKind.fault_policy _ _ _ _ _) = refl

  -- Two names are equal when the variants are the same.
  same_name :
      (event : EventKind V) (kind : Kind)
      → (event_kind_name event == name_of kind) ≡ eqb (rank (kind_of event)) (rank kind)
  same_name event kind = elim (Bool-cases (eqb (rank (kind_of event)) (rank kind))) [
    | inl same ↦
        let equal = rank-injective (kind_of event) kind ((eqb_iff _ _).0 same) in
        (list_beq_iff _ _).1 (named event ∙ ap name_of equal) ∙ sym same
    | inr other ↦ elim (Bool-cases (event_kind_name event == name_of kind)) [
      | inl equal ↦
          let same =
            name_of-injective (kind_of event) kind
              (sym (named event) ∙ (list_beq_iff _ _).0 equal) in
          absurd
            (ground (arith, other, (eqb_iff (rank (kind_of event)) (rank kind)).1 (ap rank same)))
      | inr differs ↦ differs ∙ sym other
    ]
  ]

  count_kinds-from :
      (kind : Kind) (events : List (TraceEvent V)) (by_kind : Dict Text ℕ)
      → count_of (Dict.get (name_of kind) (count_kinds events by_kind))
        ≡ count_of (Dict.get (name_of kind) by_kind) + occurrences kind events
  unfolding count_kinds
  count_kinds-from kind [] by_kind = omega arith
  count_kinds-from kind (ev ∷ events) by_kind =
      let step = counted (event_kind_name ev.kind) (name_of kind) by_kind in
      omega (arith, count_kinds-from kind events _, rw (same_name ev.kind kind) at step)

  -- The count that is shown under the name of a variant of EventKind is the number of the events
  -- of this variant.
  pub count_kinds-occurrences :
      (kind : Kind) (events : List (TraceEvent V))
      → count_of (Dict.get (name_of kind) (count_kinds events [])) ≡ occurrences kind events
  unfolding Dict.get
  count_kinds-occurrences kind events = omega (arith, count_kinds-from kind events [])
