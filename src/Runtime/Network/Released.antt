-- ===== src/Runtime/Network/Released.antt =====
-- What a step of drain_network drops, releases and delivers, without the words of its code
-- (crates/runtime/src/main.rs).
use mathlib.Core.List.{append_assoc, append-nil}
use unified_correctness_orie.Base.{
  ℕ, zero, suc, ◌%◌, ◌≤◌, ◌<◌, ◌≡◌, refl, sym, ap, ◌∙◌, Bool, true, false, Option, none, some, List,
  [], ◌∷◌, ◌++◌, map, arith, eqb, ltb, lt→ltb, ◌&&◌, if◌then◌else◌, All, ◌==◌, nat_eq, eqb_iff,
  Bool-cases, Option-cases, inl, inr, subst,
}
use unified_correctness_orie.Base.Dict
use unified_correctness_orie.Base.Dict.{get-insert}
use unified_correctness_orie.Runtime.Event.{Uuid, WireEnvelope}
use unified_correctness_orie.Runtime.Actor.{Actor, ActorSystem}
use unified_correctness_orie.Runtime.Fault.{FaultPolicy}
use unified_correctness_orie.Runtime.Injector.{StagedInbound, is_dropped, due_prefix}
use unified_correctness_orie.Runtime.Node.{deliver_to_inbox, push_inbox}
use unified_correctness_orie.Runtime.Network.{receive_all}

-- The count is a multiple of the setting, which is neither off nor 0.
abbrev pub is_multiple : Option ℕ → ℕ → Bool
is_multiple none count = false
is_multiple (some zero) count = false
is_multiple (some (suc n)) count = eqb (count % suc n) 0

pub is_dropped-is_multiple :
    (policy : FaultPolicy) (count : ℕ)
    → is_dropped policy count ≡ is_multiple policy.drop_every count
unfolding is_dropped
is_dropped-is_multiple policy count = dropped policy.drop_every
  where
    dropped :
        (every : Option ℕ)
        → (elim every [ none ↦ false | some n ↦ ltb 0 n && eqb (count % n) 0 ])
          ≡ is_multiple every count
    dropped none = refl
    dropped (some zero) = refl
    dropped (some (suc n)) =
        let positive : ltb 0 (suc n) ≡ true = lt→ltb 0 (suc n) (omega arith) in rw positive refl

module _ {V : Type 0} where
  -- The queue is empty, or its front is not due.
  abbrev Waits : ℕ → List (StagedInbound V) → Type 0
  Waits step [] = Unit
  Waits step (front ∷ rest) = step < front.release_step

  -- The envelopes of the longest front of the queue in which all messages are due, and the rest.
  abbrev pub IsReleased :
      ℕ → List (StagedInbound V) → List (WireEnvelope V) × List (StagedInbound V) → Type 0
  IsReleased step queue out =
      (front : List (StagedInbound V)) × (queue ≡ front ++ out.1)
      × (out.0 ≡ map (λ s. s.env) front)
      × All (λ s. s.release_step ≤ step) front
      × Waits step out.1

  pub due_prefix-IsReleased :
      (step : ℕ) (queue : List (StagedInbound V)) → IsReleased step queue (due_prefix step queue)
  unfolding due_prefix
  due_prefix-IsReleased step [] = ([], refl, refl, tt, tt)
  due_prefix-IsReleased step (s ∷ queue) = elim (Bool-cases (ltb step s.release_step)) [
    | inl early ↦ rw early ([], refl, refl, tt, ground arith)
    | inr due ↦
        let (front, all, sent, ready, waits) = due_prefix-IsReleased step queue in
        rw due (s ∷ front, ap (◌∷◌ s) all, ap (◌∷◌ s.env) sent, (ground arith, ready), waits)
  ]

  -- The messages for an actor, in order.
  abbrev messages_for : Uuid → List (WireEnvelope V) → List (Uuid × V)
  messages_for id [] = []
  messages_for id (env ∷ envs) =
      let rest = messages_for id envs in
      if env.to_actor == id then (env.msg_id, env.payload) ∷ rest else rest

  abbrev with_messages : List (Uuid × V) → Actor V → Actor V
  with_messages messages actor = record actor { inbox = actor.inbox ++ messages }

  -- Each actor has the messages for it behind those that it had, and there is no other actor.
  abbrev pub IsReceived : List (WireEnvelope V) → ActorSystem V → ActorSystem V → Type 0
  IsReceived envs sys sys' =
      ((id : Uuid) (actor : Actor V)
        → Dict.get id sys ≡ some actor
        → Dict.get id sys' ≡ some (with_messages (messages_for id envs) actor))
      × ((id : Uuid) → Dict.get id sys ≡ none → Dict.get id sys' ≡ none)

  deliver-unknown :
      (to msg_id : Uuid) (payload : V) (sys : ActorSystem V)
      → Dict.get to sys ≡ none
      → deliver_to_inbox to msg_id payload sys ≡ sys
  unfolding deliver_to_inbox
  deliver-unknown to msg_id payload sys n = rw (deliver_to_inbox, n) refl

  deliver-known :
      (to msg_id : Uuid) (payload : V) (sys : ActorSystem V) (target : Actor V)
      → Dict.get to sys ≡ some target
      → deliver_to_inbox to msg_id payload sys
        ≡ Dict.insert to (push_inbox msg_id payload target) sys
  unfolding deliver_to_inbox
  deliver-known to msg_id payload sys target found = rw (deliver_to_inbox, found) refl

  delivered :
      (id to msg_id : Uuid) (payload : V) (sys : ActorSystem V) (actor : Actor V)
      → Dict.get id sys ≡ some actor
      → Dict.get id (deliver_to_inbox to msg_id payload sys)
        ≡ some (if to == id then push_inbox msg_id payload actor else actor)
  delivered id to msg_id payload sys actor h = elim (Option-cases (Dict.get to sys)) [
    | inl n ↦ elim (Bool-cases (to == id)) [
      | inl same ↦
          let gone : Dict.get id sys ≡ none =
            subst (λ k. Dict.get k sys ≡ none) ((eqb_iff to id).0 same) n in
          absurd (let clash : some actor ≡ none = sym h ∙ gone in cc)
      | inr other ↦ rw (deliver-unknown to msg_id payload sys n, other) h
    ]
    | inr (target, found) ↦ elim (Bool-cases (to == id)) [
      | inl same ↦
          let here : some target ≡ some actor =
            sym found ∙ ap (λ k. Dict.get k sys) ((eqb_iff to id).0 same) ∙ h in
          rw
            (
              deliver-known to msg_id payload sys target found,
              get-insert to id (push_inbox msg_id payload target) sys,
              same,
            )
            (ap some (let equal : target ≡ actor = cc in ap (push_inbox msg_id payload) equal))
      | inr other ↦
          rw
            (
              deliver-known to msg_id payload sys target found,
              get-insert to id (push_inbox msg_id payload target) sys,
              other,
            )
            h
    ]
  ]

  absent :
      (id to msg_id : Uuid) (payload : V) (sys : ActorSystem V)
      → Dict.get id sys ≡ none
      → Dict.get id (deliver_to_inbox to msg_id payload sys) ≡ none
  absent id to msg_id payload sys h = elim (Option-cases (Dict.get to sys)) [
    | inl n ↦ rw (deliver-unknown to msg_id payload sys n) h
    | inr (target, found) ↦ elim (Bool-cases (to == id)) [
      | inl same ↦
          let here : some target ≡ none =
            sym found ∙ ap (λ k. Dict.get k sys) ((eqb_iff to id).0 same) ∙ h in
          absurd cc
      | inr other ↦
          rw
            (
              deliver-known to msg_id payload sys target found,
              get-insert to id (push_inbox msg_id payload target) sys,
              other,
            )
            h
    ]
  ]

  received_some :
      (envs : List (WireEnvelope V)) (sys : ActorSystem V) (id : Uuid) (actor : Actor V)
      → Dict.get id sys ≡ some actor
      → Dict.get id (receive_all envs sys) ≡ some (with_messages (messages_for id envs) actor)
  unfolding receive_all
  received_some [] sys id actor h = rw (append-nil actor.inbox) h
  received_some (env ∷ envs) sys id actor h =
      let next = deliver_to_inbox env.to_actor env.msg_id env.payload sys in
      let step = delivered id env.to_actor env.msg_id env.payload sys actor h in
      elim (Bool-cases (env.to_actor == id)) [
        | inl same ↦
            received_some envs next id (push_inbox env.msg_id env.payload actor) (rw same at step)
            ∙ (rw same (
                ap (λ i. some (record actor { inbox = i }))
                  (append_assoc actor.inbox ((env.msg_id, env.payload) ∷ [])
                    (messages_for id envs))))
        | inr other ↦ rw other (received_some envs next id actor (rw other at step))
      ]

  received_none :
      (envs : List (WireEnvelope V)) (sys : ActorSystem V) (id : Uuid)
      → Dict.get id sys ≡ none
      → Dict.get id (receive_all envs sys) ≡ none
  unfolding receive_all
  received_none [] sys id h = h
  received_none (env ∷ envs) sys id h =
      received_none envs _ id (absent id env.to_actor env.msg_id env.payload sys h)

  pub receive_all-IsReceived :
      (envs : List (WireEnvelope V)) (sys : ActorSystem V)
      → IsReceived envs sys (receive_all envs sys)
  receive_all-IsReceived envs sys = (received_some envs sys, received_none envs sys)
