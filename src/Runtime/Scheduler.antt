-- ===== src/Runtime/Scheduler.antt =====
-- crates/runtime/src/scheduler.rs: the deterministic choice of the next delivery.
use mathlib.Core.List.{Perm, Mem, mem-cons_self, mem-cons, not-mem-nil}
use mathlib.Core.List.Perm
use mathlib.Core.Logic.Or
use unified_correctness_orie.Base.{
  ◌≡◌, refl, ap, subst, Bool, true, false, Option, none, some, List, [], ◌∷◌, arith, ltb, leb,
  if◌then◌else◌,
}
use unified_correctness_orie.Base.Sort.{
  sort_by, IsOrder, IsSorted, All-mem, sort_by-perm, sort_by-IsSorted,
}
use unified_correctness_orie.Runtime.Event.{Uuid}

pub record PendingDelivery : Type 0 where
  pub node : Uuid
  pub to : Uuid
  pub msg_id : Uuid

-- The order of the tuple that `delivery_key` gives.
unfoldable pub key_le : PendingDelivery → PendingDelivery → Bool
key_le a b =
    if ltb a.node b.node
    then true
    else if ltb b.node a.node
    then false
    else if ltb a.to b.to
    then true
    else if ltb b.to a.to
    then false
    else leb a.msg_id b.msg_id

abbrev first : List PendingDelivery → Option PendingDelivery
first [] = none
first (d ∷ ds) = some d

unfoldable pub choose_next_deterministic : List PendingDelivery → Option PendingDelivery
unfolding key_le sort_by
choose_next_deterministic pending = first (sort_by key_le pending)

key_le-IsOrder : IsOrder key_le
unfolding key_le
key_le-IsOrder = record { total = λ a b h. ground arith; trans = λ a b c h k. ground arith }

key_le_refl : (a : PendingDelivery) → key_le a a ≡ true
unfolding key_le
key_le_refl a = ground arith

key_le_antisymm : (a b : PendingDelivery) → key_le a b ≡ true → key_le b a ≡ true → a ≡ b
unfolding key_le
key_le_antisymm a b h k = ground arith

abbrev pub IsLeast : PendingDelivery → List PendingDelivery → Type 0
IsLeast d ds = Mem d ds × ((e : PendingDelivery) → Mem e ds → key_le d e ≡ true)

first_of_sorted :
    (d : PendingDelivery) (s ds : List PendingDelivery)
    → Perm s ds
    → IsSorted key_le s
    → first s ≡ some d
    → IsLeast d ds
first_of_sorted d [] ds p o h = cc
first_of_sorted d (x ∷ s) ds p o h =
    let same : x ≡ d = ground arith in rw (← same) ((Perm.mem_iff p).0 mem-cons_self, least)
  where
    least : (e : PendingDelivery) → Mem e ds → key_le x e ≡ true
    least e m =
        Or.elim (hlevel) (mem-cons.0 ((Perm.mem_iff p).1 m)) (λ q. rw q (key_le_refl x))
          (λ later. All-mem (key_le x) (λ _. true) s o.0 later)

-- What choose_next_deterministic chooses is pending, and no pending delivery has a smaller (node,
-- actor, message) key.
pub choose-IsLeast :
    (ds : List PendingDelivery) (d : PendingDelivery)
    → choose_next_deterministic ds ≡ some d
    → IsLeast d ds
unfolding choose_next_deterministic
choose-IsLeast ds d h =
    first_of_sorted d (sort_by key_le ds) ds (sort_by-perm key_le ds)
      (sort_by-IsSorted key_le-IsOrder ds) h

IsLeast-unique :
    (c d : PendingDelivery) (cs ds : List PendingDelivery)
    → Perm cs ds
    → IsLeast c cs
    → IsLeast d ds
    → c ≡ d
IsLeast-unique c d cs ds p h k =
    key_le_antisymm c d (h.1 d ((Perm.mem_iff p).1 k.0)) (k.1 c ((Perm.mem_iff p).0 h.0))

choose-none : (ds : List PendingDelivery) → choose_next_deterministic ds ≡ none → ds ≡ []
unfolding choose_next_deterministic
choose-none [] h = refl
choose-none (d ∷ ds) h =
    absurd (nonempty (sort_by key_le (d ∷ ds)) (sort_by-perm key_le (d ∷ ds)) h)
  where
    nonempty : (s : List PendingDelivery) → Perm s (d ∷ ds) → first s ≡ none → ⊥
    nonempty [] p e = not-mem-nil ((Perm.mem_iff p).1 mem-cons_self)
    nonempty (x ∷ s) p e = cc

choose-nil : choose_next_deterministic [] ≡ none
unfolding choose_next_deterministic
choose-nil = refl

-- The choice of choose_next_deterministic does not depend on the order in which the pending
-- deliveries were collected.
pub choose-perm :
    (cs ds : List PendingDelivery)
    → Perm cs ds
    → choose_next_deterministic cs ≡ choose_next_deterministic ds
choose-perm cs ds p = split (choose_next_deterministic cs) (choose_next_deterministic ds) refl refl
  where
    split :
        (x y : Option PendingDelivery)
        → choose_next_deterministic cs ≡ x
        → choose_next_deterministic ds ≡ y
        → x ≡ y
    split none none e f = refl
    split (some c) (some d) e f =
        ap some (IsLeast-unique c d cs ds p (choose-IsLeast cs c e) (choose-IsLeast ds d f))
    split none (some d) e f = absurd (
        not-mem-nil
          (subst (Mem d) (choose-none cs e) ((Perm.mem_iff p).1 (choose-IsLeast ds d f).0)))
    split (some c) none e f = absurd (
        not-mem-nil
          (subst (Mem c) (choose-none ds f) ((Perm.mem_iff p).0 (choose-IsLeast cs c e).0)))
