-- ===== src/Core/Ipc/Manager/Lookup.antt =====
-- The queue at an id of the table of kernel/src/core/ipc.cpp, and the names after a queue is gone.
use pocky.Common.{
  ℕ, zero, suc, ◌+◌, ◌<◌, ◌≡◌, refl, sym, ap, subst, ◌∙◌, inl, inr, true, false, ◌||◌, Option, none,
  some, List, [], ◌∷◌, length, get_elem?, set, ltb, leb, arith, Bool-cases,
}
use pocky.Common.Int.{ℤ, pos, negsuc}
use pocky.Core.Ipc.{MessageQueue}
use pocky.Core.Ipc.Manager.{IpcManager, at_slot, same_name, is_named, find_named, lookup_queue}
use pocky.Core.Ipc.Manager.Names.{SlotList, AreDistinct, same_name_lem, same_name_self}
use pocky.Core.Ipc.Manager.Slots.{find_named_rest}

lookup_slot :
    (slot : Option (Option MessageQueue)) (n i : ℕ) (q : MessageQueue)
    → at_slot n slot ≡ some (i, q)
    → (n ≡ i) × (slot ≡ some (some q))
lookup_slot none n i q h = cc
lookup_slot (some none) n i q h = cc
lookup_slot (some (some x)) n i q h =
    let same : x ≡ q = ground arith in (ground arith, ap (λ y. some (some y)) same)

pub lookup_inv :
    (id : ℤ) (m : IpcManager) (i : ℕ) (q : MessageQueue)
    → lookup_queue id m ≡ some (i, q)
    → (id ≡ pos (suc i))
      × (i < length m.message_queues)
      × (get_elem? m.message_queues i ≡ some (some q))
unfolding lookup_queue
lookup_inv (negsuc n) m i q h = cc
lookup_inv (pos zero) m i q h = cc
lookup_inv (pos (suc n)) m i q h =
    elim (Bool-cases (leb m.next_queue_id (suc n) || ltb (length m.message_queues) (suc n))) [
      | inl y ↦ absurd (ground arith)
      | inr free ↦
          let slot = lookup_slot (get_elem? m.message_queues n) n i q (rw free at h) in
          let inside : n < length m.message_queues = ground arith in
          (
            ap (λ k. pos (suc k)) slot.0,
            omega (arith, slot.0),
            subst (λ k. get_elem? m.message_queues k ≡ some (some q)) slot.0 slot.1,
          )
    ]

pub lookup_empty :
    (m : IpcManager) (i : ℕ)
    → get_elem? m.message_queues i ≡ some none
    → lookup_queue (pos (suc i)) m ≡ none
unfolding lookup_queue
lookup_empty m i at = ground arith

pub lookup_beyond :
    (m : IpcManager)
    → m.next_queue_id ≡ length m.message_queues + 1
    → lookup_queue (pos (suc (length m.message_queues))) m ≡ none
unfolding lookup_queue
lookup_beyond m next = ground (arith, next)

absent_at :
    (name : List ℕ) (slots : SlotList) (i : ℕ) (x : Option MessageQueue)
    → find_named name slots ≡ none
    → get_elem? slots i ≡ some x
    → is_named name x ≡ false
absent_at name [] i x h at = cc
absent_at name (y ∷ slots) zero x h at =
    let same : y ≡ x = ground arith in
    subst (λ z. is_named name z ≡ false) same (find_named_rest name y slots h).0
absent_at name (y ∷ slots) (suc i) x h at =
    absent_at name slots i x (find_named_rest name y slots h).1 at

find_named_cons :
    (name : List ℕ) (x : Option MessageQueue) (slots : SlotList)
    → is_named name x ≡ false
    → find_named name slots ≡ none
    → find_named name (x ∷ slots) ≡ none
unfolding find_named
find_named_cons name x slots n h = rw (n, h) refl

differs :
    (name : List ℕ) (p q : MessageQueue)
    → q.name ≡ name
    → is_named p.name (some q) ≡ false
    → is_named name (some p) ≡ false
differs name p q e h = elim (Bool-cases (same_name p.name name)) [
  | inr n ↦ n
  | inl y ↦
      let alike : q.name ≡ p.name = e ∙ sym (same_name_lem p.name name y) in
      absurd (ground (arith, subst (λ n. same_name q.name n ≡ true) alike (same_name_self q.name)))
]

-- What is left after the queue at an index is gone.
pub find_named-set_gone :
    (name : List ℕ) (slots : SlotList) (i : ℕ) (q : MessageQueue)
    → q.name ≡ name
    → AreDistinct slots
    → get_elem? slots i ≡ some (some q)
    → find_named name (set slots i none) ≡ none
find_named-set_gone name [] i q e d at = cc
find_named-set_gone name (none ∷ slots) zero q e d at = absurd (ground arith)
find_named-set_gone name (some p ∷ slots) zero q e d at =
    let same : p ≡ q = ground arith in
    find_named_cons name none slots refl
      (subst (λ n. find_named n slots ≡ none) (ap (λ x. x.name) same ∙ e) d.0)
find_named-set_gone name (none ∷ slots) (suc i) q e d at =
    find_named_cons name none (set slots i none) refl (find_named-set_gone name slots i q e d at)
find_named-set_gone name (some p ∷ slots) (suc i) q e d at =
    find_named_cons name (some p) (set slots i none)
      (differs name p q e (absent_at p.name slots i (some q) d.0 at))
      (find_named-set_gone name slots i q e d.1 at)
