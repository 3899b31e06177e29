-- ===== src/Core/Ipc/Manager/Slots.antt =====
-- The slots of the table of kernel/src/core/ipc.cpp: how one write changes what they hold.
use pocky.Common.{
  ℕ, zero, suc, ◌+◌, ◌<◌, ◌≡◌, refl, sym, ap, ◌≢◌, subst, ◌∙◌, inl, inr, false, Option, none, some,
  List, [], ◌∷◌, ◌++◌, length, get_elem?, set, arith, Bool-cases, Option-cases,
}
use pocky.Common.Int.{pos}
use pocky.Core.Ipc.{MessageQueue}
use pocky.Core.Ipc.Manager.{IpcManager, same_name, is_named, find_named, find_free, lookup_queue}
use pocky.Core.Ipc.Manager.Names.{
  SlotList, AreDistinct, same_name_lem, same_name_self, find_named-set_other,
  find_named-append_other,
}

-- A queue of a new name is absent under the name of every queue that is there.
unlike :
    (name : List ℕ) (p q : MessageQueue)
    → q.name ≡ name
    → is_named name (some p) ≡ false
    → is_named p.name (some q) ≡ false
unlike name p q e h = elim (Bool-cases (same_name q.name p.name)) [
  | inr n ↦ n
  | inl y ↦
      let alike : q.name ≡ p.name = same_name_lem q.name p.name y in
      let twin : p.name ≡ name = sym alike ∙ e in absurd (ground (arith, same_name_self name))
]

pub find_named_rest :
    (name : List ℕ) (x : Option MessageQueue) (slots : SlotList)
    → find_named name (x ∷ slots) ≡ none
    → (is_named name x ≡ false) × (find_named name slots ≡ none)
unfolding find_named
find_named_rest name x slots h = elim (Bool-cases (is_named name x)) [
  | inl y ↦ absurd (ground arith)
  | inr n ↦ elim (Option-cases (find_named name slots)) [
    | inl missing ↦ (n, missing)
    | inr (j, found) ↦ absurd (ground arith)
  ]
]

pub AreDistinct-set_new :
    (name : List ℕ) (slots : SlotList) (i : ℕ) (q : MessageQueue)
    → q.name ≡ name
    → find_named name slots ≡ none
    → AreDistinct slots
    → AreDistinct (set slots i (some q))
AreDistinct-set_new name [] i q e h d = tt
AreDistinct-set_new name (none ∷ slots) zero q e h d =
    (subst (λ n. find_named n slots ≡ none) (sym e) (find_named_rest name none slots h).1, d)
AreDistinct-set_new name (some p ∷ slots) zero q e h d =
    (subst (λ n. find_named n slots ≡ none) (sym e) (find_named_rest name (some p) slots h).1, d.1)
AreDistinct-set_new name (none ∷ slots) (suc i) q e h d =
    AreDistinct-set_new name slots i q e (find_named_rest name none slots h).1 d
AreDistinct-set_new name (some p ∷ slots) (suc i) q e h d =
    let rest = find_named_rest name (some p) slots h in
    (
      find_named-set_other p.name slots i (some q) (unlike name p q e rest.0) d.0,
      AreDistinct-set_new name slots i q e rest.1 d.1,
    )

pub AreDistinct-append_new :
    (name : List ℕ) (slots : SlotList) (q : MessageQueue)
    → q.name ≡ name
    → find_named name slots ≡ none
    → AreDistinct slots
    → AreDistinct (slots ++ (some q ∷ []))
unfolding find_named
AreDistinct-append_new name [] q e h d = (refl, tt)
AreDistinct-append_new name (none ∷ slots) q e h d =
    AreDistinct-append_new name slots q e (find_named_rest name none slots h).1 d
AreDistinct-append_new name (some p ∷ slots) q e h d =
    let rest = find_named_rest name (some p) slots h in
    (
      find_named-append_other p.name slots (some q) (unlike name p q e rest.0) d.0,
      AreDistinct-append_new name slots q e rest.1 d.1,
    )

pub AreDistinct-set-none :
    (slots : SlotList) (i : ℕ) → AreDistinct slots → AreDistinct (set slots i none)
AreDistinct-set-none [] i d = tt
AreDistinct-set-none (none ∷ slots) zero d = d
AreDistinct-set-none (some p ∷ slots) zero d = d.1
AreDistinct-set-none (none ∷ slots) (suc i) d = AreDistinct-set-none slots i d
AreDistinct-set-none (some p ∷ slots) (suc i) d =
    (find_named-set_other p.name slots i none refl d.0, AreDistinct-set-none slots i d.1)

pub find_free_within :
    (slots : SlotList) (i : ℕ)
    → find_free slots ≡ some i
    → (i < length slots) × (get_elem? slots i ≡ some none)
unfolding find_free
find_free_within [] i h = cc
find_free_within (none ∷ slots) i h =
    let first : i ≡ 0 = ground arith in rw first (omega arith, refl)
find_free_within (some p ∷ slots) i h = elim (Option-cases (find_free slots)) [
  | inl missing ↦ absurd (ground arith)
  | inr (j, found) ↦
      let next : i ≡ suc j = ground arith in
      let rest = find_free_within slots j found in rw next (omega (arith, rest.0), rest.1)
]

pub get_elem?-set :
    (slots : SlotList) (i : ℕ) (x : Option MessageQueue)
    → i < length slots
    → get_elem? (set slots i x) i ≡ some x
get_elem?-set [] i x h = absurd (omega arith)
get_elem?-set (y ∷ slots) zero x h = refl
get_elem?-set (y ∷ slots) (suc i) x h = get_elem?-set slots i x (omega arith)

pub get_elem?-append :
    (slots : SlotList) (x : Option MessageQueue)
    → get_elem? (slots ++ (x ∷ [])) (length slots) ≡ some x
get_elem?-append [] x = refl
get_elem?-append (y ∷ slots) x = get_elem?-append slots x

pub get_elem?-set_other :
    (slots : SlotList) (i j : ℕ) (x : Option MessageQueue)
    → j ≢ i
    → get_elem? (set slots i x) j ≡ get_elem? slots j
get_elem?-set_other [] i j x d = refl
get_elem?-set_other (y ∷ slots) zero zero x d = absurd (d refl)
get_elem?-set_other (y ∷ slots) zero (suc j) x d = refl
get_elem?-set_other (y ∷ slots) (suc i) zero x d = refl
get_elem?-set_other (y ∷ slots) (suc i) (suc j) x d =
    get_elem?-set_other slots i j x (λ e. d (ap suc e))

pub get_elem?-append_other :
    (slots : SlotList) (j : ℕ) (x : Option MessageQueue)
    → j < length slots
    → get_elem? (slots ++ (x ∷ [])) j ≡ get_elem? slots j
get_elem?-append_other [] j x h = absurd (omega arith)
get_elem?-append_other (y ∷ slots) zero x h = refl
get_elem?-append_other (y ∷ slots) (suc j) x h = get_elem?-append_other slots j x (omega arith)

pub lookup_at :
    (m : IpcManager) (i : ℕ) (q : MessageQueue)
    → m.next_queue_id ≡ length m.message_queues + 1
    → i < length m.message_queues
    → get_elem? m.message_queues i ≡ some (some q)
    → lookup_queue (pos (suc i)) m ≡ some (i, q)
unfolding lookup_queue
lookup_at m i q next inside at = ground arith
