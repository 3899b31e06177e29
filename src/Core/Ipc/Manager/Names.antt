-- ===== src/Core/Ipc/Manager/Names.antt =====
-- The table of message queues of kernel/src/core/ipc.cpp: ids and names.
use pocky.Common.{
  ℕ, zero, suc, ◌<◌, ◌≡◌, refl, inl, inr, true, false, Option, none, some, List, [], ◌∷◌, ◌++◌,
  length, set, ==_self, arith, Bool-cases, Option-cases,
}
use pocky.Core.Ipc.{MessageQueue}
use pocky.Core.Ipc.Manager.{same_name, is_named, find_named}

pub same_name_lem : (a b : List ℕ) → same_name a b ≡ true → a ≡ b
same_name_lem [] [] h = refl
same_name_lem [] (d ∷ ds) h = cc
same_name_lem (c ∷ cs) [] h = cc
same_name_lem (c ∷ cs) (d ∷ ds) h = let rest = same_name_lem cs ds in ground arith

pub same_name_self : (a : List ℕ) → same_name a a ≡ true
same_name_self [] = refl
same_name_self (c ∷ cs) = ground (arith, ==_self c, same_name_self cs)

abbrev pub SlotList : Type 0
SlotList = List (Option MessageQueue)

-- No two queues have one name.
abbrev pub AreDistinct : List (Option MessageQueue) → Type 0
AreDistinct [] = Unit {0}
AreDistinct (none ∷ slots) = AreDistinct slots
AreDistinct (some q ∷ slots) = (find_named q.name slots ≡ none) × AreDistinct slots

pub find_named-set_new :
    (name : List ℕ) (slots : SlotList) (i : ℕ) (q : MessageQueue)
    → q.name ≡ name
    → find_named name slots ≡ none
    → i < length slots
    → find_named name (set slots i (some q)) ≡ some i
unfolding find_named
find_named-set_new name [] i q e h k = absurd (omega arith)
find_named-set_new name (x ∷ slots) zero q e h k = ground (arith, same_name_self name)
find_named-set_new name (x ∷ slots) (suc i) q e h k = elim (Bool-cases (is_named name x)) [
  | inl y ↦ absurd (ground arith)
  | inr n ↦ elim (Option-cases (find_named name slots)) [
    | inl missing ↦ rw (n, find_named-set_new name slots i q e missing (omega arith)) refl
    | inr (j, found) ↦ absurd (ground arith)
  ]
]

pub find_named-append_new :
    (name : List ℕ) (slots : SlotList) (q : MessageQueue)
    → q.name ≡ name
    → find_named name slots ≡ none
    → find_named name (slots ++ (some q ∷ [])) ≡ some (length slots)
unfolding find_named
find_named-append_new name [] q e h = ground (arith, same_name_self name)
find_named-append_new name (x ∷ slots) q e h = elim (Bool-cases (is_named name x)) [
  | inl y ↦ absurd (ground arith)
  | inr n ↦ elim (Option-cases (find_named name slots)) [
    | inl missing ↦ rw (n, find_named-append_new name slots q e missing) refl
    | inr (j, found) ↦ absurd (ground arith)
  ]
]

-- Writing at an index leaves a name absent that is neither in the slots nor what is written.
pub find_named-set_other :
    (name : List ℕ) (slots : SlotList) (i : ℕ) (x : Option MessageQueue)
    → is_named name x ≡ false
    → find_named name slots ≡ none
    → find_named name (set slots i x) ≡ none
unfolding find_named
find_named-set_other name [] i x e h = refl
find_named-set_other name (y ∷ slots) zero x e h = ground arith
find_named-set_other name (y ∷ slots) (suc i) x e h = elim (Option-cases (find_named name slots)) [
  | inl missing ↦ ground (arith, find_named-set_other name slots i x e missing)
  | inr (j, found) ↦ absurd (ground arith)
]

pub find_named-append_other :
    (name : List ℕ) (slots : SlotList) (x : Option MessageQueue)
    → is_named name x ≡ false
    → find_named name slots ≡ none
    → find_named name (slots ++ (x ∷ [])) ≡ none
unfolding find_named
find_named-append_other name [] x e h = ground arith
find_named-append_other name (y ∷ slots) x e h = elim (Option-cases (find_named name slots)) [
  | inl missing ↦ ground (arith, find_named-append_other name slots x e missing)
  | inr (j, found) ↦ absurd (ground arith)
]
