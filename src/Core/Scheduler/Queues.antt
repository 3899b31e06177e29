-- ===== src/Core/Scheduler/Queues.antt =====
-- The run queues as a whole: which processes they hold, and how often.
use pocky.Common.{
  ℕ, zero, suc, ◌+◌, ◌<◌, ◌≤◌, ◌≡◌, refl, ◌∙◌, ◌≢◌, subst, ◌⊎◌, inl, inr, false, none, some, List,
  [], ◌∷◌, ◌++◌, length, if◌then◌else◌, ltb, ◌==◌, arith, Bool-cases, Option-cases,
}
use pocky.Vector.Erase.{remove_at}
use pocky.Core.Scheduler.{
  RunQueue, fresh_queues, get_runqueue, put_runqueue, least_loaded, contains, index_of,
}

unfoldable pub count : ℕ → List ℕ → ℕ
count p [] = 0
count p (q ∷ qs) = (if q == p then 1 else 0) + count p qs

-- How often the process stands in the queues.
unfoldable pub queued : ℕ → List RunQueue → ℕ
queued p [] = 0
queued p (r ∷ rs) = count p r.process_queue + queued p rs

count-append : (p : ℕ) (xs ys : List ℕ) → count p (xs ++ ys) ≡ count p xs + count p ys
unfolding count
count-append p [] ys = omega arith
count-append p (x ∷ xs) ys = omega (arith, count-append p xs ys)

pub count-push :
    (p q : ℕ) (xs : List ℕ) → count p (xs ++ (q ∷ [])) ≡ count p xs + (if q == p then 1 else 0)
unfolding count
count-push p q xs = omega (arith, count-append p xs (q ∷ []))

-- The index that is found lies in the list, and what is taken out there is one occurrence.
pub index_of-some :
    (p q j : ℕ) (xs : List ℕ)
    → index_of xs p ≡ some j
    → (j < length xs) × (count q (remove_at j xs) + (if p == q then 1 else 0) ≡ count q xs)
unfolding index_of count remove_at
index_of-some p q j [] h = cc
index_of-some p q j (x ∷ xs) h = elim (Bool-cases (x == p)) [
  | inl here ↦ let first : j ≡ 0 = ground arith in rw first (omega arith, ground arith)
  | inr there ↦ elim (Option-cases (index_of xs p)) [
    | inl missing ↦ absurd (ground arith)
    | inr (i, found) ↦
        let next : j ≡ suc i = ground arith in
        let rest = index_of-some p q i xs found in
        rw next (omega (arith, rest.0), omega (arith, rest.1))
  ]
]

pub index_of-none : (p : ℕ) (xs : List ℕ) → index_of xs p ≡ none → count p xs ≡ 0
unfolding index_of count
index_of-none p [] h = refl
index_of-none p (x ∷ xs) h = ground (arith, index_of-none p xs)

contains-count : (p : ℕ) (xs : List ℕ) → contains xs p ≡ false → count p xs ≡ 0
unfolding contains count
contains-count p [] h = refl
contains-count p (x ∷ xs) h = ground (arith, contains-count p xs)

-- The queues are those of the processors `k`, `k + 1` and so on.
abbrev pub IsNumbered : ℕ → List RunQueue → Type 0
IsNumbered k [] = Unit {0}
IsNumbered k (r ∷ rs) = (r.cpu_id ≡ k) × IsNumbered (k + 1) rs

pub get_runqueue-cpu_id :
    (rs : List RunQueue) (cpu : ℕ) {r : RunQueue} → get_runqueue rs cpu ≡ some r → r.cpu_id ≡ cpu
unfolding get_runqueue
get_runqueue-cpu_id [] cpu h = cc
get_runqueue-cpu_id (x ∷ rs) cpu h = elim (Bool-cases (x.cpu_id == cpu)) [
  | inl y ↦ ground arith
  | inr n ↦ get_runqueue-cpu_id rs cpu (rw n at h)
]

-- Writing one queue changes the count by what that queue's changes.
pub queued-put_runqueue :
    (p : ℕ) (rs : List RunQueue) {r : RunQueue} (new : RunQueue)
    → get_runqueue rs new.cpu_id ≡ some r
    → queued p (put_runqueue new rs) + count p r.process_queue
      ≡ queued p rs + count p new.process_queue
unfolding get_runqueue put_runqueue queued
queued-put_runqueue p [] new h = cc
queued-put_runqueue p (x ∷ rs) {r} new h = elim (Bool-cases (x.cpu_id == new.cpu_id)) [
  | inl y ↦ rw y (let same : x ≡ r = ground arith in rw (← same) (omega arith))
  | inr n ↦ rw n (omega (arith, queued-put_runqueue p rs new (rw n at h)))
]

-- Reading the queues of the processors after one of them was written.
pub get-put_same :
    (rs : List RunQueue) (new : RunQueue) {r : RunQueue}
    → get_runqueue rs new.cpu_id ≡ some r
    → get_runqueue (put_runqueue new rs) new.cpu_id ≡ some new
unfolding get_runqueue put_runqueue
get-put_same [] new h = cc
get-put_same (x ∷ rs) new h = elim (Bool-cases (x.cpu_id == new.cpu_id)) [
  | inl y ↦ rw y (ground arith)
  | inr n ↦ rw n (rw n (get-put_same rs new (rw n at h)))
]

pub get-put_other :
    (rs : List RunQueue) (new : RunQueue) (cpu : ℕ)
    → new.cpu_id ≢ cpu
    → get_runqueue (put_runqueue new rs) cpu ≡ get_runqueue rs cpu
unfolding get_runqueue put_runqueue
get-put_other [] new cpu h = refl
get-put_other (x ∷ rs) new cpu h = elim (Bool-cases (x.cpu_id == new.cpu_id)) [
  | inl y ↦ rw y (ground arith)
  | inr n ↦ rw n (ground (arith, get-put_other rs new cpu h))
]

pub IsNumbered-put_runqueue :
    (k : ℕ) (rs : List RunQueue) (new : RunQueue)
    → IsNumbered k rs
    → IsNumbered k (put_runqueue new rs)
unfolding put_runqueue
IsNumbered-put_runqueue k [] new h = tt
IsNumbered-put_runqueue k (x ∷ rs) new h = elim (Bool-cases (x.cpu_id == new.cpu_id)) [
  | inl y ↦ rw y (ground arith, h.1)
  | inr n ↦ rw n (h.0, IsNumbered-put_runqueue (k + 1) rs new h.1)
]

fresh_queues-IsNumbered : (n k : ℕ) → IsNumbered k (fresh_queues n k)
unfolding fresh_queues
fresh_queues-IsNumbered zero k = tt
fresh_queues-IsNumbered (suc n) k = (refl, fresh_queues-IsNumbered n (k + 1))

abbrev pub load : RunQueue → ℕ
load r = length r.process_queue

abbrev pub AllQueues : (RunQueue → Type 0) → List RunQueue → Type 0
AllQueues P [] = Unit {0}
AllQueues P (r ∷ rs) = P r × AllQueues P rs

pub AllQueues_at :
    (P : RunQueue → Type 0) (rs : List RunQueue) (cpu : ℕ) {r : RunQueue}
    → AllQueues P rs
    → get_runqueue rs cpu ≡ some r
    → P r
unfolding get_runqueue
AllQueues_at P [] cpu all h = cc
AllQueues_at P (x ∷ rs) cpu {r} all h = elim (Bool-cases (x.cpu_id == cpu)) [
  | inl y ↦ let same : x ≡ r = ground arith in subst P same (all.0)
  | inr n ↦ AllQueues_at P rs cpu all.1 (rw n at h)
]

weaken_load :
    (a b : ℕ) (rs : List RunQueue)
    → a ≤ b
    → AllQueues (λ x. b ≤ load x) rs
    → AllQueues (λ x. a ≤ load x) rs
weaken_load a b [] h q = tt
weaken_load a b (r ∷ rs) h q = (omega (arith, q.0), weaken_load a b rs h q.1)

-- The queue that `least_loaded` finds.
pub record IsLeast (rs : List RunQueue) (k least cpu : ℕ) (r : RunQueue) : Type 0 where
  pub found : get_runqueue rs cpu ≡ some r
  pub beyond : k ≤ cpu
  pub below : load r < least
  pub all : AllQueues (λ x. load r ≤ load x) rs

pub get_runqueue_later :
    (x : RunQueue) (rs : List RunQueue) (cpu : ℕ)
    → x.cpu_id ≢ cpu
    → get_runqueue (x ∷ rs) cpu ≡ get_runqueue rs cpu
unfolding get_runqueue
get_runqueue_later x rs cpu h = ground arith

pub get_runqueue_first :
    (x : RunQueue) (rs : List RunQueue) → get_runqueue (x ∷ rs) x.cpu_id ≡ some x
unfolding get_runqueue
get_runqueue_first x rs = ground arith

pub least_loaded_cases :
    (k : ℕ) (rs : List RunQueue) (least target : ℕ)
    → IsNumbered k rs
    → ((least_loaded rs least target ≡ target) × AllQueues (λ x. least ≤ load x) rs)
      ⊎ ((r : RunQueue) × IsLeast rs k least (least_loaded rs least target) r)
unfolding least_loaded
least_loaded_cases k [] least target n = inl (refl, tt)
least_loaded_cases k (x ∷ rs) least target n = elim (Bool-cases (ltb (load x) least)) [
  | inl shorter ↦ rw shorter (elim (least_loaded_cases (k + 1) rs (load x) x.cpu_id n.1) [
    | inl (same, all) ↦ rw same (
        inr (
          x,
          record {
            found = get_runqueue_first x rs;
            beyond = omega (arith, n.0);
            below = ground arith;
            all = (omega arith, all);
          },
        ))
    | inr (r, l) ↦ inr (
      r,
      record {
        found = get_runqueue_later x rs _ (omega (arith, n.0, l.beyond)) ∙ l.found;
        beyond = omega (arith, l.beyond);
        below = ground (arith, l.below);
        all = (omega (arith, l.below), l.all);
      },
    )
  ])
  | inr longer ↦ rw longer (elim (least_loaded_cases (k + 1) rs least target n.1) [
    | inl (same, all) ↦ inl (same, (ground arith, all))
    | inr (r, l) ↦ inr (
      r,
      record {
        found = get_runqueue_later x rs _ (omega (arith, n.0, l.beyond)) ∙ l.found;
        beyond = omega (arith, l.beyond);
        below = l.below;
        all = (ground (arith, l.below), l.all);
      },
    )
  ])
]
