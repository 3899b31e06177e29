-- ===== src/Core/Scheduler/Enqueue.antt =====
-- `add_process` and `remove_process`: where a process goes, and how often it then stands in the queues.
use pocky.Common.{
  ℕ, ◌+◌, ◌-◌, ◌<◌, ◌≤◌, ◌≡◌, refl, sym, subst, ◌≢◌, ◌⊎◌, inl, inr, true, false, ◌&&◌, none, some,
  List, [], ◌∷◌, ◌++◌, if◌then◌else◌, ltb, leb, ◌==◌, arith, Bool-cases, Option-cases,
}
use pocky.Vector.Erase.{erase_at-remove_at, length-erase_at}
use pocky.Core.Process.{Table, ProcessState, set_state, is_process}
use pocky.Core.Scheduler.{
  RunQueue, get_runqueue, least_loaded, contains, enqueue, add_process, index_of, take_out,
  forget_current, remove_process, size_max,
}
use pocky.Core.Scheduler.Queues.{
  count, queued, count-push, index_of-some, index_of-none, IsNumbered, get_runqueue-cpu_id,
  queued-put_runqueue, IsNumbered-put_runqueue, load, AllQueues, AllQueues_at, get-put_same,
  get-put_other, least_loaded_cases,
}

-- The least loaded queue `r` takes the process at its end, unless it holds it already.
pub record Adds (rs : List RunQueue) (t : Table) (p : ℕ) (out : List RunQueue × Table)
    (r : RunQueue) : Type 0 where
  pub in_system : get_runqueue rs r.cpu_id ≡ some r
  pub least : AllQueues (λ x. load r ≤ load x) rs
  pub outcome :
      ((contains r.process_queue p ≡ true) × (out ≡ (rs, t)))
      ⊎ ((contains r.process_queue p ≡ false)
          × ((q : ℕ) → queued q out.0 ≡ queued q rs + (if p == q then 1 else 0))
          × (get_runqueue out.0 r.cpu_id
              ≡ some (record r { process_queue = r.process_queue ++ (p ∷ []) }))
          × ((cpu : ℕ) → r.cpu_id ≢ cpu → get_runqueue out.0 cpu ≡ get_runqueue rs cpu)
          × (out.1 ≡ set_state ProcessState.ready p t)
          × IsNumbered 0 out.0)

enqueue-Adds :
    (rs : List RunQueue) (t : Table) (p cpu : ℕ) (r : RunQueue)
    → IsNumbered 0 rs
    → get_runqueue rs cpu ≡ some r
    → AllQueues (λ x. load r ≤ load x) rs
    → Adds rs t p (enqueue rs t p r) r
unfolding enqueue
enqueue-Adds rs t p cpu r n found least =
    let id = get_runqueue-cpu_id rs cpu found in
    let here : get_runqueue rs r.cpu_id ≡ some r =
      subst (λ c. get_runqueue rs c ≡ some r) (sym id) found in
    let new : RunQueue = record r { process_queue = r.process_queue ++ (p ∷ []) } in
    elim (Bool-cases (contains r.process_queue p)) [
      | inl held ↦ rw held (record { in_system = here; least = least; outcome = inl (held, refl) })
      | inr absent ↦ rw absent (record {
        in_system = here;
        least = least;
        outcome = inr (
          absent,
          λ q. omega (arith, queued-put_runqueue q rs new here, count-push q p r.process_queue),
          get-put_same rs new here,
          λ other apart. get-put_other rs new other apart,
          refl,
          IsNumbered-put_runqueue 0 rs new n,
        );
      })
    ]

add_process_found :
    (rs : List RunQueue) (t : Table) (p : ℕ) {r : RunQueue}
    → get_runqueue rs (least_loaded rs size_max 0) ≡ some r
    → add_process rs t p ≡ enqueue rs t p r
unfolding add_process
add_process_found rs t p h = ground arith

-- With the queues numbered by their processors from 0 on, and some queue shorter than the largest `size_t`,
-- `add_process` chooses a queue of the least length. If that queue holds the process, nothing
-- changes; otherwise that queue takes the process at its end and the queues of the other processors
-- stay as they are, so that the process stands in the queues once more than before, also where
-- another queue held it already, and every other process as often as before; and it is Ready.
pub add_process-Adds :
    (rs : List RunQueue) (t : Table) (p cpu : ℕ) (x : RunQueue)
    → get_runqueue rs cpu ≡ some x
    → load x < size_max
    → IsNumbered 0 rs
    → (r : RunQueue) × Adds rs t p (add_process rs t p) r
add_process-Adds rs t p cpu x there short n = elim (least_loaded_cases 0 rs size_max 0 n) [
  | inl (same, all) ↦
      let long = AllQueues_at (λ q. size_max ≤ load q) rs cpu all there in absurd (omega arith)
  | inr (r, l) ↦
      (r, rw (add_process_found rs t p l.found) (enqueue-Adds rs t p _ r n l.found l.all))
]

queue-forget_current : (p : ℕ) (r : RunQueue) → (forget_current p r).process_queue ≡ r.process_queue
unfolding forget_current
queue-forget_current p r = ground arith

count-take_out :
    (p q j : ℕ) (r : RunQueue)
    → index_of r.process_queue p ≡ some j
    → count q (forget_current p (take_out j r)).process_queue + (if p == q then 1 else 0)
      ≡ count q r.process_queue
unfolding take_out
count-take_out p q j r h =
    let at = index_of-some p q j r.process_queue h in
    rw (queue-forget_current p (take_out j r), erase_at-remove_at j r.process_queue at.0) (at.1)

remove_process_found :
    (r : RunQueue) (rs : List RunQueue) (p j : ℕ)
    → index_of r.process_queue p ≡ some j
    → remove_process (r ∷ rs) p ≡ forget_current p (take_out j r) ∷ rs
unfolding remove_process
remove_process_found r rs p j h = ground arith

remove_process_later :
    (r : RunQueue) (rs : List RunQueue) (p : ℕ)
    → index_of r.process_queue p ≡ none
    → remove_process (r ∷ rs) p ≡ r ∷ remove_process rs p
unfolding remove_process
remove_process_later r rs p h = ground arith

remove_process_none : (p : ℕ) → remove_process [] p ≡ []
unfolding remove_process
remove_process_none p = refl

-- `remove_process` takes one occurrence of the process out of the queues, if there is one, and
-- every other process stands there as often as before.
queued-remove_process :
    (p q : ℕ) (rs : List RunQueue)
    → queued q (remove_process rs p) + (if (p == q) && ltb 0 (queued p rs) then 1 else 0)
      ≡ queued q rs
unfolding queued
queued-remove_process p q [] = rw (remove_process_none p) (ground arith)
queued-remove_process p q (r ∷ rs) = elim (Option-cases (index_of r.process_queue p)) [
  | inr (j, found) ↦
      rw (remove_process_found r rs p j found)
        (ground (arith, count-take_out p q j r found, count-take_out p p j r found))
  | inl missing ↦
      rw (remove_process_later r rs p missing)
        (ground (arith, queued-remove_process p q rs, index_of-none p r.process_queue missing))
]

-- The index of a queue is 0 or lies inside the queue.
abbrev pub IsInside : RunQueue → Type 0
IsInside r = (r.current_index ≡ 0) ⊎ (r.current_index < load r)

index_inside :
    (i j n m : ℕ)
    → j < n
    → m + 1 ≡ n
    → (i ≡ 0) ⊎ (i < n)
    → ((if leb j i then i - 1 else i) ≡ 0) ⊎ ((if leb j i then i - 1 else i) < m)
index_inside i j n m h e (inl z) = inl (ground arith)
index_inside i j n m h e (inr l) = elim (Bool-cases (leb j i)) [
  | inl y ↦
      rw y (elim (Bool-cases (i == 0)) [ inl z ↦ inl (ground arith) | inr s ↦ inr (ground arith) ])
  | inr z ↦ rw z (inr (ground arith))
]

IsInside-take_out :
    (p j : ℕ) (r : RunQueue) → j < load r → IsInside r → IsInside (forget_current p (take_out j r))
unfolding forget_current take_out
IsInside-take_out p j r h v = elim (Bool-cases (is_process r.current p)) [
  | inl y ↦
      rw y (index_inside r.current_index j (load r) _ h (length-erase_at j r.process_queue h) v)
  | inr n ↦
      rw n (index_inside r.current_index j (load r) _ h (length-erase_at j r.process_queue h) v)
]

-- `remove_process` leaves the index of every queue inside that queue.
pub remove_process-IsInside :
    (p : ℕ) (rs : List RunQueue) → AllQueues IsInside rs → AllQueues IsInside (remove_process rs p)
remove_process-IsInside p [] h = rw (remove_process_none p) tt
remove_process-IsInside p (r ∷ rs) h = elim (Option-cases (index_of r.process_queue p)) [
  | inr (j, found) ↦
      rw (remove_process_found r rs p j found)
        (IsInside-take_out p j r (index_of-some p p j r.process_queue found).0 h.0, h.1)
  | inl missing ↦ rw (remove_process_later r rs p missing) (h.0, remove_process-IsInside p rs h.1)
]
