-- ===== src/Core/Scheduler.antt =====
-- kernel/src/core/scheduler.cpp and scheduler.hpp. A `CPURunQueue*` is the id of its processor, and
-- reading through it looks the id up. The current processor, the clock, the interrupt flag and the
-- number of processors are arguments: they come from the hardware.
pub mod Queues
pub mod Enqueue
pub mod Select
pub mod Schedule
use pocky.Common.{
  ℕ, zero, suc, ◌+◌, ◌-◌, ◌/◌, ◌%◌, Bool, true, false, not, ◌&&◌, ◌||◌, Option, none, some, List,
  [], ◌∷◌, ◌++◌, length, get_elem?, if◌then◌else◌, ltb, leb, ◌==◌, u64_mod,
}
use pocky.Vector.{erase_at}
use pocky.Core.Process.{
  Process, ProcessState, Table, Manager, update, set_state, is_ready, is_running, get_process,
  switch_to_process, is_process,
}

pub data SchedulerPolicy : Type 0 where
  round_robin by_priority : SchedulerPolicy

pub record RunQueue : Type 0 where
  pub process_queue : List ℕ
  pub current_index : ℕ
  pub current_time_slice : ℕ
  pub current : Option ℕ
  pub cpu_id : ℕ
  pub needs_resched : Bool

pub record Scheduler : Type 0 where
  pub runqueues : List RunQueue
  pub policy : SchedulerPolicy
  pub load_balance_counter : ℕ

abbrev pub default_time_slice : ℕ
default_time_slice = 5

abbrev pub load_balance_period : ℕ
load_balance_period = 100

abbrev pub size_max : ℕ
size_max = u64_mod - 1

abbrev pub fresh_queue : ℕ → RunQueue
fresh_queue cpu = record {
  process_queue = [];
  current_index = 0;
  current_time_slice = default_time_slice;
  current = none;
  cpu_id = cpu;
  needs_resched = false;
}

-- `for (i = 0; i < cpu_count; i++)` with `n` rounds left.
pub fresh_queues : ℕ → ℕ → List RunQueue
fresh_queues zero i = []
fresh_queues (suc n) i = fresh_queue i ∷ fresh_queues n (i + 1)

pub initialize : SchedulerPolicy → ℕ → Scheduler
initialize policy cpu_count = record {
  runqueues = fresh_queues cpu_count 0;
  policy = policy;
  load_balance_counter = 0;
}

-- `get_runqueue`
unfoldable pub get_runqueue : List RunQueue → ℕ → Option RunQueue
get_runqueue [] cpu = none
get_runqueue (r ∷ rs) cpu = if r.cpu_id == cpu then some r else get_runqueue rs cpu

-- The queues after the one of a processor was written through its pointer.
pub put_runqueue : RunQueue → List RunQueue → List RunQueue
put_runqueue new [] = []
put_runqueue new (r ∷ rs) = if r.cpu_id == new.cpu_id then new ∷ rs else r ∷ put_runqueue new rs

-- The processor with the fewest processes so far, from a first guess on.
pub least_loaded : List RunQueue → ℕ → ℕ → ℕ
least_loaded [] min_queue_size target_cpu = target_cpu
least_loaded (r ∷ rs) min_queue_size target_cpu =
    let shorter = ltb (length r.process_queue) min_queue_size in
    least_loaded rs (if shorter then length r.process_queue else min_queue_size)
      (if shorter then r.cpu_id else target_cpu)

pub contains : List ℕ → ℕ → Bool
contains [] p = false
contains (q ∷ qs) p = q == p || contains qs p

-- The end of `add_process`, once the queue is found.
pub enqueue : List RunQueue → Table → ℕ → RunQueue → List RunQueue × Table
enqueue rs t p r = if contains r.process_queue p then (rs, t) else (
  put_runqueue (record r { process_queue = r.process_queue ++ (p ∷ []) }) rs,
  set_state ProcessState.ready p t,
)

pub add_process : List RunQueue → Table → ℕ → List RunQueue × Table
add_process rs t p = elim (get_runqueue rs (least_loaded rs size_max 0)) [
  | none ↦ (rs, t)
  | some r ↦ enqueue rs t p r
]

-- The index of the first occurrence.
pub index_of : List ℕ → ℕ → Option ℕ
index_of [] p = none
index_of (q ∷ qs) p =
    if q == p then some 0 else (elim (index_of qs p) [ none ↦ none | some j ↦ some (suc j) ])

-- `if (current_index >= j) if (current_index > 0) current_index--;`, the shifting loop and `pop_back`.
pub take_out : ℕ → RunQueue → RunQueue
take_out j r = record r {
  process_queue = erase_at j r.process_queue;
  current_index = if leb j r.current_index then r.current_index - 1 else r.current_index;
}

-- The process that was running on the processor is gone.
pub forget_current : ℕ → RunQueue → RunQueue
forget_current p r =
    if is_process r.current p then record r { current = none; needs_resched = true } else r

-- The first queue that holds the process loses it, and no other is looked at.
pub remove_process : List RunQueue → ℕ → List RunQueue
remove_process [] p = []
remove_process (r ∷ rs) p = elim (index_of r.process_queue p) [
  | none ↦ r ∷ remove_process rs p
  | some j ↦ forget_current p (take_out j r) ∷ rs
]

-- Is the process at an index ready?
pub ready_at : Table → List ℕ → ℕ → Option ℕ
ready_at t queue i = elim (get_elem? queue i) [
  | none ↦ none
  | some p ↦ if is_ready (t p).state then some p else none
]

-- The `do … while` loop of round robin: the next index and the process that was selected. `start`
-- is where the loop began. The fuel counts the rounds; `none` means that it ran out.
pub rotate : ℕ → Table → List ℕ → ℕ → ℕ → Option (ℕ × Option ℕ)
rotate zero t queue start index = none
rotate (suc f) t queue start index =
    let next = (index + 1) % length queue in
    let found = ready_at t queue next in
    let rest = rotate f t queue start next in
    elim found [
      | some p ↦ some (next, some p)
      | none ↦ if next == start then some (next, none) else rest
    ]

-- The loop of the priority policy over the queue from index `i` on.
unfoldable pub highest : Table → List ℕ → ℕ → ℕ → Option (ℕ × ℕ) → Option (ℕ × ℕ)
highest t [] i best selected = selected
highest t (p ∷ ps) i best selected =
    let better = is_ready (t p).state && ltb best (t p).priority in
    highest t ps (i + 1) (if better then (t p).priority else best)
      (if better then some (i, p) else selected)

-- `select_next_process`: the queue with its index moved, and the process that was selected. The
-- outer `none` means that the fuel of the round robin loop ran out.
unfoldable pub select_next_process :
    ℕ → SchedulerPolicy → Table → RunQueue → Option (RunQueue × Option ℕ)
select_next_process fuel SchedulerPolicy.round_robin t r =
    if length r.process_queue == 0
    then some (r, none)
    else (elim (rotate fuel t r.process_queue r.current_index r.current_index) [
      | none ↦ none
      | some (index, selected) ↦ some (record r { current_index = index }, selected)
    ])
select_next_process fuel SchedulerPolicy.by_priority t r =
    elim (highest t r.process_queue 0 0 none) [
      | none ↦ some (r, none)
      | some (index, p) ↦ some (record r { current_index = index }, some p)
    ]
