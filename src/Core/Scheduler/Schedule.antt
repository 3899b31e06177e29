-- ===== src/Core/Scheduler/Schedule.antt =====
-- `schedule_on_cpu`, `tick_on_cpu`, `tick`, `set_process_priority` and `load_balance` of scheduler.cpp.
-- The kernel is the scheduler with the process manager; `none` means that the fuel of a loop ran out.
pub mod Balance
pub mod Bounds
pub mod Dispatch
use pocky.Common.{
  ℕ, zero, suc, ◌+◌, ◌-◌, ◌/◌, ◌%◌, Bool, true, false, not, ◌&&◌, Option, none, some, List, [], ◌∷◌,
  ◌++◌, length, get_elem?, if◌then◌else◌, ltb, leb, ◌==◌, u64_mod,
}
use pocky.Core.Process.{
  Process, ProcessState, Table, Manager, update, set_state, is_running, get_process,
  switch_to_process, is_process,
}
use pocky.Core.Scheduler.{
  RunQueue, Scheduler, default_time_slice, load_balance_period, size_max, get_runqueue,
  put_runqueue, index_of, take_out, select_next_process,
}

pub record Kernel : Type 0 where
  pub scheduler : Scheduler
  pub manager : Manager

abbrev pub with_queue : Kernel → RunQueue → Kernel
with_queue k r = record k {
  scheduler = record (k.scheduler) { runqueues = put_runqueue r k.scheduler.runqueues };
}

-- The process that the processor leaves goes to Ready, whatever it was.
abbrev pub leave : Option ℕ → Table → Table
leave none t = t
leave (some old) t = set_state ProcessState.ready old t

-- `next_process->last_run = get_ticks()`, the two states, in the order of the source.
abbrev pub change_over : Option ℕ → ℕ → ℕ → Table → Table
change_over old p now t =
    set_state ProcessState.running p (leave old (update t p (record (t p) { last_run = now })))

-- `schedule_on_cpu` once a process other than the current one was selected.
pub dispatch : Kernel → RunQueue → ℕ → ℕ → Kernel
dispatch k r p now = record {
  scheduler = record (k.scheduler) {
    runqueues =
        put_runqueue (record r { current_time_slice = default_time_slice; current = some p })
          k.scheduler.runqueues;
  };
  manager =
      switch_to_process (record (k.manager) { table = change_over r.current p now k.manager.table })
        p;
}

-- What `schedule_on_cpu` does with the outcome of the selection.
pub act_on : Kernel → ℕ → RunQueue × Option ℕ → Kernel
act_on k now (r, none) = with_queue k r
act_on k now (r, some p) = if is_process r.current p then with_queue k r else dispatch k r p now

pub schedule_on_cpu : ℕ → ℕ → ℕ → Kernel → Option Kernel
schedule_on_cpu fuel now cpu k = elim (get_runqueue k.scheduler.runqueues cpu) [
  | none ↦ some k
  | some r ↦ elim (select_next_process fuel k.scheduler.policy k.manager.table r) [
    | none ↦ none
    | some outcome ↦ some (act_on k now outcome)
  ]
]

-- `schedule`, on the processor that runs the code.
abbrev pub schedule : ℕ → ℕ → ℕ → Kernel → Option Kernel
schedule fuel now current_cpu k = schedule_on_cpu fuel now current_cpu k

-- The end of `tick_on_cpu`, for a process that may be preempted. On another processor an
-- interrupt is sent instead, which is not part of the state.
pub count_down : ℕ → ℕ → ℕ → ℕ → RunQueue → Kernel → Option Kernel
count_down fuel now current_cpu cpu r k =
    let slice = r.current_time_slice - 1 in
    if slice == 0
    then (let k' = with_queue k (record r { current_time_slice = slice; needs_resched = true }) in
        if cpu == current_cpu then schedule_on_cpu fuel now cpu k' else some k')
    else some (with_queue k (record r { current_time_slice = slice }))

abbrev pub charge : ℕ → Kernel → Kernel
charge p k = record k {
  manager = record (k.manager) {
    table = update k.manager.table p (record (k.manager.table p) {
      total_runtime = ((k.manager.table p).total_runtime + 1) % u64_mod;
    });
  };
}

-- `interrupts` is the flag that the code reads from the processor.
pub tick_on_cpu : Bool → ℕ → ℕ → ℕ → ℕ → Kernel → Option Kernel
tick_on_cpu interrupts fuel now current_cpu cpu k =
    if not interrupts then some k else (elim (get_runqueue k.scheduler.runqueues cpu) [
      | none ↦ some k
      | some r ↦ elim r.current [
        | none ↦ some k
        | some p ↦
            if leb 9 (k.manager.table p).priority
            then some (charge p k)
            else count_down fuel now current_cpu cpu r (charge p k)
      ]
    ])

unfoldable pub set_process_priority : Manager → ℕ → ℕ → Manager
set_process_priority m pid priority = elim (get_process m pid) [
  | none ↦ m
  | some p ↦ record m {
    table =
        update m.table p
          (record (m.table p) { priority = if ltb 10 priority then 10 else priority });
  }
]

pub can_migrate_process : List RunQueue → Table → ℕ → ℕ → Bool
can_migrate_process rs t p to_cpu =
    if is_running (t p).state
    then false
    else (if leb 8 (t p).priority
        then false
        else (elim (get_runqueue rs to_cpu) [ none ↦ false | some r ↦ true ]))

-- The first occurrence leaves the queue; where there is none, nothing does.
abbrev pub leave_queue : ℕ → RunQueue → RunQueue
leave_queue p r = elim (index_of r.process_queue p) [ none ↦ r | some j ↦ take_out j r ]

abbrev pub join_queue : ℕ → RunQueue → RunQueue
join_queue p r = record r { process_queue = r.process_queue ++ (p ∷ []) }

pub migrate_process : List RunQueue → ℕ → ℕ → ℕ → List RunQueue
migrate_process rs p from_cpu to_cpu =
    if from_cpu == to_cpu then rs else (elim (get_runqueue rs from_cpu) [
      | none ↦ rs
      | some from ↦ elim (get_runqueue rs to_cpu) [
        | none ↦ rs
        | some to ↦ put_runqueue (join_queue p to) (put_runqueue (leave_queue p from) rs)
      ]
    ])

-- The extremes of the first loop of `load_balance`.
pub record Extremes : Type 0 where
  pub max_processes : ℕ
  pub min_processes : ℕ
  pub max_cpu : ℕ
  pub min_cpu : ℕ

abbrev pub widen : RunQueue → Extremes → Extremes
widen r e =
    let n = length r.process_queue in
    let e' =
      if ltb e.max_processes n then record e { max_processes = n; max_cpu = r.cpu_id } else e in
    if ltb n e'.min_processes then record e' { min_processes = n; min_cpu = r.cpu_id } else e'

pub extremes : List RunQueue → Extremes → Extremes
extremes [] e = e
extremes (r ∷ rs) e = extremes rs (widen r e)

-- The second loop: `i` is the index into the longest queue, `left` the moves still wanted.
pub move_loop : ℕ → Table → ℕ → ℕ → ℕ → ℕ → List RunQueue → Option (List RunQueue)
move_loop zero t max_cpu min_cpu i left rs = none
move_loop (suc f) t max_cpu min_cpu i left rs = elim (get_runqueue rs max_cpu) [
  | none ↦ some rs
  | some r ↦ elim (get_elem? r.process_queue i) [
    | none ↦ some rs
    | some p ↦ elim left [
      | zero ↦ some rs
      | suc n ↦ elim (can_migrate_process rs t p min_cpu) [
        | true ↦ move_loop f t max_cpu min_cpu i n (migrate_process rs p max_cpu min_cpu)
        | false ↦ move_loop f t max_cpu min_cpu (i + 1) (suc n) rs
      ]
    ]
  ]
]

pub load_balance : ℕ → Table → List RunQueue → Option (List RunQueue)
load_balance fuel t rs =
    let e =
      extremes rs
        (record { max_processes = 0; min_processes = size_max; max_cpu = 0; min_cpu = 0 }) in
    let gap = (e.max_processes + u64_mod - e.min_processes) % u64_mod in
    if leb gap 1 then some rs else (elim (get_runqueue rs e.max_cpu) [
      | none ↦ some rs
      | some _ ↦ elim (get_runqueue rs e.min_cpu) [
        | none ↦ some rs
        | some _ ↦ move_loop fuel t e.max_cpu e.min_cpu 0 (gap / 2) rs
      ]
    ])

-- The counter of `tick`, and the balancing when its period is over.
pub after_tick : ℕ → ℕ → Kernel → Option Kernel
after_tick fuel current_cpu k =
    let counter = (k.scheduler.load_balance_counter + 1) % u64_mod in
    if leb load_balance_period counter
    then (let s = record (k.scheduler) { load_balance_counter = 0 } in
        if current_cpu == 0
        then (elim (load_balance fuel k.manager.table s.runqueues) [
          | none ↦ none
          | some rs ↦ some (record k { scheduler = record s { runqueues = rs } })
        ])
        else some (record k { scheduler = s }))
    else some (record k { scheduler = record (k.scheduler) { load_balance_counter = counter } })

pub tick : Bool → ℕ → ℕ → ℕ → Kernel → Option Kernel
tick interrupts fuel now current_cpu k =
    elim (tick_on_cpu interrupts fuel now current_cpu current_cpu k) [
      | none ↦ none
      | some k' ↦ after_tick fuel current_cpu k'
    ]
