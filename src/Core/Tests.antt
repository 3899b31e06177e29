-- ===== src/Core/Tests.antt =====
-- The scheduler and the system calls of kernel/src/core on a concrete machine.
use pocky.Common.{
  ℕ, ◌<◌, ◌≡◌, ◌⊎◌, refl, false, none, some, List, [], ◌∷◌, if◌then◌else◌, ◌==◌, arith,
}
use pocky.Core.Process.{ProcessState, Table, Manager}
use pocky.Core.Scheduler.{
  RunQueue, SchedulerPolicy, ready_at, get_runqueue, add_process, select_next_process, highest,
}
use pocky.Core.Scheduler.Enqueue.{Adds, add_process-Adds}
use pocky.Core.Scheduler.Select.{IsNext, IsBest, NoneAbove, select_round_robin, select_by_priority}
use pocky.Core.Scheduler.Schedule.{Kernel, schedule_on_cpu, load_balance}
use pocky.Core.Scheduler.Schedule.Balance.{Balanced, load_balance-Balanced}
use pocky.Core.Scheduler.Schedule.Dispatch.{Runs, schedule_on_cpu-Runs}
use pocky.Core.Syscall.{sys_brk}
use pocky.Core.Syscall.Rights.{MovesBreak, sys_brk-MovesBreak}

-- Process 1 runs, and every other process is ready.
abbrev process_table : Table
process_table p = record {
  pid = p;
  ppid = 0;
  state = if p == 1 then ProcessState.running else ProcessState.ready;
  brk = 8192;
  program_break = 4096;
  priority = 5;
  total_runtime = 0;
  last_run = 0;
  waiting_on = none;
}

abbrev long_queue : RunQueue
long_queue = record {
  process_queue = 1 ∷ 2 ∷ 3 ∷ 4 ∷ [];
  current_index = 0;
  current_time_slice = 1;
  current = some 1;
  cpu_id = 0;
  needs_resched = false;
}

abbrev empty_queue : RunQueue
empty_queue = record {
  process_queue = [];
  current_index = 0;
  current_time_slice = 5;
  current = none;
  cpu_id = 1;
  needs_resched = false;
}

abbrev two_queues : List RunQueue
two_queues = long_queue ∷ empty_queue ∷ []

abbrev manager : Manager
manager = record { table = process_table; processes = 4 ∷ 3 ∷ 2 ∷ 1 ∷ []; current = some 1 }

abbrev machine : Kernel
machine = record {
  scheduler = record {
    runqueues = two_queues;
    policy = SchedulerPolicy.by_priority;
    load_balance_counter = 0;
  };
  manager = manager;
}

select_round_robin_example :
    ((i : ℕ) × (p : ℕ) × (select_next_process 4 SchedulerPolicy.round_robin process_table long_queue
        ≡ some (record long_queue { current_index = i }, some p))
      × IsNext process_table long_queue.process_queue 0 i p)
    ⊎ ((select_next_process 4 SchedulerPolicy.round_robin process_table long_queue
          ≡ some (long_queue, none))
        × ((i : ℕ) → i < 4 → ready_at process_table long_queue.process_queue i ≡ none))
select_round_robin_example =
    select_round_robin 4 process_table long_queue (omega arith) (omega arith)

select_by_priority_example :
    ((i : ℕ) × (p : ℕ) × (select_next_process 0 SchedulerPolicy.by_priority process_table long_queue
        ≡ some (record long_queue { current_index = i }, some p))
      × IsBest process_table long_queue.process_queue 0 i p)
    ⊎ ((select_next_process 0 SchedulerPolicy.by_priority process_table long_queue
          ≡ some (long_queue, none))
        × NoneAbove process_table 0 long_queue.process_queue)
select_by_priority_example = select_by_priority 0 process_table long_queue

first_queue : get_runqueue two_queues 0 ≡ some long_queue
unfolding get_runqueue
first_queue = refl

add_process-Adds_example :
    (r : RunQueue) × Adds two_queues process_table 9 (add_process two_queues process_table 9) r
add_process-Adds_example =
    add_process-Adds two_queues process_table 9 0 long_queue first_queue (omega arith)
      (refl, (refl, tt))

load_balance-Balanced_example : Balanced (load_balance 9 process_table two_queues) two_queues
load_balance-Balanced_example =
    load_balance-Balanced 9 process_table two_queues (refl, (refl, tt))
      (omega arith, (omega arith, tt)) (omega arith, (omega arith, tt))

selects_2 :
    select_next_process 0 SchedulerPolicy.by_priority process_table long_queue
    ≡ some (record long_queue { current_index = 1 }, some 2)
unfolding select_next_process highest
selects_2 = refl

schedule_on_cpu-Runs_example :
    (out : Kernel) × (schedule_on_cpu 0 7 0 machine ≡ some out)
    × Runs machine out 0 (record long_queue { current_index = 1 }) 2
schedule_on_cpu-Runs_example =
    schedule_on_cpu-Runs 0 7 0 machine long_queue (record long_queue { current_index = 1 }) 2
      first_queue selects_2 refl refl

sys_brk-MovesBreak_example : MovesBreak 5000 1 manager (sys_brk 5000 manager)
sys_brk-MovesBreak_example = sys_brk-MovesBreak 5000 1 manager refl (omega arith)
