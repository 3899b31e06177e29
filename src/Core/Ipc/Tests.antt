-- ===== src/Core/Ipc/Tests.antt =====
-- Messages of kernel/src/core/ipc.cpp on a concrete machine.
use pocky.Common.{
  ◌++◌, ℕ, ◌≤◌, ◌≡◌, refl, true, false, none, some, List, [], ◌∷◌, if◌then◌else◌, ◌==◌, arith,
}
use pocky.Common.Int.{pos, negsuc}
use pocky.Vector.{erase_at}
use pocky.Core.Process.{ProcessState, Table}
use pocky.Core.Scheduler.{RunQueue, SchedulerPolicy, get_runqueue, select_next_process, highest}
use pocky.Core.Scheduler.Enqueue.{Adds}
use pocky.Core.Scheduler.Schedule.{Kernel}
use pocky.Core.Scheduler.Schedule.Dispatch.{state_of}
use pocky.Core.Ipc.{
  Message, MessageQueue, Received, message, send_message, receive_message, take_message, wake_first,
  wait_for, release, max_message_size,
}
use pocky.Core.Ipc.Fifo.{Step, Life, Life-in_order}
use pocky.Core.Ipc.Waiting.{send_message_wakes, receive_message-waits_in_vain}
use pocky.Core.Ipc.Manager.{
  IpcManager, find_named, lookup_queue, destroy_message_queue, open_message_queue, release_waiting,
}
use pocky.Core.Ipc.Manager.Lifecycle.{
  IsOrdered, Creates, create_message_queue-Creates, destroy_message_queue-Removes,
}

-- Process 1 runs, process 3 waits for the queue at address 500, and process 2 is ready.
abbrev process_table : Table
process_table p = record {
  pid = p;
  ppid = 0;
  state =
      if p == 1
      then ProcessState.running
      else (if p == 3 then ProcessState.waiting else ProcessState.ready);
  brk = 8192;
  program_break = 4096;
  priority = 5;
  total_runtime = 0;
  last_run = 0;
  waiting_on = if p == 3 then some 500 else none;
}

abbrev run_queue : RunQueue
run_queue = record {
  process_queue = 1 ∷ 2 ∷ [];
  current_index = 0;
  current_time_slice = 1;
  current = some 1;
  cpu_id = 0;
  needs_resched = false;
}

abbrev machine : Kernel
machine = record {
  scheduler = record {
    runqueues = run_queue ∷ [];
    policy = SchedulerPolicy.by_priority;
    load_balance_counter = 0;
  };
  manager = record { table = process_table; processes = 3 ∷ 2 ∷ 1 ∷ []; current = some 1 };
}

abbrev mailbox : MessageQueue
mailbox = record { address = 500; owner = 1; name = 97 ∷ []; messages = []; waiting_processes = [] }

abbrev hello : Message
hello = message 7 1 (104 ∷ 105 ∷ []) 2

abbrev filled : MessageQueue
filled = record mailbox { messages = hello ∷ [] }

sends_hello : send_message 7 1 (104 ∷ 105 ∷ []) 2 mailbox machine ≡ (true, filled, machine)
unfolding send_message wake_first
sends_hello = refl

receives_hello :
    receive_message 0 8 0 false filled machine ≡ some (Received.received hello, mailbox, machine)
unfolding receive_message take_message erase_at
receives_hello = refl

one-Life : Life mailbox (hello ∷ []) (hello ∷ []) mailbox
one-Life =
    Life.next {q' = filled} {a = hello ∷ []} {b = []} {c = []} {d = hello ∷ []}
      (Step.sent 7 1 (104 ∷ 105 ∷ []) 2 machine {k' = machine} sends_hello)
      (Life.next {a = []} {b = hello ∷ []} {c = []} {d = []}
        (Step.delivered 0 8 0 false machine {k' = machine} hello receives_hello) Life.done)

Life-in_order_example : (hello ∷ []) ++ mailbox.messages ≡ mailbox.messages ++ (hello ∷ [])
Life-in_order_example = Life-in_order one-Life

abbrev awaited : MessageQueue
awaited = record mailbox { waiting_processes = 3 ∷ [] }

only_queue : get_runqueue (run_queue ∷ []) 0 ≡ some run_queue
unfolding get_runqueue
only_queue = refl

send_message_wakes_example :
    (k' : Kernel) × (r : RunQueue) × (send_message 7 1 (104 ∷ 105 ∷ []) 2 awaited machine
      ≡ (true, record awaited { messages = hello ∷ []; waiting_processes = [] }, k'))
    × Adds (run_queue ∷ []) (release 3 process_table) 3 (k'.scheduler.runqueues, k'.manager.table) r
    × (state_of k' 3 ≡ ProcessState.ready)
    × ((k'.manager.table 3).waiting_on ≡ none)
send_message_wakes_example =
    send_message_wakes 7 1 (104 ∷ 105 ∷ []) 2 awaited machine 3 [] 0 run_queue (omega arith)
      (omega arith) refl refl only_queue (omega arith) (refl, tt)

selects_2 :
    select_next_process 0 SchedulerPolicy.by_priority (wait_for 1 500 process_table) run_queue
    ≡ some (record run_queue { current_index = 1 }, some 2)
unfolding select_next_process highest
selects_2 = refl

receive_message-waits_in_vain_example :
    (out : Kernel) × (q' : MessageQueue) × (receive_message 0 8 0 true mailbox machine
      ≡ some (Received.suspended, q', out))
    × (state_of out 1 ≡ ProcessState.ready)
    × (q'.waiting_processes ≡ 1 ∷ [])
    × ((later sender : ℕ) (bytes : List ℕ) (size : ℕ)
        → size ≤ max_message_size
        → send_message later sender bytes size q' out
          ≡ (true, record q' { messages = message later sender bytes size ∷ [] }, out))
receive_message-waits_in_vain_example =
    receive_message-waits_in_vain 0 8 0 1 2 mailbox machine run_queue
      (record run_queue { current_index = 1 }) refl refl refl only_queue selects_2 refl refl
      (omega arith)

-- The first queue was destroyed.
abbrev ipc_manager : IpcManager
ipc_manager = record {
  message_queues = none ∷ some mailbox ∷ [];
  shared_memory_regions = [];
  next_queue_id = 3;
  next_shared_memory_id = 1;
}

alone : find_named (97 ∷ []) [] ≡ none
unfolding find_named
alone = refl

ipc_manager-IsOrdered : IsOrdered ipc_manager
ipc_manager-IsOrdered = record { next = refl; distinct = (alone, tt) }

create_message_queue-Creates_example : Creates 600 1 (98 ∷ []) ipc_manager
create_message_queue-Creates_example =
    create_message_queue-Creates 600 1 (98 ∷ []) ipc_manager ipc_manager-IsOrdered

mailbox_at_2 : lookup_queue (pos 2) ipc_manager ≡ some (1, mailbox)
unfolding lookup_queue
mailbox_at_2 = refl

destroy_message_queue-Removes_example :
    (m' : IpcManager) × (destroy_message_queue (pos 2) ipc_manager process_table
      ≡ (true, m', release_waiting 500 [] process_table))
    × IsOrdered m'
    × (open_message_queue (97 ∷ []) m' ≡ negsuc 0)
    × (lookup_queue (pos 2) m' ≡ none)
destroy_message_queue-Removes_example =
    destroy_message_queue-Removes (pos 2) ipc_manager process_table 1 mailbox ipc_manager-IsOrdered
      mailbox_at_2
