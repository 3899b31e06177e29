-- ===== src/Core/Ipc.antt =====
-- kernel/src/core/ipc.cpp and ipc.hpp: the message queues.
-- A name is its bytes before the terminator. A queue carries its address, which the allocator chose:
-- `waiting_on` of a process holds it. The clock and the current process are arguments or read from the kernel.
pub mod Fifo
pub mod Manager
pub mod Waiting
mod Tests
use pocky.Common.{
  ℕ, zero, suc, ◌+◌, ◌-◌, Bool, true, false, not, ◌&&◌, ◌||◌, Option, none, some, List, [], ◌∷◌,
  ◌++◌, length, get_elem?, set, take, if◌then◌else◌, ltb, leb, ◌==◌,
}
use pocky.Common.Int.{ℤ, pos, negsuc}
use pocky.Vector.{erase_at}
use pocky.Core.Process.{Process, ProcessState, Table, update, is_waiting, is_process}
use pocky.Core.Scheduler.{RunQueue, add_process, contains, index_of}
use pocky.Core.Scheduler.Schedule.{Kernel, schedule}

abbrev pub max_message_size : ℕ
max_message_size = 1024

abbrev pub max_messages_per_queue : ℕ
max_messages_per_queue = 64

-- `bytes` is the part of the buffer that was written.
pub record Message : Type 0 where
  pub sender : ℕ
  pub timestamp : ℕ
  pub size : ℕ
  pub bytes : List ℕ

pub record MessageQueue : Type 0 where
  pub address : ℕ
  pub owner : ℕ
  pub name : List ℕ
  pub messages : List Message
  pub waiting_processes : List ℕ

abbrev pub is_full : MessageQueue → Bool
is_full q = leb max_messages_per_queue (length q.messages)

-- `state == Waiting && waiting_on == this`
abbrev pub waits_on : ℕ → Process → Bool
waits_on address p = is_waiting p.state && is_process p.waiting_on address

-- The process is Ready and waits for nothing.
abbrev pub release : ℕ → Table → Table
release p t = update t p (record (t p) { state = ProcessState.ready; waiting_on = none })

abbrev pub with_processes : Kernel → List RunQueue × Table → Kernel
with_processes k (rs, t) = record k {
  scheduler = record (k.scheduler) { runqueues = rs };
  manager = record (k.manager) { table = t };
}

-- The end of `send_message`: the first of the waiting processes.
pub wake_first : MessageQueue → Kernel → MessageQueue × Kernel
wake_first q k = elim q.waiting_processes [
  | [] ↦ (q, k)
  | w ∷ ws ↦
      if waits_on q.address (k.manager.table w)
      then (
        record q { waiting_processes = erase_at 0 (w ∷ ws) },
        with_processes k (add_process k.scheduler.runqueues (release w k.manager.table) w),
      )
      else (q, k)
]

abbrev pub message : ℕ → ℕ → List ℕ → ℕ → Message
message now sender bytes size = record {
  sender = sender;
  timestamp = now;
  size = size;
  bytes = take size bytes;
}

pub send_message : ℕ → ℕ → List ℕ → ℕ → MessageQueue → Kernel → Bool × MessageQueue × Kernel
send_message now sender bytes size q k =
    if is_full q || ltb max_message_size size
    then (false, q, k)
    else (let (q', k') =
          wake_first (record q { messages = q.messages ++ (message now sender bytes size ∷ []) })
            k in
        (true, q', k'))

-- The end of `receive_message`, where the code also arrives when the caller runs again after it waited.
pub take_message : MessageQueue → Option Message × MessageQueue
take_message q = elim q.messages [
  | [] ↦ (none, q)
  | m ∷ ms ↦ (some m, record q { messages = erase_at 0 (m ∷ ms) })
]

pub data Received : Type 0 where
  failed : Received
  received : Message → Received
  -- The processor was given up: `take_message` follows when the caller runs again.
  suspended : Received

abbrev pub outcome : Option Message → Received
outcome none = Received.failed
outcome (some m) = Received.received m

abbrev pub wait_for : ℕ → ℕ → Table → Table
wait_for p address t =
    update t p (record (t p) { state = ProcessState.waiting; waiting_on = some address })

-- The caller becomes a waiting process and `schedule` runs. The outer `none` is that of `schedule_on_cpu`.
pub suspend : ℕ → ℕ → ℕ → ℕ → MessageQueue → Kernel → Option (Received × MessageQueue × Kernel)
suspend fuel now cpu p q k =
    let waiting = record k {
      manager = record (k.manager) { table = wait_for p q.address k.manager.table };
    } in
    let q' = record q { waiting_processes = q.waiting_processes ++ (p ∷ []) } in
    elim (schedule fuel now cpu waiting) [
      | none ↦ none
      | some k' ↦ some (Received.suspended, q', k')
    ]

pub receive_message :
    ℕ → ℕ → ℕ → Bool → MessageQueue → Kernel → Option (Received × MessageQueue × Kernel)
receive_message fuel now cpu wait q k = elim q.messages [
  | [] ↦ if not wait then some (Received.failed, q, k) else (elim k.manager.current [
    | none ↦ some (Received.failed, q, k)
    | some p ↦ suspend fuel now cpu p q k
  ])
  | m ∷ ms ↦ let (found, q') = take_message q in some (outcome found, q', k)
]
