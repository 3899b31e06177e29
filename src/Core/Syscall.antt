-- ===== src/Core/Syscall.antt =====
-- kernel/src/core/syscall.cpp: the calls for the break, for messages, for shared memory and for the scheduler.
-- A name is what the caller's pointer leads to. Results are `int64_t`; a null pointer is 0.
pub mod Rights
use pocky.Common.{
  ℕ, zero, suc, ◌+◌, ◌-◌, ◌%◌, Bool, true, false, not, ◌&&◌, ◌||◌, Option, none, some, List,
  if◌then◌else◌, ltb, ◌==◌, u32_mod, u64_mod, ◌*◌, [], length, take,
}
use pocky.Common.Int.{ℤ, pos, negsuc}
use pocky.Core.Process.{Process, Manager, update, get_process}
use pocky.Core.Scheduler.Schedule.{Kernel, schedule, set_process_priority}
use pocky.Shell.Terminal.{Terminal, terminal_write}
use pocky.Core.Ipc.{Received}
use pocky.Core.Ipc.Manager.{IpcManager}
use pocky.Core.Ipc.Manager as Ipc

pub record System : Type 0 where
  pub kernel : Kernel
  pub ipc : IpcManager

abbrev pub failure : ℤ
failure = negsuc 0

-- A register as an `int32_t`.
abbrev pub to_int32 : ℕ → ℤ
to_int32 register =
    let low = register % u32_mod in
    if ltb low 2147483648 then pos low else negsuc (u32_mod - low - 1)

-- A register as an `int64_t`.
abbrev pub to_int64 : ℕ → ℤ
to_int64 register =
    let low = register % u64_mod in
    if ltb low 9223372036854775808 then pos low else negsuc (u64_mod - low - 1)

abbrev success : Bool → ℤ
success b = if b then pos 0 else failure

abbrev pub with_manager : Manager → System → System
with_manager m s = record s { kernel = record (s.kernel) { manager = m } }

-- These calls are not implemented and only fail.
pub sys_read : ℤ → ℕ → ℕ → ℤ
sys_read fd buf count = failure

pub sys_open : ℕ → ℤ → ℕ → ℤ
sys_open pathname flags mode = failure

pub sys_close : ℤ → ℤ
sys_close fd = failure

pub sys_mmap : ℕ → ℕ → ℕ
sys_mmap addr size = 0

pub sys_munmap : ℕ → ℕ → ℤ
sys_munmap addr size = failure

-- The bytes that the caller's pointer leads to go to the terminal.
pub sys_write : ℕ → List ℕ → Terminal → ℤ × Terminal
sys_write rdi bytes t =
    let fd = rdi % u32_mod in
    if fd == 1 || fd == 2 then (to_int64 (length bytes), terminal_write bytes t) else (failure, t)

-- What `sys_brk` does for the current process.
pub set_break : ℕ → ℕ → Manager → ℤ × Manager
set_break addr p m =
    if addr == 0
    then (to_int64 (m.table p).brk, m)
    else (if ltb addr (m.table p).program_break then (failure, m) else (
      to_int64 addr,
      record m { table = update m.table p (record (m.table p) { brk = addr }) },
    ))

pub sys_brk : ℕ → Manager → ℤ × Manager
sys_brk addr m = elim m.current [ none ↦ (failure, m) | some p ↦ set_break addr p m ]

pub sys_msg_create : ℕ → List ℕ → System → ℤ × System
sys_msg_create address name s = elim s.kernel.manager.current [
  | none ↦ (failure, s)
  | some p ↦
      let (id, ipc) = Ipc.create_message_queue address (s.kernel.manager.table p).pid name s.ipc in
      (id, record s { ipc = ipc })
]

pub sys_msg_destroy : ℕ → System → ℤ × System
sys_msg_destroy rdi s = elim s.kernel.manager.current [
  | none ↦ (failure, s)
  | some p ↦
      let (done, ipc, table) =
        Ipc.destroy_message_queue (to_int32 rdi) s.ipc s.kernel.manager.table in
      (
        success done,
        with_manager (record (s.kernel.manager) { table = table }) (record s { ipc = ipc }),
      )
]

pub sys_msg_open : List ℕ → System → ℤ
sys_msg_open name s = elim s.kernel.manager.current [
  | none ↦ failure
  | some p ↦ Ipc.open_message_queue name s.ipc
]

pub sys_msg_send : ℕ → ℕ → List ℕ → ℕ → System → ℤ × System
sys_msg_send now rdi bytes size s = elim s.kernel.manager.current [
  | none ↦ (failure, s)
  | some p ↦
      let (sent, ipc, kernel) =
        Ipc.send_message now (to_int32 rdi) (s.kernel.manager.table p).pid bytes size s.ipc
          s.kernel in
      (success sent, record { kernel = kernel; ipc = ipc })
]

-- The result and the bytes that are copied to the caller, or the caller was suspended.
pub data Answer : Type 0 where
  returned : ℤ → List ℕ → Answer
  suspended : Answer

-- The size of a message is below 2 ^ 32, so that `|` adds it to the shifted sender.
abbrev pub answer : ℕ → Received → Answer
answer max_size Received.failed = Answer.returned failure []
answer max_size Received.suspended = Answer.suspended
answer max_size (Received.received m) =
    let copy_size = if ltb m.size max_size then m.size else max_size in
    Answer.returned (to_int64 (m.sender * u32_mod + copy_size)) (take copy_size m.bytes)

pub sys_msg_receive : ℕ → ℕ → ℕ → ℕ → ℕ → Bool → System → Option (Answer × System)
sys_msg_receive fuel now cpu rdi max_size wait s = elim s.kernel.manager.current [
  | none ↦ some (Answer.returned failure [], s)
  | some p ↦ elim (Ipc.receive_message fuel now cpu (to_int32 rdi) wait s.ipc s.kernel) [
    | none ↦ none
    | some (result, ipc, kernel) ↦
        some (answer max_size result, record { kernel = kernel; ipc = ipc })
  ]
]

pub sys_shm_attach : ℕ → System → ℤ × System
sys_shm_attach rdi s = elim s.kernel.manager.current [
  | none ↦ (pos 0, s)
  | some p ↦
      let (address, ipc) =
        Ipc.attach_shared_memory (to_int32 rdi) (s.kernel.manager.table p).pid s.ipc in
      (elim address [ none ↦ pos 0 | some a ↦ to_int64 a ], record s { ipc = ipc })
]

pub sys_shm_detach : ℕ → System → ℤ × System
sys_shm_detach rdi s = elim s.kernel.manager.current [
  | none ↦ (failure, s)
  | some p ↦
      let (done, ipc) =
        Ipc.detach_shared_memory (to_int32 rdi) (s.kernel.manager.table p).pid s.ipc in
      (success done, record s { ipc = ipc })
]

pub sys_sched_yield : ℕ → ℕ → ℕ → System → Option (ℤ × System)
sys_sched_yield fuel now cpu s = elim (schedule fuel now cpu s.kernel) [
  | none ↦ none
  | some k ↦ some (pos 0, record s { kernel = k })
]

-- The priority is a `uint8_t`.
pub sys_sched_set_priority : ℕ → ℕ → Manager → ℤ × Manager
sys_sched_set_priority pid rsi m = elim m.current [
  | none ↦ (failure, m)
  | some p ↦
      let caller = (m.table p).pid in
      if not (pid == caller) && not (caller == 1)
      then (failure, m)
      else (pos 0, set_process_priority m pid (rsi % 256))
]

pub sys_sched_get_priority : ℕ → Manager → ℤ
sys_sched_get_priority pid m = elim (get_process m pid) [
  | none ↦ failure
  | some p ↦ pos (m.table p).priority
]
