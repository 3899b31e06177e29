-- ===== src/Core/Ipc/Manager.antt =====
-- `IPCManager` of kernel/src/core/ipc.cpp: the table of message queues, and which processes are
-- attached to which region of shared memory. Ids are the code's `int32_t`, without their bound.
pub mod Names
pub mod Slots
pub mod Lookup
pub mod Lifecycle
use pocky.Common.{
  ℕ, zero, suc, ◌+◌, ◌-◌, Bool, true, false, not, ◌&&◌, ◌||◌, Option, none, some, List, [], ◌∷◌,
  ◌++◌, length, get_elem?, set, if◌then◌else◌, ltb, leb, ◌==◌,
}
use pocky.Common.Int.{ℤ, pos, negsuc}
use pocky.Vector.{erase_at}
use pocky.Core.Process.{Process, ProcessState, Table}
use pocky.Core.Scheduler.{RunQueue, add_process, contains, index_of}
use pocky.Core.Scheduler.Schedule.{Kernel}
use pocky.Core.Ipc
use pocky.Core.Ipc.{MessageQueue, Received, waits_on, release}

pub record SharedMemoryRegion : Type 0 where
  pub id : ℕ
  pub creator : ℕ
  pub size : ℕ
  pub address : ℕ
  pub attached_processes : List ℕ

pub record IpcManager : Type 0 where
  pub message_queues : List (Option MessageQueue)
  pub shared_memory_regions : List SharedMemoryRegion
  pub next_queue_id : ℕ
  pub next_shared_memory_id : ℕ

abbrev pub same_name : List ℕ → List ℕ → Bool
same_name [] [] = true
same_name [] (d ∷ ds) = false
same_name (c ∷ cs) [] = false
same_name (c ∷ cs) (d ∷ ds) = c == d && same_name cs ds

abbrev pub is_named : List ℕ → Option MessageQueue → Bool
is_named name none = false
is_named name (some q) = same_name q.name name

-- The loop of `open_message_queue`, and the first one of `create_message_queue`: the first index.
unfoldable pub find_named : List ℕ → List (Option MessageQueue) → Option ℕ
find_named name [] = none
find_named name (slot ∷ slots) =
    if is_named name slot
    then some 0
    else (elim (find_named name slots) [ none ↦ none | some i ↦ some (suc i) ])

-- The second loop of `create_message_queue`: the first null pointer.
pub find_free : List (Option MessageQueue) → Option ℕ
find_free [] = none
find_free (none ∷ slots) = some 0
find_free (some q ∷ slots) = elim (find_free slots) [ none ↦ none | some i ↦ some (suc i) ]

abbrev pub new_queue : ℕ → ℕ → List ℕ → MessageQueue
new_queue address owner name = record {
  address = address;
  owner = owner;
  name = name;
  messages = [];
  waiting_processes = [];
}

-- `address` is what `new` returned.
pub create_message_queue : ℕ → ℕ → List ℕ → IpcManager → ℤ × IpcManager
create_message_queue address owner name m = elim (find_named name m.message_queues) [
  | some _ ↦ (negsuc 0, m)
  | none ↦
      let queue = some (new_queue address owner name) in
      elim (find_free m.message_queues) [
        | some i ↦ (pos (i + 1), record m { message_queues = set m.message_queues i queue })
        | none ↦ (
          pos m.next_queue_id,
          record m {
            message_queues = m.message_queues ++ (queue ∷ []);
            next_queue_id = m.next_queue_id + 1;
          },
        )
      ]
]

pub open_message_queue : List ℕ → IpcManager → ℤ
open_message_queue name m = elim (find_named name m.message_queues) [
  | none ↦ negsuc 0
  | some i ↦ pos (i + 1)
]

-- A null pointer in the table is no queue.
abbrev pub at_slot : ℕ → Option (Option MessageQueue) → Option (ℕ × MessageQueue)
at_slot i none = none
at_slot i (some none) = none
at_slot i (some (some q)) = some (i, q)

-- The guard that `destroy_message_queue`, `send_message` and `receive_message` share, and the
-- queue that stands at the id: its index and the queue itself.
unfoldable pub lookup_queue : ℤ → IpcManager → Option (ℕ × MessageQueue)
lookup_queue (negsuc n) m = none
lookup_queue (pos zero) m = none
lookup_queue (pos (suc i)) m =
    if leb m.next_queue_id (suc i) || ltb (length m.message_queues) (suc i)
    then none
    else at_slot i (get_elem? m.message_queues i)

-- The loop of the destructor of `MessageQueue`.
pub release_waiting : ℕ → List ℕ → Table → Table
release_waiting address [] t = t
release_waiting address (p ∷ ps) t =
    release_waiting address ps (if waits_on address (t p) then release p t else t)

pub destroy_message_queue : ℤ → IpcManager → Table → Bool × IpcManager × Table
destroy_message_queue id m t = elim (lookup_queue id m) [
  | none ↦ (false, m, t)
  | some (i, q) ↦ (
    true,
    record m { message_queues = set m.message_queues i none },
    release_waiting q.address q.waiting_processes t,
  )
]

-- The queue at an index was changed through its pointer.
abbrev pub put_queue : ℕ → MessageQueue → IpcManager → IpcManager
put_queue i q m = record m { message_queues = set m.message_queues i (some q) }

pub send_message : ℕ → ℤ → ℕ → List ℕ → ℕ → IpcManager → Kernel → Bool × IpcManager × Kernel
send_message now queue_id sender bytes size m k = elim (lookup_queue queue_id m) [
  | none ↦ (false, m, k)
  | some (i, q) ↦
      let (sent, q', k') = Ipc.send_message now sender bytes size q k in
      (sent, put_queue i q' m, k')
]

pub receive_message :
    ℕ → ℕ → ℕ → ℤ → Bool → IpcManager → Kernel → Option (Received × IpcManager × Kernel)
receive_message fuel now cpu queue_id wait m k = elim (lookup_queue queue_id m) [
  | none ↦ some (Received.failed, m, k)
  | some (i, q) ↦ elim (Ipc.receive_message fuel now cpu wait q k) [
    | none ↦ none
    | some (result, q', k') ↦ some (result, put_queue i q' m, k')
  ]
]

-- The first region with the id, and what `attach` or `detach` does to its list of processes.
abbrev pub attach : ℕ → SharedMemoryRegion → SharedMemoryRegion
attach pid region =
    if contains region.attached_processes pid
    then region
    else record region { attached_processes = region.attached_processes ++ (pid ∷ []) }

attach_in : ℕ → ℕ → List SharedMemoryRegion → Option (ℕ × List SharedMemoryRegion)
attach_in id pid [] = none
attach_in id pid (region ∷ regions) =
    if region.id == id
    then some (region.address, attach pid region ∷ regions)
    else (elim (attach_in id pid regions) [
      | none ↦ none
      | some (address, regions') ↦ some (address, region ∷ regions')
    ])

-- `none` is the null pointer.
pub attach_shared_memory : ℤ → ℕ → IpcManager → Option ℕ × IpcManager
attach_shared_memory (negsuc n) pid m = (none, m)
attach_shared_memory (pos zero) pid m = (none, m)
attach_shared_memory (pos (suc n)) pid m = elim (attach_in (suc n) pid m.shared_memory_regions) [
  | none ↦ (none, m)
  | some (address, regions) ↦ (some address, record m { shared_memory_regions = regions })
]

abbrev detach : ℕ → SharedMemoryRegion → Bool × SharedMemoryRegion
detach pid region = elim (index_of region.attached_processes pid) [
  | none ↦ (false, region)
  | some j ↦ (true, record region { attached_processes = erase_at j region.attached_processes })
]

detach_in : ℕ → ℕ → List SharedMemoryRegion → Bool × List SharedMemoryRegion
detach_in id pid [] = (false, [])
detach_in id pid (region ∷ regions) =
    if region.id == id
    then (let (found, region') = detach pid region in (found, region' ∷ regions))
    else (let (found, regions') = detach_in id pid regions in (found, region ∷ regions'))

-- Regions are numbered from 1, so that no region has a negative id.
pub detach_shared_memory : ℤ → ℕ → IpcManager → Bool × IpcManager
detach_shared_memory (negsuc n) pid m = (false, m)
detach_shared_memory (pos id) pid m =
    let (found, regions) = detach_in id pid m.shared_memory_regions in
    (found, record m { shared_memory_regions = regions })

-- The loop of `wake_waiting_processes` over the chain of processes.
pub wake_waiting_processes : ℕ → List ℕ → List RunQueue → Table → List RunQueue × Table
wake_waiting_processes resource [] rs t = (rs, t)
wake_waiting_processes resource (p ∷ ps) rs t =
    let (rs', t') = if waits_on resource (t p) then add_process rs (release p t) p else (rs, t) in
    wake_waiting_processes resource ps rs' t'
