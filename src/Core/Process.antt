-- ===== src/Core/Process.antt =====
-- kernel/src/core/process.hpp, and the parts of process.cpp that do not touch page tables or the
-- disk. A `Process*` is a number, and the table maps it to the object; `processes` is the chain of
-- `next` pointers from `m_first_process`.
pub mod Switch
use pocky.Common.{
  ℕ, zero, suc, ◌+◌, Bool, not, ◌&&◌, ◌||◌, Option, none, some, List, [], ◌∷◌, if◌then◌else◌, ◌==◌,
  true, false,
}

pub data ProcessState : Type 0 where
  running stopped zombie ready waiting : ProcessState

abbrev pub is_ready : ProcessState → Bool
is_ready ProcessState.ready = true
is_ready _ = false

abbrev pub is_running : ProcessState → Bool
is_running ProcessState.running = true
is_running _ = false

abbrev pub is_waiting : ProcessState → Bool
is_waiting ProcessState.waiting = true
is_waiting _ = false

-- The fields that the modelled operations read or write. `waiting_on` is the queue waited for.
pub record Process : Type 0 where
  pub pid : ℕ
  pub ppid : ℕ
  pub state : ProcessState
  pub brk : ℕ
  pub program_break : ℕ
  pub priority : ℕ
  pub total_runtime : ℕ
  pub last_run : ℕ
  pub waiting_on : Option ℕ

abbrev pub Table : Type 0
Table = ℕ → Process

-- A write to the object behind a pointer.
abbrev pub update : Table → ℕ → Process → Table
update t p v q = if p == q then v else t q

abbrev pub set_state : ProcessState → ℕ → Table → Table
set_state s p t = update t p (record (t p) { state = s })

-- `ProcessManager`: the table, the chain and the current process.
pub record Manager : Type 0 where
  pub table : Table
  pub processes : List ℕ
  pub current : Option ℕ

-- `get_process`: the first process of the chain with the id.
pub find_process : Table → List ℕ → ℕ → Option ℕ
find_process t [] pid = none
find_process t (p ∷ ps) pid = if (t p).pid == pid then some p else find_process t ps pid

pub get_process : Manager → ℕ → Option ℕ
get_process m pid = find_process m.table m.processes pid

-- The chain after `terminate_process` took the first process with the id out of it.
pub unlink : Table → List ℕ → ℕ → List ℕ
unlink t [] pid = []
unlink t (p ∷ ps) pid = if (t p).pid == pid then ps else p ∷ unlink t ps pid

abbrev pub is_process : Option ℕ → ℕ → Bool
is_process none p = false
is_process (some q) p = q == p

-- The old process goes back to Ready if it was running.
pub park : Option ℕ → Table → Table
park none t = t
park (some old) t = if is_running (t old).state then set_state ProcessState.ready old t else t

-- `switch_to_process`, without the change of registers.
pub switch_to_process : Manager → ℕ → Manager
switch_to_process m p =
    let s = (m.table p).state in
    if not (is_running s) && not (is_ready s)
    then m
    else (if is_process m.current p then m else record m {
      table = set_state ProcessState.running p (park m.current m.table);
      current = some p;
    })
