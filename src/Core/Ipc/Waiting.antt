-- ===== src/Core/Ipc/Waiting.antt =====
-- The processes that wait for a message: whom `send_message` wakes, and whom it passes over.
use pocky.Common.{
  ℕ, ◌<◌, ◌≤◌, ◌≡◌, refl, ap, ◌∙◌, ◌≢◌, inl, inr, true, false, none, some, List, [], ◌∷◌, ◌++◌,
  length, ==_self, arith,
}
use pocky.Vector.Erase.{remove_at, erase_at-remove_at}
use pocky.Core.Process.{ProcessState, Table}
use pocky.Core.Scheduler.{RunQueue, add_process, get_runqueue, select_next_process, size_max}
use pocky.Core.Scheduler.Queues.{load, IsNumbered}
use pocky.Core.Scheduler.Enqueue.{Adds, add_process-Adds}
use pocky.Core.Scheduler.Schedule.{Kernel, schedule_on_cpu}
use pocky.Core.Scheduler.Schedule.Dispatch.{state_of, schedule_on_cpu-Runs}
use pocky.Core.Ipc.{
  Message, MessageQueue, Received, max_message_size, max_messages_per_queue, waits_on, release,
  with_processes, message, wake_first, send_message, wait_for, suspend, receive_message,
}

abbrev push : MessageQueue → Message → MessageQueue
push q m = record q { messages = q.messages ++ (m ∷ []) }

send_accepts :
    (now sender : ℕ) (bytes : List ℕ) (size : ℕ) (q : MessageQueue) (k : Kernel)
    → length q.messages < max_messages_per_queue
    → size ≤ max_message_size
    → send_message now sender bytes size q k ≡ (
      true,
      (wake_first (push q (message now sender bytes size)) k).0,
      (wake_first (push q (message now sender bytes size)) k).1,
    )
unfolding send_message
send_accepts now sender bytes size q k room small = ground arith

abbrev woken : ℕ → Kernel → List RunQueue × Table
woken w k = add_process k.scheduler.runqueues (release w k.manager.table) w

wake_first_waiting :
    (q : MessageQueue) (k : Kernel) (w : ℕ) (ws : List ℕ)
    → q.waiting_processes ≡ w ∷ ws
    → waits_on q.address (k.manager.table w) ≡ true
    → wake_first q k ≡ (record q { waiting_processes = ws }, with_processes k (woken w k))
unfolding wake_first remove_at
wake_first_waiting q k w ws e h =
    rw (wake_first, e, h, erase_at-remove_at 0 (w ∷ ws) (omega arith)) refl

wake_first_passed :
    (q : MessageQueue) (k : Kernel) (w : ℕ) (ws : List ℕ)
    → q.waiting_processes ≡ w ∷ ws
    → waits_on q.address (k.manager.table w) ≡ false
    → wake_first q k ≡ (q, k)
unfolding wake_first
wake_first_passed q k w ws e h = ground arith

added_state :
    {rs : List RunQueue} {t : Table} {p : ℕ} {out : List RunQueue × Table} {r : RunQueue}
    → Adds rs t p out r
    → (t p).state ≡ ProcessState.ready
    → ((out.1 p).state ≡ ProcessState.ready) × ((out.1 p).waiting_on ≡ (t p).waiting_on)
added_state {t = t} {p = p} a h = elim (a.outcome) [
  | inl (_, e) ↦ (ap (λ o. (o.1 p).state) e ∙ h, ap (λ o. (o.1 p).waiting_on) e)
  | inr (_, _, _, _, e, _) ↦ (
    ap (λ o. (o p).state) e ∙ ground (arith, ==_self p),
    ap (λ o. (o p).waiting_on) e ∙ ground (arith, ==_self p),
  )
]

released :
    (p : ℕ) (t : Table)
    → ((release p t p).state ≡ ProcessState.ready) × ((release p t p).waiting_on ≡ none)
released p t = (ground (arith, ==_self p), ground (arith, ==_self p))

-- With the run queues numbered by their processors from 0 on, and some run queue shorter than the largest
-- `size_t`: a message that is accepted while the first of the waiting processes waits for this queue
-- wakes it. It leaves the list, becomes Ready and waits for nothing. A run queue of the least length
-- takes it at its end, and the other run queues stay as they are; if that queue holds it already, all do.
pub send_message_wakes :
    (now sender : ℕ) (bytes : List ℕ) (size : ℕ) (q : MessageQueue) (k : Kernel) (w : ℕ)
    (ws : List ℕ) (cpu : ℕ) (x : RunQueue)
    → length q.messages < max_messages_per_queue
    → size ≤ max_message_size
    → q.waiting_processes ≡ w ∷ ws
    → waits_on q.address (k.manager.table w) ≡ true
    → get_runqueue k.scheduler.runqueues cpu ≡ some x
    → load x < size_max
    → IsNumbered 0 k.scheduler.runqueues
    → (k' : Kernel) × (r : RunQueue) × (send_message now sender bytes size q k ≡ (
      true,
      record q {
        messages = q.messages ++ (message now sender bytes size ∷ []);
        waiting_processes = ws;
      },
      k',
    ))
      × Adds k.scheduler.runqueues
          (release w k.manager.table)
          w
          (k'.scheduler.runqueues, k'.manager.table)
          r
      × (state_of k' w ≡ ProcessState.ready)
      × ((k'.manager.table w).waiting_on ≡ none)
send_message_wakes now sender bytes size q k w ws cpu x room small first waits there short
      numbered =
    let added =
      add_process-Adds k.scheduler.runqueues (release w k.manager.table) w cpu x there short
        numbered in
    (
      with_processes k (woken w k),
      added.0,
      send_accepts now sender bytes size q k room small
          ∙ rw (wake_first_waiting (push q (message now sender bytes size)) k w ws first waits)
              refl,
      added.1,
      (added_state added.1 (released w k.manager.table).0).0,
      (added_state added.1 (released w k.manager.table).0).1 ∙ (released w k.manager.table).1,
    )

-- The state in which a caller that waits asks for another process to run.
abbrev pub waiting_kernel : ℕ → ℕ → Kernel → Kernel
waiting_kernel p address k = record k {
  manager = record (k.manager) { table = wait_for p address k.manager.table };
}

receive_suspends :
    (fuel now cpu p : ℕ) (q : MessageQueue) (k out : Kernel)
    → q.messages ≡ []
    → k.manager.current ≡ some p
    → schedule_on_cpu fuel now cpu (waiting_kernel p q.address k) ≡ some out
    → receive_message fuel now cpu true q k
      ≡ some (
        Received.suspended,
        record q { waiting_processes = q.waiting_processes ++ (p ∷ []) },
        out,
      )
unfolding receive_message suspend
receive_suspends fuel now cpu p q k out empty here run =
    let turn : receive_message fuel now cpu true q k ≡ suspend fuel now cpu p q k = ground arith in
    turn ∙ ground arith

-- A caller waits on a queue where no other process waits, and the scheduler gives its processor to
-- another process. Then the caller is not Waiting but Ready, and a message that is sent next leaves
-- the list of waiting processes and the kernel as they are: it wakes nobody.
pub receive_message-waits_in_vain :
    (fuel now cpu p x : ℕ) (q : MessageQueue) (k : Kernel) (r r' : RunQueue)
    → q.messages ≡ []
    → q.waiting_processes ≡ []
    → k.manager.current ≡ some p
    → get_runqueue k.scheduler.runqueues cpu ≡ some r
    → select_next_process fuel k.scheduler.policy (wait_for p q.address k.manager.table) r
      ≡ some (r', some x)
    → r'.cpu_id ≡ cpu
    → r'.current ≡ some p
    → p ≢ x
    → (out : Kernel) × (q' : MessageQueue) × (receive_message fuel now cpu true q k
        ≡ some (Received.suspended, q', out))
      × (state_of out p ≡ ProcessState.ready)
      × (q'.waiting_processes ≡ p ∷ [])
      × ((later sender : ℕ) (bytes : List ℕ) (size : ℕ)
          → size ≤ max_message_size
          → send_message later sender bytes size q' out
            ≡ (true, record q' { messages = message later sender bytes size ∷ [] }, out))
receive_message-waits_in_vain fuel now cpu p x q k r r' empty alone here found chosen id current
      differs =
    let run =
      schedule_on_cpu-Runs fuel now cpu (waiting_kernel p q.address k) r r' x found chosen id
        (ground arith) in
    let ready = run.2.left_ready p current differs in
    let q' : MessageQueue = record q { waiting_processes = q.waiting_processes ++ (p ∷ []) } in
    let first : q'.waiting_processes ≡ p ∷ [] = ap (λ l. l ++ (p ∷ [])) alone in
    let nothing : length q'.messages ≡ 0 = ap length empty in
    (
      run.0,
      record q { waiting_processes = q.waiting_processes ++ (p ∷ []) },
      receive_suspends fuel now cpu p q k run.0 empty here run.1,
      ready,
      first,
      λ later sender bytes size small.
          send_accepts later sender bytes size q' run.0 (omega arith) small
          ∙ ap (λ o. (true, o.0, o.1))
              (wake_first_passed (push q' (message later sender bytes size)) run.0 p [] first
                (ground (arith, ready)))
          ∙ ap
              (λ l.
                (true, record q' { messages = l ++ (message later sender bytes size ∷ []) }, run.0))
              empty,
    )
