-- ===== src/Core/Scheduler/Schedule/Dispatch.antt =====
-- `schedule_on_cpu`: what a change of process does to the run queue and to the states.
use pocky.Common.{ℕ, ◌≡◌, refl, sym, subst, ◌∙◌, ◌≢◌, false, Option, none, some, ==_self, arith}
use pocky.Core.Process.{ProcessState, Table, Manager, is_process}
use pocky.Core.Process.Switch.{switch_to_process-Switches}
use pocky.Core.Scheduler.{
  RunQueue, default_time_slice, get_runqueue, put_runqueue, select_next_process,
}
use pocky.Core.Scheduler.Schedule.{Kernel, change_over, dispatch, act_on, schedule_on_cpu}
use pocky.Core.Scheduler.Queues.{get-put_same}

abbrev pub state_of : Kernel → ℕ → ProcessState
state_of k p = (k.manager.table p).state

-- The processor runs `p` with a full time slice and runs no other process of the two it could have left.
pub record Runs (k out : Kernel) (cpu : ℕ) (r : RunQueue) (p : ℕ) : Type 0 where
  pub recorded :
      get_runqueue out.scheduler.runqueues cpu
      ≡ some (record r { current_time_slice = default_time_slice; current = some p })
  pub running : state_of out p ≡ ProcessState.running
  pub left_ready :
      (old : ℕ) → r.current ≡ some old → old ≢ p → state_of out old ≡ ProcessState.ready
  pub untouched :
      (q : ℕ)
      → q ≢ p
      → (is_process r.current q ≡ false)
      → (is_process k.manager.current q ≡ false)
      → state_of out q ≡ state_of k q
  pub switched : out.manager.current ≡ some p

running_after :
    (old : Option ℕ) (p now : ℕ) (t : Table)
    → (change_over old p now t p).state ≡ ProcessState.running
running_after old p now t = ground (arith, ==_self p)

ready_after :
    (old p now : ℕ) (t : Table)
    → old ≢ p
    → (change_over (some old) p now t old).state ≡ ProcessState.ready
ready_after old p now t h = ground arith

other_after :
    (old : Option ℕ) (p now q : ℕ) (t : Table)
    → q ≢ p
    → is_process old q ≡ false
    → (change_over old p now t q).state ≡ (t q).state
other_after none p now q t h g = ground arith
other_after (some old) p now q t h g = ground arith

dispatch-Runs :
    (k : Kernel) (r s : RunQueue) (p now cpu : ℕ)
    → get_runqueue k.scheduler.runqueues cpu ≡ some s
    → r.cpu_id ≡ cpu
    → Runs k (dispatch k r p now) cpu r p
unfolding dispatch
dispatch-Runs k r s p now cpu found id =
    let m : Manager = record (k.manager) { table = change_over r.current p now k.manager.table } in
    let w = switch_to_process-Switches m p (running_after r.current p now k.manager.table) in
    let new : RunQueue = record r { current_time_slice = default_time_slice; current = some p } in
    let rs = k.scheduler.runqueues in
    record {
      recorded =
          subst (λ c. get_runqueue (put_runqueue new rs) c ≡ some new) id
            (get-put_same rs new (subst (λ c. get_runqueue rs c ≡ some s) (sym id) found));
      running = w.running;
      left_ready = λ old e d. w.ready_stays old d (rw e (ready_after old p now k.manager.table d));
      untouched = λ q d h g. w.others q d g ∙ other_after r.current p now q k.manager.table d h;
      switched = w.switched;
    }

-- Where the selection of a processor's queue yields a process that the processor is not running,
-- `schedule_on_cpu` records it with a full time slice, makes it Running and the current process, and
-- makes the process that the processor leaves Ready, whatever its state was. No process but these
-- and the manager's current one changes its state.
pub schedule_on_cpu-Runs :
    (fuel now cpu : ℕ) (k : Kernel) (r r' : RunQueue) (p : ℕ)
    → get_runqueue k.scheduler.runqueues cpu ≡ some r
    → select_next_process fuel k.scheduler.policy k.manager.table r ≡ some (r', some p)
    → r'.cpu_id ≡ cpu
    → is_process r'.current p ≡ false
    → (out : Kernel) × (schedule_on_cpu fuel now cpu k ≡ some out) × Runs k out cpu r' p
unfolding schedule_on_cpu act_on
schedule_on_cpu-Runs fuel now cpu k r r' p found chosen id differs = (
  dispatch k r' p now,
  rw (schedule_on_cpu, found, chosen, act_on, differs) refl,
  dispatch-Runs k r' r p now cpu found id,
)
