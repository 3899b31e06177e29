-- ===== src/Core/Syscall/Rights.antt =====
-- What a caller of kernel/src/core/syscall.cpp can change.
use pocky.Common.{
  ℕ, ◌%◌, ◌<◌, ◌≤◌, ◌≡◌, refl, ◌≢◌, ◌⊎◌, inl, inr, not, ◌&&◌, some, ltb, ◌==◌, ==_self, arith,
  Bool-cases, Option-cases,
}
use pocky.Common.Int.{ℤ}
use pocky.Core.Process.{Manager, get_process}
use pocky.Core.Scheduler.Schedule.{set_process_priority}
use pocky.Core.Syscall.{failure, to_int64, set_break, sys_brk, sys_sched_set_priority}

-- A result of `sys_brk` with an address, for the process `p`.
pub record MovesBreak (addr p : ℕ) (m : Manager) (out : ℤ × Manager) : Type 0 where
  pub answer :
      ((addr ≡ 0) × (out ≡ (to_int64 (m.table p).brk, m)))
      ⊎ (((addr < (m.table p).program_break) × (out ≡ (failure, m)))
          ⊎ (((m.table p).program_break ≤ addr)
              × ((out.1.table p).brk ≡ addr)
              × (out.0 ≡ to_int64 addr)))
  pub others : (q : ℕ) → q ≢ p → out.1.table q ≡ m.table q
  pub bounded : (out.1.table p).program_break ≤ (out.1.table p).brk

set_break-MovesBreak :
    (addr p : ℕ) (m : Manager)
    → (m.table p).program_break ≤ (m.table p).brk
    → MovesBreak addr p m (set_break addr p m)
unfolding set_break
set_break-MovesBreak addr p m h = elim (Bool-cases (addr == 0)) [
  | inl y ↦
      rw y (record { answer = inl (ground (arith, y), refl); others = λ q d. refl; bounded = h })
  | inr n ↦ elim (Bool-cases (ltb addr (m.table p).program_break)) [
    | inl low ↦
        rw (n, low)
          (record {
            answer = inr (inl (ground (arith, low), refl));
            others = λ q d. refl;
            bounded = h;
          })
    | inr high ↦
        rw (n, high)
          (record {
            answer = inr (inr (ground (arith, high), ground (arith, ==_self p), refl));
            others = λ q d. ground arith;
            bounded = ground (arith, ==_self p);
          })
  ]
]

sys_brk_current :
    (addr p : ℕ) (m : Manager) → m.current ≡ some p → sys_brk addr m ≡ set_break addr p m
unfolding sys_brk
sys_brk_current addr p m here = ground arith

-- For a current process whose break is not below the end of its program, `sys_brk` of 0 returns the break and
-- changes nothing, of an address below the end of the program it fails and changes nothing, and of
-- another address it makes that the break and returns it. A break is returned as the signed number of
-- the same 64 bits, which is negative from 2 ^ 63 on. It changes no other process, and the break is
-- still not below the end of the program.
pub sys_brk-MovesBreak :
    (addr p : ℕ) (m : Manager)
    → m.current ≡ some p
    → (m.table p).program_break ≤ (m.table p).brk
    → MovesBreak addr p m (sys_brk addr m)
sys_brk-MovesBreak addr p m here h =
    rw (sys_brk_current addr p m here) (set_break-MovesBreak addr p m h)

-- No process has a priority above 10.
abbrev pub AreBounded : Manager → Type 0
AreBounded m = (q : ℕ) → (m.table q).priority ≤ 10

set_process_priority-AreBounded :
    (m : Manager) (pid priority : ℕ)
    → AreBounded m
    → AreBounded (set_process_priority m pid priority)
unfolding set_process_priority
set_process_priority-AreBounded m pid priority b q = elim (Option-cases (get_process m pid)) [
  | inl missing ↦ rw (set_process_priority, missing) (b q)
  | inr (p, found) ↦ rw (set_process_priority, found) (let old = b q in ground arith)
]

-- `sys_sched_set_priority` keeps every priority at 10 or below. The call is refused and changes
-- nothing, or the caller named itself or is the process of id 1.
pub sys_sched_set_priority_lem :
    (pid rsi : ℕ) (m : Manager) (p : ℕ)
    → AreBounded m
    → m.current ≡ some p
    → AreBounded (sys_sched_set_priority pid rsi m).1
      × ((sys_sched_set_priority pid rsi m ≡ (failure, m))
          ⊎ ((pid ≡ (m.table p).pid) ⊎ ((m.table p).pid ≡ 1)))
unfolding sys_sched_set_priority
sys_sched_set_priority_lem pid rsi m p b here =
    elim (Bool-cases (not (pid == (m.table p).pid) && not ((m.table p).pid == 1))) [
      | inl y ↦ (λ q. rw (sys_sched_set_priority, here, y) (b q), inl (ground arith))
      | inr n ↦ (
        λ q.
            rw (sys_sched_set_priority, here, n)
              (set_process_priority-AreBounded m pid (rsi % 256) b q),
        inr (ground arith),
      )
    ]
