-- ===== src/Core/Process/Switch.antt =====
-- `switch_to_process` of kernel/src/core/process.cpp.
use pocky.Common.{
  ℕ, ◌≡◌, refl, ◌≢◌, inl, inr, true, false, Option, none, some, ==_self, arith, Bool-cases,
}
use pocky.Core.Process.{ProcessState, Table, Manager, is_process, park, switch_to_process}

-- `switch_to_process` to a process that is marked running.
pub record Switches (m out : Manager) (p : ℕ) : Type 0 where
  pub running : (out.table p).state ≡ ProcessState.running
  pub ready_stays :
      (q : ℕ)
      → q ≢ p
      → (m.table q).state ≡ ProcessState.ready
      → (out.table q).state ≡ ProcessState.ready
  pub others :
      (q : ℕ) → q ≢ p → is_process m.current q ≡ false → (out.table q).state ≡ (m.table q).state
  pub switched : out.current ≡ some p

is_process-some : (o : Option ℕ) (p : ℕ) → is_process o p ≡ true → o ≡ some p
is_process-some none p h = cc
is_process-some (some q) p h = ground arith

park_ready :
    (o : Option ℕ) (q : ℕ) (t : Table)
    → (t q).state ≡ ProcessState.ready
    → (park o t q).state ≡ ProcessState.ready
unfolding park
park_ready none q t h = h
park_ready (some old) q t h = ground arith

park_other :
    (o : Option ℕ) (q : ℕ) (t : Table) → is_process o q ≡ false → (park o t q).state ≡ (t q).state
unfolding park
park_other none q t h = refl
park_other (some old) q t h = ground arith

pub switch_to_process-Switches :
    (m : Manager) (p : ℕ)
    → (m.table p).state ≡ ProcessState.running
    → Switches m (switch_to_process m p) p
unfolding switch_to_process
switch_to_process-Switches m p run = rw run (elim (Bool-cases (is_process m.current p)) [
  | inl y ↦ rw y (record {
    running = run;
    ready_stays = λ q _ h. h;
    others = λ q _ _. refl;
    switched = is_process-some m.current p y;
  })
  | inr n ↦ rw n (record {
    running = ground (arith, ==_self p);
    ready_stays = λ q d h. ground (arith, park_ready m.current q m.table h);
    others = λ q d h. ground (arith, park_other m.current q m.table h);
    switched = refl;
  })
])
