-- ===== src/Core/Scheduler/Schedule/Balance.antt =====
-- `load_balance`: it ends, and no process is lost or doubled.
use pocky.Common.{
  ℕ, zero, suc, ◌+◌, ◌-◌, ◌/◌, ◌%◌, ◌<◌, ◌≤◌, ◌≡◌, refl, ap, sym, subst, ◌∙◌, ◌≢◌, inl, inr, Option,
  some, List, [], ◌∷◌, length, get_elem?, if◌then◌else◌, leb, ◌==◌, arith, Bool-cases, Option-cases,
  u64_mod,
}
use pocky.Vector.Erase.{erase_at-remove_at, length-erase_at}
use pocky.Core.Process.{Table}
use pocky.Core.Scheduler.{RunQueue, get_runqueue, put_runqueue, index_of, take_out, size_max}
use pocky.Core.Scheduler.Schedule.{
  can_migrate_process, leave_queue, join_queue, migrate_process, move_loop, load_balance, Extremes,
  extremes,
}
use pocky.Core.Scheduler.Schedule.Bounds.{AreExtremes, extremes-AreExtremes}
use pocky.Core.Scheduler.Queues.{
  count, queued, count-push, index_of-some, index_of-none, get_runqueue-cpu_id, IsNumbered,
  AllQueues, queued-put_runqueue, load, get-put_same, get-put_other,
}

-- A process that stands at some index of a list.
held_at : (i : ℕ) (xs : List ℕ) {p : ℕ} → get_elem? xs i ≡ some p → 0 < count p xs
unfolding count
held_at i [] h = cc
held_at zero (x ∷ xs) h = ground arith
held_at (suc i) (x ∷ xs) h = ground (arith, held_at i xs h)

within : (i : ℕ) (xs : List ℕ) {p : ℕ} → get_elem? xs i ≡ some p → i < length xs
within i [] h = cc
within zero (x ∷ xs) h = omega arith
within (suc i) (x ∷ xs) h = omega (arith, within i xs h)

-- What `migrate_process` does between two queues that exist and differ.
pub record Moves (rs out : List RunQueue) (from to : ℕ) (r : RunQueue) : Type 0 where
  pub left : RunQueue
  pub joined : RunQueue
  pub source : get_runqueue out from ≡ some left
  pub target : get_runqueue out to ≡ some joined
  pub shorter : load left + 1 ≡ load r
  pub same : (q : ℕ) → queued q out ≡ queued q rs

index_of_held :
    (i : ℕ) (xs : List ℕ) {p : ℕ} → get_elem? xs i ≡ some p → (j : ℕ) × (index_of xs p ≡ some j)
index_of_held i xs {p} h = elim (Option-cases (index_of xs p)) [
  | inr found ↦ found
  | inl missing ↦ absurd (omega (arith, index_of-none p xs missing, held_at i xs h))
]

migrate_found :
    (rs : List RunQueue) (p from to : ℕ) {r s : RunQueue}
    → from ≢ to
    → get_runqueue rs from ≡ some r
    → get_runqueue rs to ≡ some s
    → migrate_process rs p from to
      ≡ put_runqueue (join_queue p s) (put_runqueue (leave_queue p r) rs)
unfolding migrate_process
migrate_found rs p from to differ at_from at_to = ground arith

count-leave :
    (p q j : ℕ) (r : RunQueue)
    → index_of r.process_queue p ≡ some j
    → (leave_queue p r ≡ take_out j r)
      × (count q (take_out j r).process_queue + (if p == q then 1 else 0) ≡ count q r.process_queue)
      × (load (take_out j r) + 1 ≡ load r)
      × ((take_out j r).cpu_id ≡ r.cpu_id)
unfolding take_out
count-leave p q j r h =
    let at = index_of-some p q j r.process_queue h in
    (
      rw (leave_queue, h) refl,
      rw (erase_at-remove_at j r.process_queue at.0) at.1,
      length-erase_at j r.process_queue at.0,
      refl,
    )

migrate_process-Moves :
    (rs : List RunQueue) (p from to j : ℕ) {r s : RunQueue}
    → from ≢ to
    → get_runqueue rs from ≡ some r
    → get_runqueue rs to ≡ some s
    → index_of r.process_queue p ≡ some j
    → Moves rs (migrate_process rs p from to) from to r
migrate_process-Moves rs p from to j {r} {s} differ at_from at_to found =
    let left = take_out j r in
    let id_r = get_runqueue-cpu_id rs from at_from in
    let id_s = get_runqueue-cpu_id rs to at_to in
    let parts = λ (q : ℕ). count-leave p q j r found in
    let id_left : left.cpu_id ≡ from = (parts 0).3 ∙ id_r in
    let rs' = put_runqueue left rs in
    let here = subst (λ c. get_runqueue rs c ≡ some r) (sym id_left) at_from in
    let still : get_runqueue rs' to ≡ some s =
      get-put_other rs left to (ground (arith, id_left)) ∙ at_to in
    let there = subst (λ c. get_runqueue rs' c ≡ some s) (sym id_s) still in
    rw (migrate_found rs p from to differ at_from at_to, (parts 0).0)
      (record {
        left = left;
        joined = join_queue p s;
        source =
            get-put_other rs' (join_queue p s) from (ground (arith, id_s))
            ∙ subst (λ c. get_runqueue rs' c ≡ some left) id_left (get-put_same rs left here);
        target =
            subst (λ c. get_runqueue (put_runqueue (join_queue p s) rs') c ≡ some (join_queue p s))
              id_s (get-put_same rs' (join_queue p s) there);
        shorter = (parts 0).2;
        same = λ q. omega (
          arith,
          queued-put_runqueue q rs left here,
          queued-put_runqueue q rs' (join_queue p s) there,
          (parts q).1,
          count-push q p s.process_queue,
        );
      })

-- The loop returned, and the processes are those that were there.
abbrev pub Balanced : Option (List RunQueue) → List RunQueue → Type 0
Balanced result rs =
    (out : List RunQueue) × (result ≡ some out) × ((q : ℕ) → queued q out ≡ queued q rs)

unmoved : (rs : List RunQueue) → Balanced (some rs) rs
unmoved rs = (rs, refl, λ q. refl)

move_loop_ends :
    (f : ℕ) (t : Table) (from to i left : ℕ) (rs : List RunQueue) {r s : RunQueue}
    → from ≢ to
    → get_runqueue rs from ≡ some r
    → get_runqueue rs to ≡ some s
    → i ≤ load r
    → load r < i + f
    → Balanced (move_loop f t from to i left rs) rs
unfolding move_loop
move_loop_ends zero t from to i left rs {r} differ at_from at_to inside enough =
    absurd (omega arith)
move_loop_ends (suc f) t from to i zero rs {r} differ at_from at_to inside enough =
    elim (Option-cases (get_elem? r.process_queue i)) [
      | inl past ↦ rw (move_loop, at_from, past) (unmoved rs)
      | inr (p, here) ↦ rw (move_loop, at_from, here) (unmoved rs)
    ]
move_loop_ends (suc f) t from to i (suc n) rs {r} differ at_from at_to inside enough =
    elim (Option-cases (get_elem? r.process_queue i)) [
      | inl past ↦ rw (move_loop, at_from, past) (unmoved rs)
      | inr (p, here) ↦ elim (Bool-cases (can_migrate_process rs t p to)) [
        | inl y ↦
            rw (move_loop, at_from, here, y)
              (let place = index_of_held i r.process_queue here in
                let m = migrate_process-Moves rs p from to place.0 differ at_from at_to place.1 in
                let rest =
                  move_loop_ends f t from to i n (migrate_process rs p from to) differ m.source
                    m.target (omega (arith, m.shorter, within i r.process_queue here))
                    (omega (arith, m.shorter)) in
                (rest.0, rest.1, λ q. rest.2 q ∙ m.same q))
        | inr n' ↦
            rw (move_loop, at_from, here, n')
              (move_loop_ends f t from to (i + 1) (suc n) rs differ at_from at_to
                (omega (arith, within i r.process_queue here)) (omega arith))
      ]
    ]

all_at :
    (P : RunQueue → Type 0) (rs : List RunQueue) (cpu : ℕ) {r : RunQueue}
    → AllQueues P rs
    → get_runqueue rs cpu ≡ some r
    → P r
unfolding get_runqueue
all_at P [] cpu a h = cc
all_at P (x ∷ rs) cpu {r} a h = elim (Bool-cases (x.cpu_id == cpu)) [
  | inl y ↦ subst P (ground arith) a.0
  | inr n ↦ all_at P rs cpu a.1 (rw n at h)
]

abbrev first_guess : Extremes
first_guess = record { max_processes = 0; min_processes = size_max; max_cpu = 0; min_cpu = 0 }

-- Where the gap is more than one, the longest and the shortest queue are two queues.
extremes_differ :
    (rs : List RunQueue) (o : Extremes)
    → AreExtremes 0 rs first_guess o
    → AllQueues (λ x. load x < size_max) rs
    → 1 < (o.max_processes + u64_mod - o.min_processes) % u64_mod
    → o.max_cpu ≢ o.min_cpu
extremes_differ rs o a short gap same = elim (a.max_known) [
  | inl (m, _) ↦ elim (a.min_known) [
    | inl (n, _) ↦ omega (arith, m, n)
    | inr (s, found, _, e) ↦
        omega (arith, m, e, all_at (λ x. load x ≤ o.max_processes) rs o.min_cpu a.longest found)
  ]
  | inr (r, at, _, d) ↦ elim (a.min_known) [
    | inl (n, _) ↦ omega (
      arith,
      n,
      d,
      all_at (λ x. load x < size_max) rs o.max_cpu short at,
      all_at (λ x. o.min_processes ≤ load x) rs o.max_cpu a.shortest at,
    )
    | inr (s, found, _, e) ↦
        let one : r ≡ s = ground (arith, subst (λ c. get_runqueue rs c ≡ some r) same at) in
        omega (arith, d, e, ap load one)
  ]
]

-- With a queue for each processor, each shorter than the fuel, `load_balance` returns, and every
-- process stands in the queues as often as before.
pub load_balance-Balanced :
    (f : ℕ) (t : Table) (rs : List RunQueue)
    → IsNumbered 0 rs
    → AllQueues (λ x. load x < size_max) rs
    → AllQueues (λ x. load x < f) rs
    → Balanced (load_balance f t rs) rs
unfolding load_balance
load_balance-Balanced f t rs numbered short enough =
    let o = extremes rs first_guess in
    let gap = (o.max_processes + u64_mod - o.min_processes) % u64_mod in
    elim (Bool-cases (leb gap 1)) [
      | inl y ↦ rw y (unmoved rs)
      | inr n ↦ elim (Option-cases (get_runqueue rs o.max_cpu)) [
        | inl gone ↦ rw (n, gone) (unmoved rs)
        | inr (r, at) ↦ elim (Option-cases (get_runqueue rs o.min_cpu)) [
          | inl gone ↦ rw (n, at, gone) (unmoved rs)
          | inr (s, found) ↦
              rw (n, at, found)
                (move_loop_ends f t o.max_cpu o.min_cpu 0 (gap / 2) rs
                  (extremes_differ rs o (extremes-AreExtremes 0 rs first_guess numbered) short
                    (ground arith))
                  at found (omega arith)
                  (omega (arith, all_at (λ x. load x < f) rs o.max_cpu enough at)))
        ]
      ]
    ]
