-- ===== src/Core/Scheduler/Select.antt =====
-- The two selection loops: round robin takes the next ready process in turn, and the priority policy
-- the first of the most urgent.
use native.Mathlib.Nat.{mod-eq_of_lt, mod-eq-sub-mod}
use pocky.Common.{
  ℕ, zero, suc, ◌+◌, ◌-◌, ◌%◌, ◌<◌, ◌≤◌, ◌≡◌, refl, ap, ◌∙◌, ◌≢◌, ◌⊎◌, inl, inr, true, false, ◌&&◌,
  Option, none, some, List, [], ◌∷◌, length, get_elem?, if◌then◌else◌, ltb, ◌==◌, arith, Bool-cases,
  Option-cases,
}
use pocky.Core.Process.{Table, is_ready}
use pocky.Core.Scheduler.{RunQueue, SchedulerPolicy, ready_at, rotate, highest, select_next_process}

-- Position `x` on a ring of `n`, once round at most.
abbrev pub around : ℕ → ℕ → ℕ
around n x = if ltb x n then x else x - n

around_next : (n x : ℕ) → x < n + n → suc x ≤ n + n - 1 → (around n x + 1) % n ≡ around n (x + 1)
around_next n x h k = elim (Bool-cases (ltb (x + 1) n)) [
  | inl low ↦ ground (arith, mod-eq_of_lt {n = x + 1} {m = n} (ground arith))
  | inr high ↦ elim (Bool-cases (x + 1 == n)) [
    | inl end ↦ ground (
      arith,
      mod-eq-sub-mod {n = x + 1} {m = n} (ground arith),
      mod-eq_of_lt {n = 0} {m = n} (omega arith),
    )
    | inr past ↦ ground (arith, mod-eq_of_lt {n = x - n + 1} {m = n} (ground arith))
  ]
]

-- The process that was selected stands at the first ready place after `start`, going round.
pub record IsNext (t : Table) (queue : List ℕ) (start i p : ℕ) : Type 0 where
  pub steps : ℕ
  pub in_turn : steps < length queue
  pub place : i ≡ around (length queue) (start + steps + 1)
  pub chosen : ready_at t queue i ≡ some p
  pub passed : (e : ℕ) → e < steps → ready_at t queue (around (length queue) (start + e + 1)) ≡ none

-- How the loop ends.
abbrev pub Rotates : Table → List ℕ → ℕ → Option (ℕ × Option ℕ) → Type 0
Rotates t queue start r =
    ((i : ℕ) × (p : ℕ) × (r ≡ some (i, some p)) × IsNext t queue start i p)
    ⊎ ((r ≡ some (start, none))
        × ((e : ℕ)
            → e < length queue
            → ready_at t queue (around (length queue) (start + e + 1)) ≡ none))

extend_none :
    (P : ℕ → Option ℕ) (k e : ℕ)
    → ((e : ℕ) → e < k → P e ≡ none)
    → P k ≡ none
    → e < suc k
    → P e ≡ none
extend_none P k e below here h = elim (Bool-cases (e == k)) [
  | inl same ↦ let q : e ≡ k = ground arith in rw q here
  | inr less ↦ below e (ground arith)
]

-- One round, once the next index is known.
land : ℕ → Table → List ℕ → ℕ → ℕ → Option (ℕ × Option ℕ)
land f t queue start next = elim (ready_at t queue next) [
  | some p ↦ some (next, some p)
  | none ↦ if next == start then some (next, none) else rotate f t queue start next
]

rotate-land :
    (f : ℕ) (t : Table) (queue : List ℕ) (start index : ℕ)
    → rotate (suc f) t queue start index ≡ land f t queue start ((index + 1) % length queue)
unfolding rotate land
rotate-land f t queue start index = refl

land_hit :
    (f : ℕ) (t : Table) (queue : List ℕ) (start next p : ℕ)
    → ready_at t queue next ≡ some p
    → land f t queue start next ≡ some (next, some p)
unfolding land
land_hit f t queue start next p hit = ground arith

land_home :
    (f : ℕ) (t : Table) (queue : List ℕ) (start next : ℕ)
    → ready_at t queue next ≡ none
    → next ≡ start
    → land f t queue start next ≡ some (start, none)
unfolding land
land_home f t queue start next miss home = ground arith

land_on :
    (f : ℕ) (t : Table) (queue : List ℕ) (start next : ℕ)
    → ready_at t queue next ≡ none
    → next ≢ start
    → land f t queue start next ≡ rotate f t queue start next
unfolding land
land_on f t queue start next miss away = ground arith

rotate_from :
    (t : Table) (queue : List ℕ) (start f k index : ℕ)
    → start < length queue
    → k < length queue
    → length queue ≤ k + f
    → index ≡ around (length queue) (start + k)
    → ((e : ℕ) → e < k → ready_at t queue (around (length queue) (start + e + 1)) ≡ none)
    → Rotates t queue start (rotate f t queue start index)
rotate_from t queue start zero k index hs hk enough at passed = absurd (omega arith)
rotate_from t queue start (suc f) k index hs hk enough at passed =
    let n : ℕ = length queue in
    let j : ℕ = around n (start + k + 1) in
    let next : (index + 1) % n ≡ j =
      rw at (around_next n (start + k) (omega arith) (omega arith)) in
    rw (rotate-land f t queue start index, next)
      (elim (Option-cases (ready_at t queue j)) [
        | inr (p, hit) ↦ inl (
          j,
          p,
          land_hit f t queue start j p hit,
          record { steps = k; in_turn = hk; place = refl; chosen = hit; passed = passed },
        )
        | inl miss ↦
            let longer = λ (e : ℕ) (h : e < suc k).
              extend_none (λ d. ready_at t queue (around n (start + d + 1))) k e passed miss h in
            elim (Bool-cases (suc k == n)) [
              | inl last ↦
                  inr (
                    land_home f t queue start j miss (ground arith),
                    λ e h. longer e (ground arith),
                  )
              | inr more ↦ rw (land_on f t queue start j miss (ground arith)) (
                  rotate_from t queue start f (suc k) j hs (ground arith) (omega arith)
                    (ap (around n) (omega arith)) longer)
            ]
      ])

-- Every place is met on the way round.
nobody_ready :
    (t : Table) (queue : List ℕ) (start i : ℕ)
    → start < length queue
    → i < length queue
    → ((e : ℕ) → e < length queue → ready_at t queue (around (length queue) (start + e + 1)) ≡ none)
    → ready_at t queue i ≡ none
nobody_ready t queue start i hs hi passed = elim (Bool-cases (ltb start i)) [
  | inl behind ↦
      let e : ℕ = i - start - 1 in
      let here : around (length queue) (start + e + 1) ≡ i = ground arith in
      rw here at (passed e (ground arith))
  | inr before ↦
      let e : ℕ = i + length queue - start - 1 in
      let here : around (length queue) (start + e + 1) ≡ i = ground arith in
      rw here at (passed e (ground arith))
]

-- With as much fuel as the queue is long and an index inside the queue, the round robin policy
-- ends. It selects the first ready process behind the current index, going round, and moves the
-- index to it; it selects none only where no process of the queue is ready, and then leaves the
-- queue as it is.
pub select_round_robin :
    (fuel : ℕ) (t : Table) (r : RunQueue)
    → r.current_index < length r.process_queue
    → length r.process_queue ≤ fuel
    → ((i : ℕ) × (p : ℕ) × (select_next_process fuel SchedulerPolicy.round_robin t r
          ≡ some (record r { current_index = i }, some p))
        × IsNext t r.process_queue r.current_index i p)
      ⊎ ((select_next_process fuel SchedulerPolicy.round_robin t r ≡ some (r, none))
          × ((i : ℕ) → i < length r.process_queue → ready_at t r.process_queue i ≡ none))
unfolding select_next_process
select_round_robin fuel t r inside enough =
    let some_length : (length r.process_queue == 0) ≡ false = ground arith in
    let at : r.current_index ≡ around (length r.process_queue) (r.current_index + 0) =
      ground arith in
    elim (rotate_from t r.process_queue r.current_index fuel 0 r.current_index inside (omega arith)
      (omega arith) at (λ e h. absurd (omega arith))) [
        | inl (i, p, run, next) ↦ inl (i, p, ground (arith, run), next)
        | inr (run, passed) ↦ inr (
          ground (arith, run),
          λ i h. nobody_ready t r.process_queue r.current_index i inside h passed,
        )
      ]

-- No ready process of the list is more urgent than `best`.
abbrev pub NoneAbove : Table → ℕ → List ℕ → Type 0
NoneAbove t best [] = Unit {0}
NoneAbove t best (q ∷ qs) =
    (is_ready (t q).state ≡ true → (t q).priority ≤ best) × NoneAbove t best qs

NoneAbove-mono : (t : Table) (a b : ℕ) (qs : List ℕ) → a ≤ b → NoneAbove t a qs → NoneAbove t b qs
NoneAbove-mono t a b [] h n = tt
NoneAbove-mono t a b (q ∷ qs) h n =
    (λ y. let k = n.0 y in omega arith, NoneAbove-mono t a b qs h n.1)

-- A process of the list that is ready, more urgent than `best`, and as urgent as any ready one.
pub record IsBest (t : Table) (queue : List ℕ) (best i p : ℕ) : Type 0 where
  pub place : get_elem? queue i ≡ some p
  pub ready : is_ready (t p).state ≡ true
  pub above : best < (t p).priority
  pub top : NoneAbove t (t p).priority queue

highest_from :
    (t : Table) (queue : List ℕ) (i best : ℕ) (selected : Option (ℕ × ℕ))
    → ((highest t queue i best selected ≡ selected) × NoneAbove t best queue)
      ⊎ ((j : ℕ) × (p : ℕ) × (highest t queue i best selected ≡ some (i + j, p))
          × IsBest t queue best j p)
unfolding highest
highest_from t [] i best selected = inl (refl, tt)
highest_from t (q ∷ qs) i best selected =
    elim (Bool-cases (is_ready (t q).state && ltb best (t q).priority)) [
      | inl better ↦ rw better (elim (highest_from t qs (i + 1) (t q).priority (some (i, q))) [
        | inl (run, none_above) ↦ inr (
          0,
          q,
          run ∙ ap (λ k. some (k, q)) (omega arith),
          record {
            place = refl;
            ready = ground arith;
            above = ground arith;
            top = (λ y. omega arith, none_above);
          },
        )
        | inr (j, p, run, b) ↦ inr (
          suc j,
          p,
          run ∙ ap (λ k. some (k, p)) (omega arith),
          record {
            place = b.place;
            ready = b.ready;
            above = ground (arith, b.above);
            top = (λ y. omega (arith, b.above), b.top);
          },
        )
      ])
      | inr worse ↦ rw worse (elim (highest_from t qs (i + 1) best selected) [
        | inl (run, none_above) ↦ inl (run, (λ y. ground arith, none_above))
        | inr (j, p, run, b) ↦ inr (
          suc j,
          p,
          run ∙ ap (λ k. some (k, p)) (omega arith),
          record {
            place = b.place;
            ready = b.ready;
            above = b.above;
            top = (λ y. ground (arith, b.above), b.top);
          },
        )
      ])
    ]

-- The priority policy selects a ready process of the greatest priority and moves the index to it.
-- It selects none exactly where every ready process has priority 0.
pub select_by_priority :
    (fuel : ℕ) (t : Table) (r : RunQueue)
    → ((i : ℕ) × (p : ℕ) × (select_next_process fuel SchedulerPolicy.by_priority t r
          ≡ some (record r { current_index = i }, some p))
        × IsBest t r.process_queue 0 i p)
      ⊎ ((select_next_process fuel SchedulerPolicy.by_priority t r ≡ some (r, none))
          × NoneAbove t 0 r.process_queue)
unfolding select_next_process
select_by_priority fuel t r = elim (highest_from t r.process_queue 0 0 none) [
  | inl (run, none_above) ↦ inr (ground (arith, run), none_above)
  | inr (j, p, run, b) ↦
      let at : 0 + j ≡ j = omega arith in inl (j, p, ground (arith, rw at at run), b)
]
