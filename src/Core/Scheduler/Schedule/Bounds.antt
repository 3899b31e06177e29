-- ===== src/Core/Scheduler/Schedule/Bounds.antt =====
-- The first loop of `load_balance`: a longest and a shortest queue.
use pocky.Common.{
  ℕ, ◌+◌, ◌<◌, ◌≤◌, ◌≡◌, refl, sym, subst, ◌∙◌, ◌⊎◌, inl, inr, some, List, [], ◌∷◌, ltb, arith,
  Bool-cases,
}
use pocky.Core.Scheduler.{RunQueue, get_runqueue}
use pocky.Core.Scheduler.Schedule.{widen, Extremes, extremes}
use pocky.Core.Scheduler.Queues.{
  get_runqueue_first, get_runqueue_later, IsNumbered, AllQueues, load,
}

widen_max :
    (x : RunQueue) (e : Extremes)
    → (((widen x e).max_processes ≡ e.max_processes)
        × ((widen x e).max_cpu ≡ e.max_cpu)
        × (load x ≤ e.max_processes))
      ⊎ (((widen x e).max_processes ≡ load x)
          × ((widen x e).max_cpu ≡ x.cpu_id)
          × (e.max_processes < load x))
widen_max x e = elim (Bool-cases (ltb e.max_processes (load x))) [
  | inl y ↦ inr (rw y (ground arith), rw y (ground arith), ground arith)
  | inr n ↦ inl (rw n (ground arith), rw n (ground arith), ground arith)
]

widen_min :
    (x : RunQueue) (e : Extremes)
    → (((widen x e).min_processes ≡ e.min_processes)
        × ((widen x e).min_cpu ≡ e.min_cpu)
        × (e.min_processes ≤ load x))
      ⊎ (((widen x e).min_processes ≡ load x)
          × ((widen x e).min_cpu ≡ x.cpu_id)
          × (load x < e.min_processes))
widen_min x e = elim (Bool-cases (ltb e.max_processes (load x))) [
  | inl y ↦ elim (Bool-cases (ltb (load x) e.min_processes)) [
    | inl z ↦ inr (rw (y, z) refl, rw (y, z) refl, ground arith)
    | inr z ↦ inl (rw (y, z) refl, rw (y, z) refl, ground arith)
  ]
  | inr n ↦ elim (Bool-cases (ltb (load x) e.min_processes)) [
    | inl z ↦ inr (rw (n, z) refl, rw (n, z) refl, ground arith)
    | inr z ↦ inl (rw (n, z) refl, rw (n, z) refl, ground arith)
  ]
]

-- Where an extreme of the result comes from: nowhere, so that the first guess stays, or a queue.
abbrev Known : ℕ → List RunQueue → ℕ → ℕ → ℕ → ℕ → Type 0
Known k rs n cpu n0 cpu0 =
    ((n ≡ n0) × (cpu ≡ cpu0))
    ⊎ ((r : RunQueue) × (get_runqueue rs cpu ≡ some r) × (k ≤ cpu) × (load r ≡ n))

Known-step :
    (k : ℕ) (x : RunQueue) (rs : List RunQueue) (n cpu n0 cpu0 n1 cpu1 : ℕ)
    → x.cpu_id ≡ k
    → ((n1 ≡ n0) × (cpu1 ≡ cpu0)) ⊎ ((n1 ≡ load x) × (cpu1 ≡ x.cpu_id))
    → Known (k + 1) rs n cpu n1 cpu1
    → Known k (x ∷ rs) n cpu n0 cpu0
Known-step k x rs n cpu n0 cpu0 n1 cpu1 id first (inr (r, found, far, e)) =
    inr (r, get_runqueue_later x rs cpu (omega arith) ∙ found, omega arith, e)
Known-step k x rs n cpu n0 cpu0 n1 cpu1 id (inl (a, b)) (inl (c, d)) = inl (c ∙ a, d ∙ b)
Known-step k x rs n cpu n0 cpu0 n1 cpu1 id (inr (a, b)) (inl (c, d)) = inr (
  x,
  subst (λ i. get_runqueue (x ∷ rs) i ≡ some x) (sym (d ∙ b)) (get_runqueue_first x rs),
  omega arith,
  sym (c ∙ a),
)

-- The extremes bound the lengths of all queues, and each is the first guess or that of a queue.
pub record AreExtremes (k : ℕ) (rs : List RunQueue) (e o : Extremes) : Type 0 where
  pub longest : AllQueues (λ x. load x ≤ o.max_processes) rs
  pub shortest : AllQueues (λ x. o.min_processes ≤ load x) rs
  pub grows : e.max_processes ≤ o.max_processes
  pub shrinks : o.min_processes ≤ e.min_processes
  pub max_known : Known k rs o.max_processes o.max_cpu e.max_processes e.max_cpu
  pub min_known : Known k rs o.min_processes o.min_cpu e.min_processes e.min_cpu

pub extremes-AreExtremes :
    (k : ℕ) (rs : List RunQueue) (e : Extremes)
    → IsNumbered k rs
    → AreExtremes k rs e (extremes rs e)
unfolding extremes
extremes-AreExtremes k [] e h = record {
  longest = tt;
  shortest = tt;
  grows = omega arith;
  shrinks = omega arith;
  max_known = inl (refl, refl);
  min_known = inl (refl, refl);
}
extremes-AreExtremes k (x ∷ rs) e h =
    let rest = extremes-AreExtremes (k + 1) rs (widen x e) h.1 in
    let o = extremes rs (widen x e) in
    let up : (load x ≤ (widen x e).max_processes) × (e.max_processes ≤ (widen x e).max_processes) =
      elim (widen_max x e) [
        | inl (a, _, b) ↦ (omega arith, omega arith)
        | inr (a, _, b) ↦ (omega arith, omega arith)
      ] in
    let down : ((widen x e).min_processes ≤ load x)
        × ((widen x e).min_processes ≤ e.min_processes) =
      elim (widen_min x e) [
        | inl (a, _, b) ↦ (omega arith, omega arith)
        | inr (a, _, b) ↦ (omega arith, omega arith)
      ] in
    record {
      longest = (omega (arith, up.0, rest.grows), rest.longest);
      shortest = (omega (arith, down.0, rest.shrinks), rest.shortest);
      grows = omega (arith, up.1, rest.grows);
      shrinks = omega (arith, down.1, rest.shrinks);
      max_known =
          Known-step k x rs _ _ _ _ _ _ h.0
            (elim (widen_max x e) [ inl (a, b, _) ↦ inl (a, b) | inr (a, b, _) ↦ inr (a, b) ])
            rest.max_known;
      min_known =
          Known-step k x rs _ _ _ _ _ _ h.0
            (elim (widen_min x e) [ inl (a, b, _) ↦ inl (a, b) | inr (a, b, _) ↦ inr (a, b) ])
            rest.min_known;
    }
