-- ===== src/Memory/Physical/Scan.antt =====
-- The search loop of `allocate_frame`: it finds the lowest clear frame, and fails only when there
-- is none.
use pocky.Common.{
  ℕ, zero, suc, ◌+◌, ◌<◌, ◌≤◌, ◌==◌, ◌≡◌, refl, ◌⊎◌, inl, inr, true, false, none, some, List, arith,
  Bool-cases,
}
use pocky.Memory.Physical.{is_used, scan}
use pocky.Memory.Physical.Bitmap.{free_below, free_below-none}

-- Frame `i` is the first clear one at or after `from`, and lies below `bound`.
pub record IsFirstClear (bm : List ℕ) (from bound i : ℕ) : Type 0 where
  pub after : from ≤ i
  pub before : i < bound
  pub clear : is_used bm i ≡ false
  pub lowest : (j : ℕ) → from ≤ j → j < i → is_used bm j ≡ true

from_next :
    (bm : List ℕ) (from j : ℕ)
    → is_used bm from ≡ true
    → from ≤ j
    → (from + 1 ≤ j → is_used bm j ≡ true)
    → is_used bm j ≡ true
from_next bm from j used p later = elim (Bool-cases (from == j)) [
  | inl e ↦ let same : from ≡ j = ground arith in rw (← same) used
  | inr e ↦ later (ground arith)
]

-- The search ends at the first clear frame, or there is none up to the bound.
pub scan_cases :
    (bm : List ℕ) (n from bound : ℕ)
    → from + n ≡ bound
    → ((i : ℕ) × (scan bm n from ≡ some i) × IsFirstClear bm from bound i)
      ⊎ ((scan bm n from ≡ none) × ((j : ℕ) → from ≤ j → j < bound → is_used bm j ≡ true))
unfolding scan
scan_cases bm zero from bound e = inr (refl, λ j p q. absurd (omega arith))
scan_cases bm (suc n) from bound e = elim (Bool-cases (is_used bm from)) [
  | inr clear ↦ inl (
    from,
    ground arith,
    record {
      after = omega arith;
      before = omega arith;
      clear = clear;
      lowest = λ j p q. absurd (omega arith);
    },
  )
  | inl used ↦ elim (scan_cases bm n (from + 1) bound (omega arith)) [
    | inl (i, found, first) ↦ inl (
      i,
      ground arith,
      record {
        after = omega (arith, first.after);
        before = first.before;
        clear = first.clear;
        lowest = λ j p q. from_next bm from j used p (λ r. first.lowest j r q);
      },
    )
    | inr (missing, all) ↦ inr (ground arith, λ j p q. from_next bm from j used p (λ r. all j r q))
  ]
]

pub scan_free :
    (bm : List ℕ) (n : ℕ)
    → 0 < free_below bm n
    → (i : ℕ) × (scan bm n 0 ≡ some i) × IsFirstClear bm 0 n i
scan_free bm n h = elim (scan_cases bm n 0 n (omega arith)) [
  | inl found ↦ found
  | inr (missing, all) ↦ absurd (omega (arith, free_below-none bm n (λ j p. all j (omega arith) p)))
]
