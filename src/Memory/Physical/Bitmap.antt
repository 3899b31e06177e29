-- ===== src/Memory/Physical/Bitmap.antt =====
-- The bitmap as a set of frames: what marking and unmarking one frame does to all others, and to
-- the number of clear frames.
use native.Mathlib.Nat.{pow-suc}
use pocky.Common.{
  ℕ, zero, suc, ◌+◌, ◌*◌, ◌/◌, ◌%◌, ◌^◌, ◌<◌, ◌≤◌, ◌≡◌, refl, true, false, not, ◌&&◌, ◌||◌, bit_and,
  bit_or, List, if◌then◌else◌, ltb, ◌==◌, get_or, set, length, arith, get_or-set_self,
  get_or-set_ne, length-set, inl, inr, Bool-cases,
}
use pocky.Common.Bits.{
  bit, bit-lt-two, bit_and-pow, bit-bit_and, bit-bit_or, bit-pow, bit-not_pow32, not_pow32,
}
use pocky.Memory.Physical.{is_used, mark, unmark}

pub pow_pos : (k : ℕ) → 0 < 2 ^ k
pow_pos zero = omega arith
pow_pos (suc k) = omega (arith, pow_pos k, pow-suc 2 k)

pub digit_test : (b m : ℕ) → b < 2 → 0 < m → not (b * m == 0) ≡ (b == 1)
digit_test zero m h p = ground arith
digit_test (suc zero) m h p = ground arith
digit_test (suc (suc b)) m h p = absurd (omega arith)

-- The test of the code reads one digit of the word.
pub is_used-bit : (bm : List ℕ) (i : ℕ) → is_used bm i ≡ (bit (get_or bm (i / 32) 0) (i % 32) == 1)
unfolding is_used
is_used-bit bm i =
    rw (bit_and-pow (get_or bm (i / 32) 0) (i % 32))
      (digit_test _ _ (bit-lt-two (get_or bm (i / 32) 0) (i % 32)) (pow_pos (i % 32)))

get_or-set :
    (xs : List ℕ) (a c v : ℕ)
    → a < length xs
    → get_or (set xs a v) c 0 ≡ (if a == c then v else get_or xs c 0)
get_or-set xs a c v h = elim (Bool-cases (a == c)) [
  | inl e ↦ let p : a ≡ c = ground arith in rw (e, ← p) (get_or-set_self xs a v 0 h)
  | inr e ↦ rw e (get_or-set_ne xs a c v 0 (ground arith))
]

pub length-mark : (bm : List ℕ) (i : ℕ) → length (mark bm i) ≡ length bm
unfolding mark
length-mark bm i = length-set bm _ _

pub length-unmark : (bm : List ℕ) (i : ℕ) → length (unmark bm i) ≡ length bm
unfolding unmark
length-unmark bm i = length-set bm _ _

pub is_used-mark :
    (bm : List ℕ) (i j : ℕ)
    → i < 32 * length bm
    → is_used (mark bm i) j ≡ ((i == j) || is_used bm j)
unfolding mark
is_used-mark bm i j h =
    let w = get_or bm (i / 32) 0 in
    let k = i % 32 in
    ground (
      arith,
      is_used-bit bm j,
      is_used-bit (set bm (i / 32) (bit_or w (2 ^ k))) j,
      get_or-set bm (i / 32) (j / 32) (bit_or w (2 ^ k)),
      bit-bit_or w (2 ^ k) (j % 32),
      bit-pow k (j % 32),
      bit-lt-two w (j % 32),
    )

pub is_used-unmark :
    (bm : List ℕ) (i j : ℕ)
    → i < 32 * length bm
    → is_used (unmark bm i) j ≡ (not (i == j) && is_used bm j)
unfolding unmark
is_used-unmark bm i j h =
    let w = get_or bm (i / 32) 0 in
    let k = i % 32 in
    ground (
      arith,
      is_used-bit bm j,
      is_used-bit (set bm (i / 32) (bit_and w (not_pow32 k))) j,
      get_or-set bm (i / 32) (j / 32) (bit_and w (not_pow32 k)),
      bit-bit_and w (not_pow32 k) (j % 32),
      bit-not_pow32 k (j % 32),
      bit-lt-two w (j % 32),
    )

-- The number of clear frames below `n`.
unfoldable pub free_below : List ℕ → ℕ → ℕ
free_below bm zero = 0
free_below bm (suc n) = (if is_used bm n then 0 else 1) + free_below bm n

pub free_below-le : (bm : List ℕ) (n : ℕ) → free_below bm n ≤ n
unfolding free_below
free_below-le bm zero = omega arith
free_below-le bm (suc n) = ground (arith, free_below-le bm n)

-- Two bitmaps that agree below `n` but for frame `i`, which only the second holds as used.
pub free_below-except :
    (bm bm' : List ℕ) (i n : ℕ)
    → ((j : ℕ) → is_used bm' j ≡ ((i == j) || is_used bm j))
    → is_used bm i ≡ false
    → free_below bm n ≡ free_below bm' n + (if ltb i n then 1 else 0)
unfolding free_below
free_below-except bm bm' i zero h e = ground arith
free_below-except bm bm' i (suc n) h e = ground (arith, h n, free_below-except bm bm' i n h e)

-- Marking a clear frame takes one from the count, and unmarking a used one gives it back.
pub free_below-mark :
    (bm : List ℕ) (i n : ℕ)
    → i < 32 * length bm
    → i < n
    → is_used bm i ≡ false
    → free_below bm n ≡ free_below (mark bm i) n + 1
free_below-mark bm i n h lt e =
    ground (arith, free_below-except bm (mark bm i) i n (λ j. is_used-mark bm i j h) e)

pub free_below-unmark :
    (bm : List ℕ) (i n : ℕ)
    → i < 32 * length bm
    → i < n
    → is_used bm i ≡ true
    → free_below (unmark bm i) n ≡ free_below bm n + 1
free_below-unmark bm i n h lt e = ground (
  arith,
  free_below-except (unmark bm i) bm i n (λ j. ground (arith, is_used-unmark bm i j))
      (ground (arith, is_used-unmark bm i i)),
)

pub free_below-all :
    (bm : List ℕ) (n : ℕ) → ((j : ℕ) → j < n → is_used bm j ≡ false) → free_below bm n ≡ n
unfolding free_below
free_below-all bm zero h = refl
free_below-all bm (suc n) h =
    ground (arith, h n (omega arith), free_below-all bm n (λ j p. h j (omega arith)))

pub free_below-none :
    (bm : List ℕ) (n : ℕ) → ((j : ℕ) → j < n → is_used bm j ≡ true) → free_below bm n ≡ 0
unfolding free_below
free_below-none bm zero h = refl
free_below-none bm (suc n) h =
    ground (arith, h n (omega arith), free_below-none bm n (λ j p. h j (omega arith)))
