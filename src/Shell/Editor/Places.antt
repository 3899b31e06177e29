-- ===== src/Shell/Editor/Places.antt =====
-- The row and the column of a position in a text: the independent description of what the cursor's
-- members should say.
use pocky.Common.{
  ℕ, zero, suc, ◌+◌, ◌<◌, ◌≤◌, ◌≡◌, refl, List, [], ◌∷◌, ◌++◌, length, get_or, take, if◌then◌else◌,
  ◌==◌, arith, Bool-cases, inl, inr,
}
use pocky.Shell.Editor.Lines.{newline, line_start, forward_start}

-- The number of newlines in the first `n` characters, counted on from `r`.
unfoldable pub row_at : ℕ → List ℕ → ℕ → ℕ
row_at r xs zero = r
row_at r [] (suc n) = r
row_at r (c ∷ cs) (suc n) = row_at (if c == newline then r + 1 else r) cs n

-- The number of characters since the last of them, counted on from `k`.
unfoldable pub col_at : ℕ → List ℕ → ℕ → ℕ
col_at k xs zero = k
col_at k [] (suc n) = k
col_at k (c ∷ cs) (suc n) = col_at (if c == newline then 0 else k + 1) cs n

pub row_at-suc :
    (r : ℕ) (xs : List ℕ) (n : ℕ)
    → n < length xs
    → row_at r xs (suc n) ≡ (if get_or xs n 0 == newline then row_at r xs n + 1 else row_at r xs n)
unfolding row_at
row_at-suc r [] n h = absurd (omega arith)
row_at-suc r (c ∷ cs) zero h = refl
row_at-suc r (c ∷ cs) (suc n) h = row_at-suc (if c == newline then r + 1 else r) cs n (omega arith)

pub col_at-suc :
    (k : ℕ) (xs : List ℕ) (n : ℕ)
    → n < length xs
    → col_at k xs (suc n) ≡ (if get_or xs n 0 == newline then 0 else col_at k xs n + 1)
unfolding col_at
col_at-suc k [] n h = absurd (omega arith)
col_at-suc k (c ∷ cs) zero h = refl
col_at-suc k (c ∷ cs) (suc n) h = col_at-suc (if c == newline then 0 else k + 1) cs n (omega arith)

-- What lies behind a position does not matter to it.
pub row_at_prefix :
    (r : ℕ) (xs ys : List ℕ) (n m : ℕ)
    → m ≤ n
    → n ≤ length xs
    → row_at r (take n xs ++ ys) m ≡ row_at r xs m
unfolding row_at
row_at_prefix r xs ys n zero h k = refl
row_at_prefix r xs ys zero (suc m) h k = absurd (omega arith)
row_at_prefix r [] ys (suc n) (suc m) h k = absurd (omega arith)
row_at_prefix r (c ∷ cs) ys (suc n) (suc m) h k =
    row_at_prefix (if c == newline then r + 1 else r) cs ys n m (omega arith) (omega arith)

pub col_at_prefix :
    (i : ℕ) (xs ys : List ℕ) (n m : ℕ)
    → m ≤ n
    → n ≤ length xs
    → col_at i (take n xs ++ ys) m ≡ col_at i xs m
unfolding col_at
col_at_prefix i xs ys n zero h k = refl
col_at_prefix i xs ys zero (suc m) h k = absurd (omega arith)
col_at_prefix i [] ys (suc n) (suc m) h k = absurd (omega arith)
col_at_prefix i (c ∷ cs) ys (suc n) (suc m) h k =
    col_at_prefix (if c == newline then 0 else i + 1) cs ys n m (omega arith) (omega arith)

pub length-take_append :
    (xs ys : List ℕ) (n : ℕ) → n ≤ length xs → length (take n xs ++ ys) ≡ n + length ys
length-take_append xs ys zero h = omega arith
length-take_append [] ys (suc n) h = absurd (omega arith)
length-take_append (x ∷ xs) ys (suc n) h = omega (arith, length-take_append xs ys n (omega arith))

pub get_or-take_append :
    (xs ys : List ℕ) (c n : ℕ) → n ≤ length xs → get_or (take n xs ++ (c ∷ ys)) n 0 ≡ c
get_or-take_append xs ys c zero h = refl
get_or-take_append [] ys c (suc n) h = absurd (omega arith)
get_or-take_append (x ∷ xs) ys c (suc n) h = get_or-take_append xs ys c n (omega arith)

pub row_at_grows : (r : ℕ) (xs : List ℕ) (n : ℕ) → r ≤ row_at r xs n
unfolding row_at
row_at_grows r xs zero = omega arith
row_at_grows r [] (suc n) = omega arith
row_at_grows r (c ∷ cs) (suc n) =
    ground (arith, row_at_grows (if c == newline then r + 1 else r) cs n)

pub row_at-le : (r : ℕ) (xs : List ℕ) (n : ℕ) → row_at r xs n ≤ r + n
unfolding row_at
row_at-le r xs zero = omega arith
row_at-le r [] (suc n) = omega arith
row_at-le r (c ∷ cs) (suc n) = elim (Bool-cases (c == newline)) [
  | inl e ↦ rw e (omega (arith, row_at-le (r + 1) cs n))
  | inr e ↦ rw e (omega (arith, row_at-le r cs n))
]

pub col_at-le : (k : ℕ) (xs : List ℕ) (n : ℕ) → col_at k xs n ≤ k + n
unfolding col_at
col_at-le k xs zero = omega arith
col_at-le k [] (suc n) = omega arith
col_at-le k (c ∷ cs) (suc n) = elim (Bool-cases (c == newline)) [
  | inl e ↦ rw e (omega (arith, col_at-le 0 cs n))
  | inr e ↦ rw e (omega (arith, col_at-le (k + 1) cs n))
]

-- No position is in a later row than the end.
pub row_at_end :
    (r : ℕ) (xs : List ℕ) (n : ℕ) → n ≤ length xs → row_at r xs n ≤ row_at r xs (length xs)
unfolding row_at
row_at_end r xs zero h = row_at_grows r xs (length xs)
row_at_end r [] (suc n) h = absurd (omega arith)
row_at_end r (c ∷ cs) (suc n) h = row_at_end (if c == newline then r + 1 else r) cs n (omega arith)

-- Both loops that look for the start of a line find it.
pub line_start-col_at : (xs : List ℕ) (n : ℕ) → n ≤ length xs → col_at 0 xs n + line_start xs n ≡ n
unfolding line_start col_at
line_start-col_at xs zero h = refl
line_start-col_at xs (suc n) h =
    ground (arith, col_at-suc 0 xs n, line_start-col_at xs n (omega arith))

pub forward_start-col_at :
    (xs : List ℕ) (n i start k : ℕ)
    → n ≤ length xs
    → start + k ≡ i
    → forward_start (take n xs) i start + col_at k xs n ≡ i + n
unfolding forward_start col_at
forward_start-col_at xs zero i start k h e = omega arith
forward_start-col_at [] (suc n) i start k h e = absurd (omega arith)
forward_start-col_at (c ∷ cs) (suc n) i start k h e =
    let rest =
      forward_start-col_at cs n (i + 1) (if c == newline then i + 1 else start)
        (if c == newline then 0 else k + 1) (omega arith) (ground arith) in
    omega (arith, rest)
