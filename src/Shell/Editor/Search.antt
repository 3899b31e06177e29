-- ===== src/Shell/Editor/Search.antt =====
-- The searches of the editor end at the row and the column they look for.
use pocky.Common.{
  ℕ, zero, suc, ◌+◌, ◌<◌, ◌≤◌, ◌≡◌, refl, false, ◌&&◌, List, [], ◌∷◌, length, get_or, drop,
  if◌then◌else◌, ltb, ◌==◌, arith, Bool-cases, inl, inr,
}
use pocky.Shell.Editor.Lines.{
  newline, no_line, run, line_from, get_line_length, seek, skip_rows, skip_selected,
}
use pocky.Shell.Editor.Places.{row_at, col_at, row_at_grows}

-- A search from a place in row `r` and column `k` has gone on `n` characters, to the place wanted.
pub record Reaches (r k : ℕ) (xs : List ℕ) (row col from to : ℕ) : Type 0 where
  pub steps : ℕ
  pub inside : steps ≤ length xs
  pub arrives : to ≡ from + steps
  pub at_row : row_at r xs steps ≡ row
  pub at_col : col_at k xs steps ≡ col

-- At the wanted place the search stops.
stop :
    (row col : ℕ) (xs : List ℕ) (pos : ℕ)
    → Reaches row col xs row col pos (seek row col xs pos row col)
unfolding seek row_at col_at
stop row col [] pos = record {
  steps = 0;
  inside = omega arith;
  arrives = omega arith;
  at_row = refl;
  at_col = refl;
}
stop row col (c ∷ cs) pos = record {
  steps = 0;
  inside = omega arith;
  arrives = ground arith;
  at_row = refl;
  at_col = refl;
}

-- One step on.
step :
    (r k row col : ℕ) (c : ℕ) (cs : List ℕ) (pos : ℕ)
    → (r == row) && (k == col) ≡ false
    → Reaches
        (if c == newline then r + 1 else r)
        (if c == newline then 0 else k + 1)
        cs
        row
        col
        (pos + 1)
        (seek row col cs
          (pos + 1)
          (if c == newline then r + 1 else r)
          (if c == newline then 0 else k + 1))
    → Reaches r k (c ∷ cs) row col pos (seek row col (c ∷ cs) pos r k)
unfolding seek row_at col_at
step r k row col c cs pos other next = record {
  steps = suc next.steps;
  inside = omega (arith, next.inside);
  arrives = rw other (omega (arith, next.arrives));
  at_row = next.at_row;
  at_col = next.at_col;
}

seek_in_row :
    (row k col : ℕ) (xs : List ℕ) (pos : ℕ)
    → k ≤ col
    → col ≤ k + run xs
    → Reaches row k xs row col pos (seek row col xs pos row k)
unfolding run
seek_in_row row k col [] pos h m = let q : k ≡ col = omega arith in rw q (stop row col [] pos)
seek_in_row row k col (c ∷ cs) pos h m = elim (Bool-cases (k == col)) [
  | inl e ↦ let q : k ≡ col = ground arith in rw q (stop row col (c ∷ cs) pos)
  | inr e ↦
      let inner : (c == newline) ≡ false = ground arith in
      step row k row col c cs pos (ground arith)
        (rw inner (seek_in_row row (k + 1) col cs (pos + 1) (ground arith) (ground arith)))
]

line_from_here :
    (row : ℕ) (xs : List ℕ)
    → (line_from row xs row == no_line) ≡ false
    → line_from row xs row ≡ run xs
unfolding line_from
line_from_here row [] there = absurd (ground arith)
line_from_here row (c ∷ cs) there = ground arith

line_from_below :
    (r row c : ℕ) (cs : List ℕ)
    → r < row
    → line_from row (c ∷ cs) r ≡ line_from row cs (if c == newline then r + 1 else r)
unfolding line_from
line_from_below r row c cs h = ground arith

seek_to_row :
    (r k row col : ℕ) (xs : List ℕ) (pos : ℕ)
    → r < row
    → (line_from row xs r == no_line) ≡ false
    → col ≤ line_from row xs r
    → Reaches r k xs row col pos (seek row col xs pos r k)
unfolding line_from
seek_to_row r k row col [] pos h there m = absurd (ground arith)
seek_to_row r k row col (c ∷ cs) pos h there m =
    let below = line_from_below r row c cs h in
    let known : (line_from row cs (if c == newline then r + 1 else r) == no_line) ≡ false =
      rw below at there in
    let bound : col ≤ line_from row cs (if c == newline then r + 1 else r) = rw below at m in
    step r k row col c cs pos (ground arith) (elim (Bool-cases (c == newline)) [
      | inr e ↦ rw e (seek_to_row r (k + 1) row col cs (pos + 1) h (rw e at known) (rw e at bound))
      | inl e ↦ rw e (elim (Bool-cases (r + 1 == row)) [
        | inr more ↦
            seek_to_row (r + 1) 0 row col cs (pos + 1) (ground arith) (rw e at known)
              (rw e at bound)
        | inl same ↦
            let q : r + 1 ≡ row = ground arith in
            let there' : (line_from row cs row == no_line) ≡ false = rw (e, q) at known in
            let bound' : col ≤ line_from row cs row = rw (e, q) at bound in
            rw q (
              seek_in_row row 0 col cs (pos + 1) (omega arith)
                (omega (arith, bound', line_from_here row cs there')))
      ])
    ])

-- `update_cursor_pos` finds every column of every line that `get_line_length` knows.
pub seek_line :
    (row col : ℕ) (xs : List ℕ)
    → (get_line_length xs row == no_line) ≡ false
    → col ≤ get_line_length xs row
    → Reaches 0 0 xs row col 0 (seek row col xs 0 0 0)
unfolding get_line_length line_from
seek_line zero col [] there m = absurd (ground arith)
seek_line zero col (c ∷ cs) there m = seek_in_row 0 0 col (c ∷ cs) 0 (omega arith) (omega arith)
seek_line (suc row) col xs there m = seek_to_row 0 0 (suc row) col xs 0 (omega arith) there m

-- What is left of a line behind a place in it.
rest_of_row :
    (row k : ℕ) (xs : List ℕ) (n : ℕ)
    → n ≤ length xs
    → row_at row xs n ≡ row
    → col_at k xs n + run (drop n xs) ≡ k + run xs
unfolding row_at col_at run
rest_of_row row k xs zero h e = refl
rest_of_row row k [] (suc n) h e = absurd (omega arith)
rest_of_row row k (c ∷ cs) (suc n) h e = elim (Bool-cases (c == newline)) [
  | inl nl ↦ absurd (omega (arith, rw nl at e, row_at_grows (row + 1) cs n))
  | inr inner ↦ rw inner (omega (arith, rest_of_row row (k + 1) cs n (omega arith) (rw inner at e)))
]

rest_of_later_row :
    (r k row : ℕ) (xs : List ℕ) (n : ℕ)
    → r < row
    → n ≤ length xs
    → row_at r xs n ≡ row
    → (line_from row xs r == no_line) ≡ false
    → col_at k xs n + run (drop n xs) ≡ line_from row xs r
unfolding row_at col_at
rest_of_later_row r k row xs zero lt h e there = absurd (omega arith)
rest_of_later_row r k row [] (suc n) lt h e there = absurd (omega arith)
rest_of_later_row r k row (c ∷ cs) (suc n) lt h e there =
    let below = line_from_below r row c cs lt in
    let known : (line_from row cs (if c == newline then r + 1 else r) == no_line) ≡ false =
      rw below at there in
    rw below (elim (Bool-cases (c == newline)) [
      | inr inner ↦ rw inner (
          rest_of_later_row r (k + 1) row cs n lt (omega arith) (rw inner at e) (rw inner at known))
      | inl nl ↦ rw nl (elim (Bool-cases (r + 1 == row)) [
        | inr more ↦
            rest_of_later_row (r + 1) 0 row cs n (ground arith) (omega arith) (rw nl at e)
              (rw nl at known)
        | inl same ↦
            let q : r + 1 ≡ row = ground arith in
            let there' : (line_from row cs row == no_line) ≡ false = rw (nl, q) at known in
            let e' : row_at row cs n ≡ row = rw (nl, q) at e in
            rw q
              (omega (arith, rest_of_row row 0 cs n (omega arith) e', line_from_here row cs there'))
      ])
    ])

rest_of_line :
    (row : ℕ) (xs : List ℕ) (n : ℕ)
    → n ≤ length xs
    → row_at 0 xs n ≡ row
    → (get_line_length xs row == no_line) ≡ false
    → col_at 0 xs n + run (drop n xs) ≡ get_line_length xs row
unfolding get_line_length
rest_of_line zero xs n h e there =
    omega (arith, rest_of_row 0 0 xs n h e, line_from_here 0 xs there)
rest_of_line (suc row) xs n h e there = rest_of_later_row 0 0 (suc row) xs n (omega arith) h e there

run_goes_on :
    (xs : List ℕ) (n : ℕ)
    → 0 < run (drop n xs)
    → (n < length xs) × ((get_or xs n 0 == newline) ≡ false)
unfolding run
run_goes_on [] zero h = absurd (omega arith)
run_goes_on [] (suc n) h = absurd (omega arith)
run_goes_on (c ∷ cs) zero h = (omega arith, ground arith)
run_goes_on (c ∷ cs) (suc n) h = let rest = run_goes_on cs n h in (omega (arith, rest.0), rest.1)

-- To the left of the end of a line that `get_line_length` knows, there is a character of the line.
pub before_line_end :
    (row : ℕ) (xs : List ℕ) (n : ℕ)
    → n ≤ length xs
    → row_at 0 xs n ≡ row
    → (get_line_length xs row == no_line) ≡ false
    → col_at 0 xs n < get_line_length xs row
    → (n < length xs) × ((get_or xs n 0 == newline) ≡ false)
before_line_end row xs n h e there lt =
    run_goes_on xs n (omega (arith, rest_of_line row xs n h e there))

-- The first loop of the visual `s` finds the start of a row that the text has.
pub skip_rows-Reaches :
    (row r k : ℕ) (xs : List ℕ) (pos : ℕ)
    → r ≤ row
    → row ≤ row_at r xs (length xs)
    → (r ≡ row → k ≡ 0)
    → Reaches r k xs row 0 pos (skip_rows row xs pos r)
unfolding skip_rows row_at col_at
skip_rows-Reaches row r k [] pos low high fresh =
    let q : r ≡ row = omega arith in
    record { steps = 0; inside = omega arith; arrives = omega arith; at_row = q; at_col = fresh q }
skip_rows-Reaches row r k (c ∷ cs) pos low high fresh = elim (Bool-cases (ltb r row)) [
  | inr here ↦
      let q : r ≡ row = ground arith in
      record {
        steps = 0;
        inside = omega arith;
        arrives = ground arith;
        at_row = q;
        at_col = fresh q;
      }
  | inl before ↦
      let next =
        skip_rows-Reaches row (if c == newline then r + 1 else r)
          (if c == newline then 0 else k + 1) cs (pos + 1) (ground arith) high
          (λ e. ground arith) in
      record {
        steps = suc next.steps;
        inside = omega (arith, next.inside);
        arrives = rw before (omega (arith, next.arrives));
        at_row = next.at_row;
        at_col = next.at_col;
      }
]

-- The second loop stays between where it starts and the end of the text.
pub skip_selected_between :
    (end_row r : ℕ) (xs : List ℕ) (pos : ℕ)
    → (pos ≤ skip_selected end_row xs pos r) × (skip_selected end_row xs pos r ≤ pos + length xs)
unfolding skip_selected
skip_selected_between end_row r [] pos = (omega arith, omega arith)
skip_selected_between end_row r (c ∷ cs) pos =
    let next = skip_selected_between end_row (if c == newline then r + 1 else r) cs (pos + 1) in
    (ground (arith, next.0), ground (arith, next.1))
