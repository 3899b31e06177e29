-- ===== src/Shell/Terminal/Bounds.antt =====
-- The cursor of kernel/src/shell/terminal.cpp stays on the screen, and the screen keeps its size.
use pocky.Common.{
  ℕ, zero, suc, ◌+◌, ◌-◌, ◌*◌, ◌%◌, ◌<◌, ◌≡◌, refl, ◌∙◌, inl, inr, List, [], ◌∷◌, length,
  length-set, get_or, set, ◌==◌, arith, Bool-cases,
}
use pocky.Shell.Terminal.{
  Terminal, vga_width, vga_height, vga_entry, copy_row, copy_rows, clear_cells, scroll, blank,
  next_row, update_cursor, put, terminal_putchar_at, terminal_putchar, terminal_write,
}

pub record IsOnScreen (t : Terminal) : Type 0 where
  pub row_inside : t.row < vga_height
  pub column_inside : t.column < vga_width
  pub size : length t.memory ≡ vga_height * vga_width

length-copy_row : (n y x : ℕ) (m : List ℕ) → length (copy_row n y x m) ≡ length m
unfolding copy_row
length-copy_row zero y x m = refl
length-copy_row (suc n) y x m =
    length-copy_row n y (x + 1) (set m (y * vga_width + x) (get_or m ((y + 1) * vga_width + x) 0))
    ∙ length-set m (y * vga_width + x) (get_or m ((y + 1) * vga_width + x) 0)

length-copy_rows : (n y : ℕ) (m : List ℕ) → length (copy_rows n y m) ≡ length m
unfolding copy_rows
length-copy_rows zero y m = refl
length-copy_rows (suc n) y m =
    length-copy_rows n (y + 1) (copy_row vga_width y 0 m) ∙ length-copy_row vga_width y 0 m

length-clear_cells : (n at entry : ℕ) (m : List ℕ) → length (clear_cells n at entry m) ≡ length m
unfolding clear_cells
length-clear_cells zero at entry m = refl
length-clear_cells (suc n) at entry m =
    length-clear_cells n (at + 1) entry (set m at entry) ∙ length-set m at entry

length-scroll : (m : List ℕ) → length (scroll m) ≡ length m
unfolding scroll
length-scroll m =
    length-clear_cells vga_width ((vga_height - 1) * vga_width) blank
      (copy_rows (vga_height - 1) 0 m)
    ∙ length-copy_rows (vga_height - 1) 0 m

next_row-IsOnScreen :
    (t : Terminal)
    → t.row < vga_height
    → length t.memory ≡ vga_height * vga_width
    → IsOnScreen (next_row t)
unfolding next_row
next_row-IsOnScreen t h s = elim (Bool-cases (t.row + 1 == vga_height)) [
  | inl y ↦ rw y (record {
    row_inside = omega arith;
    column_inside = omega arith;
    size = length-scroll t.memory ∙ s;
  })
  | inr n ↦ rw n (record { row_inside = ground arith; column_inside = omega arith; size = s })
]

put-IsOnScreen : (c : ℕ) (t : Terminal) → IsOnScreen t → IsOnScreen (put c t)
unfolding put terminal_putchar_at
put-IsOnScreen c t h =
    let size = length-set t.memory (t.row * vga_width + t.column) (vga_entry c t.color) ∙ h.size in
    let inside = h.row_inside in
    elim (Bool-cases (c == 10)) [
      | inl y ↦ rw y (next_row-IsOnScreen t inside h.size)
      | inr n ↦ elim (Bool-cases (t.column + 1 == vga_width)) [
        | inl y ↦ rw (n, y) (next_row-IsOnScreen _ inside size)
        | inr m ↦
            rw (n, m)
              (record {
                row_inside = inside;
                column_inside = ground (arith, h.column_inside);
                size = size;
              })
      ]
    ]

update_cursor-IsOnScreen : (t : Terminal) → IsOnScreen t → IsOnScreen (update_cursor t)
unfolding update_cursor
update_cursor-IsOnScreen t h =
    let pos = t.row * vga_width + t.column in
    record {
      row_inside = h.row_inside;
      column_inside = h.column_inside;
      size = length-set t.memory pos (get_or t.memory pos 0 % 4096) ∙ h.size;
    }

-- Whatever is written to a screen of 25 rows of 80 cells with the cursor on it leaves a screen
-- of this size with the cursor on it, so that every character goes to a cell of the screen.
pub terminal_write-IsOnScreen :
    (cs : List ℕ) (t : Terminal) → IsOnScreen t → IsOnScreen (terminal_write cs t)
unfolding terminal_write terminal_putchar
terminal_write-IsOnScreen [] t h = h
terminal_write-IsOnScreen (c ∷ cs) t h =
    terminal_write-IsOnScreen cs (terminal_putchar c t)
      (update_cursor-IsOnScreen (put c t) (put-IsOnScreen c t h))
