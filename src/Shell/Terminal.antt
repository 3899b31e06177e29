-- ===== src/Shell/Terminal.antt =====
-- kernel/src/shell/terminal.cpp. The screen is the list of its cells, an entry being a character and its
-- colour as `vga_entry` packs them. The cursor's registers are not part of the state.
pub mod Bounds
use pocky.Common.{
  ℕ, zero, suc, ◌+◌, ◌-◌, ◌*◌, ◌/◌, ◌%◌, Bool, true, false, Option, none, some, List, [], ◌∷◌, ◌++◌,
  length, get_or, set, replicate, if◌then◌else◌, ltb, ◌==◌,
}

abbrev pub vga_width : ℕ
vga_width = 80

abbrev pub vga_height : ℕ
vga_height = 25

-- A `char` above 127 is negative, and its sign fills the byte of the colour.
abbrev pub vga_entry : ℕ → ℕ → ℕ
vga_entry c color =
    let low = c % 256 in if ltb low 128 then low + color % 256 * 256 else low + 65280

-- White on black.
abbrev pub default_color : ℕ
default_color = 15

abbrev pub blank : ℕ
blank = vga_entry 32 default_color

pub record Terminal : Type 0 where
  pub memory : List ℕ
  pub row : ℕ
  pub column : ℕ
  pub color : ℕ

-- `for (x = 0; x < VGA_WIDTH; x++)` with `n` rounds left: row `y` takes the cells of the row below it.
pub copy_row : ℕ → ℕ → ℕ → List ℕ → List ℕ
copy_row zero y x memory = memory
copy_row (suc n) y x memory =
    copy_row n y (x + 1)
      (set memory (y * vga_width + x) (get_or memory ((y + 1) * vga_width + x) 0))

-- `for (y = 0; y < VGA_HEIGHT - 1; y++)`
pub copy_rows : ℕ → ℕ → List ℕ → List ℕ
copy_rows zero y memory = memory
copy_rows (suc n) y memory = copy_rows n (y + 1) (copy_row vga_width y 0 memory)

pub clear_cells : ℕ → ℕ → ℕ → List ℕ → List ℕ
clear_cells zero at entry memory = memory
clear_cells (suc n) at entry memory = clear_cells n (at + 1) entry (set memory at entry)

pub scroll : List ℕ → List ℕ
scroll memory =
    clear_cells vga_width ((vga_height - 1) * vga_width) blank (copy_rows (vga_height - 1) 0 memory)

-- `update_cursor` of vga.cpp: the cell under the cursor gets a black background.
pub update_cursor : Terminal → Terminal
update_cursor t =
    let pos = t.row * vga_width + t.column in
    record t { memory = set t.memory pos (get_or t.memory pos 0 % 4096) }

-- `terminal_initialize`, which is also `terminal_clear`.
pub terminal_initialize : Terminal → Terminal
terminal_initialize t = update_cursor (record {
  memory = clear_cells (vga_height * vga_width) 0 blank t.memory;
  row = 0;
  column = 0;
  color = default_color;
})

-- `terminal_column = 0; terminal_row++;`, and the screen scrolls where that row does not exist.
pub next_row : Terminal → Terminal
next_row t =
    let row = t.row + 1 in
    if row == vga_height
    then record t { memory = scroll t.memory; row = vga_height - 1; column = 0 }
    else record t { row = row; column = 0 }

pub terminal_putchar_at : ℕ → ℕ → ℕ → ℕ → List ℕ → List ℕ
terminal_putchar_at c color x y memory = set memory (y * vga_width + x) (vga_entry c color)

-- `terminal_putchar` before it moves the cursor of the hardware.
pub put : ℕ → Terminal → Terminal
put c t =
    if c == 10
    then next_row t
    else (let t' = record t {
      memory = terminal_putchar_at c t.color t.column t.row t.memory;
      column = t.column + 1;
    } in
        if t.column + 1 == vga_width then next_row t' else t')

pub terminal_putchar : ℕ → Terminal → Terminal
terminal_putchar c t = update_cursor (put c t)

-- One character after the other, as the callers write them.
pub terminal_write : List ℕ → Terminal → Terminal
terminal_write [] t = t
terminal_write (c ∷ cs) t = terminal_write cs (terminal_putchar c t)
