-- ===== src/Shell/Pager.antt =====
-- kernel/src/shell/pager.cpp, without the drawing. A character is its code, a text is its characters before
-- the terminator, and `lines` holds the `line_count` lines that are in use.
pub mod Split
pub mod Scroll
use pocky.Common.{
  ℕ, zero, suc, ◌+◌, ◌-◌, ◌*◌, ◌/◌, Bool, true, false, not, ◌&&◌, ◌||◌, Option, none, some, List,
  [], ◌∷◌, ◌++◌, length, take, drop, if◌then◌else◌, ltb, leb, ◌==◌,
}

abbrev pub max_lines : ℕ
max_lines = 1000

abbrev pub max_line_length : ℕ
max_line_length = 256

abbrev pub newline : ℕ
newline = 10

-- `VGA_HEIGHT - 1`
abbrev pub rows : ℕ
rows = 24

pub record Pager : Type 0 where
  pub lines : List (List ℕ)
  pub current_line : ℕ
  pub pager_active : Bool

pub init_pager : Pager
init_pager = record { lines = []; current_line = 0; pager_active = false }

-- The end of `split_text`: the line that was begun.
abbrev pub close : List (List ℕ) → List ℕ → List (List ℕ)
close lines line =
    if ltb 0 (length line) && ltb (length lines) max_lines then lines ++ (line ∷ []) else lines

-- The loop of `split_text`, with the text from `pos` on, the finished lines and the line that was
-- begun. A full line ends without a character being read. `none` means that the fuel, which counts rounds, ran out.
pub split_loop : ℕ → List ℕ → List (List ℕ) → List ℕ → Option (List (List ℕ))
split_loop zero text lines line = none
split_loop (suc f) [] lines line = some (close lines line)
split_loop (suc f) (c ∷ text) lines line =
    let is_newline = c == newline in
    let ends = is_newline || length line == max_line_length - 1 in
    let rest =
      split_loop f (if ends && not is_newline then c ∷ text else text)
        (if ends then lines ++ (line ∷ []) else lines) (if ends then [] else line ++ (c ∷ [])) in
    if leb max_lines (length lines) then some (close lines line) else rest

pub split_text : ℕ → List ℕ → Option (List (List ℕ))
split_text fuel text = split_loop fuel text [] []

-- `show_text`
pub show_text : ℕ → List ℕ → Pager → Option Pager
show_text fuel text p = elim (split_text fuel text) [
  | none ↦ none
  | some lines ↦ some (record { lines = lines; current_line = 0; pager_active = true })
]

-- The lines that `display_current_page` prints, and the percentage of its status line, which it shows
-- where there are more lines than rows.
pub current_page : Pager → List (List ℕ)
current_page p = take rows (drop p.current_line p.lines)

pub percent : Pager → ℕ
percent p = (p.current_line * 100) / (length p.lines - rows + 1)

abbrev pub go_to : ℕ → Pager → Pager
go_to n p = record p { current_line = n }

pub line_down : Pager → Pager
line_down p =
    if ltb (p.current_line + rows) (length p.lines) then go_to (p.current_line + 1) p else p

pub line_up : Pager → Pager
line_up p = if ltb 0 p.current_line then go_to (p.current_line - 1) p else p

pub page_down : Pager → Pager
page_down p =
    if ltb (p.current_line + rows) (length p.lines)
    then (let n = p.current_line + rows in
        go_to (if ltb (length p.lines) (n + rows) then length p.lines - rows else n) p)
    else p

pub page_up : Pager → Pager
page_up p =
    if ltb 0 p.current_line
    then go_to (if leb rows p.current_line then p.current_line - rows else 0) p
    else p

pub first_line : Pager → Pager
first_line p = if ltb 0 p.current_line then go_to 0 p else p

pub last_page : Pager → Pager
last_page p =
    if ltb (p.current_line + rows) (length p.lines) then go_to (length p.lines - rows) p else p

-- `process_keypress`: `q`; `j` and escape; `k`; the space and control-D; control-U; `g`; `G`.
pub process_keypress : ℕ → Pager → Pager
process_keypress c p =
    if not p.pager_active
    then p
    else (if c == 113
        then record p { pager_active = false }
        else (if c == 106 || c == 27
            then line_down p
            else (if c == 107
                then line_up p
                else (if c == 32 || c == 4
                    then page_down p
                    else (if c == 21
                        then page_up p
                        else (if c == 103
                            then first_line p
                            else (if c == 71 then last_page p else p)))))))
