-- ===== src/Shell/Editor.antt =====
-- kernel/src/shell/editor.cpp and .hpp, without the drawing: a text and a cursor in it, in three modes.
pub mod Lines
pub mod Modes
pub mod File
pub mod Motion
pub mod Places
pub mod Search
pub mod Placed
pub mod Typing
pub mod Selection
pub mod Saving
pub mod Session
mod Tests
use pocky.Common.{
  ℕ, zero, suc, ◌+◌, ◌-◌, ◌%◌, Bool, true, false, not, ◌&&◌, ◌||◌, Option, none, some, List, [],
  ◌∷◌, ◌++◌, length, get_or, take, drop, if◌then◌else◌, ltb, leb, ◌==◌, u64_mod,
}
use pocky.Shell.Editor.Lines.{
  newline, no_line, get_line_length, seek, line_start, forward_start, skip_rows, skip_selected,
  line_end,
}

abbrev pub max_buffer_size : ℕ
max_buffer_size = 32768

abbrev pub terminal_height : ℕ
terminal_height = 25

abbrev pub terminal_width : ℕ
terminal_width = 80

pub data EditorMode : Type 0 where
  normal : EditorMode
  insert : EditorMode
  visual : EditorMode

-- The members of the class. `buffer` is the first `m_buffer_size` characters of `m_buffer`: what lies
-- behind them is written over before it is read.
pub record TextEditor : Type 0 where
  pub buffer : List ℕ
  pub filename : List ℕ
  pub cursor_pos : ℕ
  pub cursor_row : ℕ
  pub cursor_col : ℕ
  pub screen_row : ℕ
  pub screen_col : ℕ
  pub screen_offset : ℕ
  pub active : Bool
  pub modified : Bool
  pub mode : EditorMode
  pub has_selection : Bool
  pub selection_start_row : ℕ
  pub selection_end_row : ℕ

-- `x++` and `x--` on a `size_t`
abbrev pub increment : ℕ → ℕ
increment n = (n + 1) % u64_mod

abbrev pub decrement : ℕ → ℕ
decrement n = (n + u64_mod - 1) % u64_mod

unfoldable pub update_cursor_pos : TextEditor → TextEditor
update_cursor_pos e = record e { cursor_pos = seek e.cursor_row e.cursor_col e.buffer 0 0 0 }

unfoldable pub is_line_selected : TextEditor → ℕ → Bool
is_line_selected e row =
    let first = e.selection_start_row in
    let last = e.selection_end_row in
    if not e.has_selection
    then false
    else if leb first last
    then leb first row && leb row last
    else leb last row && leb row first

unfoldable pub switch_to_visual_mode : TextEditor → TextEditor
switch_to_visual_mode e = record e {
  mode = visual;
  has_selection = true;
  selection_start_row = e.cursor_row;
  selection_end_row = e.cursor_row;
}

unfoldable pub switch_to_normal_mode : TextEditor → TextEditor
switch_to_normal_mode e = record e { mode = normal; has_selection = false }

unfoldable pub switch_to_insert_mode : TextEditor → TextEditor
switch_to_insert_mode e = record e { mode = insert; has_selection = false }

unfoldable pub delete_char : TextEditor → TextEditor
delete_char e = if leb (length e.buffer) e.cursor_pos then e else record e {
  buffer = take e.cursor_pos e.buffer ++ drop (e.cursor_pos + 1) e.buffer;
  modified = true;
}

-- `if (m_cursor_row < m_screen_row) m_screen_row = m_cursor_row;`
unfoldable pub scroll_up_to : TextEditor → TextEditor
scroll_up_to e = if ltb e.cursor_row e.screen_row then record e { screen_row = e.cursor_row } else e

-- `if (m_cursor_row >= m_screen_row + TERMINAL_HEIGHT - 1)
--   m_screen_row = m_cursor_row - TERMINAL_HEIGHT + 2;`
unfoldable pub scroll_down_to : TextEditor → TextEditor
scroll_down_to e =
    if leb (e.screen_row + terminal_height - 1) e.cursor_row
    then record e { screen_row = e.cursor_row + 2 - terminal_height }
    else e

-- `a > b ? b : a`
abbrev pub at_most : ℕ → ℕ → ℕ
at_most a b = if ltb b a then b else a

-- The lines of `j` and of `k` from the assignment to `m_cursor_row` to `update_cursor_pos`.
unfoldable pub go_to_row : ℕ → ℕ → TextEditor → TextEditor
go_to_row row len e =
    update_cursor_pos (record e { cursor_row = row; cursor_col = at_most e.cursor_col len })

unfoldable pub row_up : TextEditor → TextEditor
row_up e =
    let len = get_line_length e.buffer (e.cursor_row - 1) in
    if ltb 0 e.cursor_row && not (len == no_line)
    then scroll_up_to (go_to_row (e.cursor_row - 1) len e)
    else e

unfoldable pub row_down : TextEditor → TextEditor
row_down e =
    let len = get_line_length e.buffer (increment e.cursor_row) in
    if len == no_line then e else scroll_down_to (go_to_row (increment e.cursor_row) len e)

abbrev pub ctrl_s : ℕ
ctrl_s = 19

abbrev pub ctrl_q : ℕ
ctrl_q = 17

abbrev pub escape : ℕ
escape = 27

unfoldable pub key_h : TextEditor → TextEditor
key_h e =
    if ltb 0 e.cursor_col
    then record e { cursor_col = e.cursor_col - 1; cursor_pos = decrement e.cursor_pos }
    else e

unfoldable pub key_l : TextEditor → TextEditor
key_l e =
    if ltb e.cursor_col (get_line_length e.buffer e.cursor_row)
    then record e { cursor_col = increment e.cursor_col; cursor_pos = increment e.cursor_pos }
    else e

unfoldable pub key_s : TextEditor → TextEditor
key_s e =
    switch_to_insert_mode
      (if ltb e.cursor_pos (length e.buffer) then record (delete_char e) { modified = true } else e)

-- The keys of the normal mode but for Ctrl-S and Ctrl-Q.
unfoldable pub process_normal_mode : TextEditor → ℕ → TextEditor
process_normal_mode e c =
    if (c == b'i') || (c == b'a')
    then switch_to_insert_mode e
    else if c == b's'
    then key_s e
    else if (c == b'J') || (c == b'K')
    then switch_to_visual_mode e
    else if c == b'h'
    then key_h e
    else if c == b'l'
    then key_l e
    else if c == b'k'
    then row_up e
    else if c == b'j'
    then row_down e
    else e
