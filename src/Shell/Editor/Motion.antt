-- ===== src/Shell/Editor/Motion.antt =====
-- kernel/src/shell/editor.cpp: the motions and edits that keep the screen in step.
use pocky.Common.{
  ℕ, ◌+◌, ◌-◌, true, ◌∷◌, ◌++◌, length, get_or, take, drop, if◌then◌else◌, ltb, leb, ◌==◌,
}
use pocky.Shell.Editor.Lines.{newline, line_start, line_end}
use pocky.Shell.Editor.{
  TextEditor, max_buffer_size, terminal_width, increment, decrement, at_most, delete_char,
  scroll_up_to, scroll_down_to,
}

unfoldable pub update_screen_position : TextEditor → TextEditor
update_screen_position e =
    let scrolled = if ltb e.cursor_row e.screen_row then scroll_up_to e else scroll_down_to e in
    record scrolled { screen_col = at_most e.cursor_col (terminal_width - 1) }

unfoldable pub move_cursor_left : TextEditor → TextEditor
move_cursor_left e =
    let pos = e.cursor_pos - 1 in
    let moved =
      if get_or e.buffer pos 0 == newline
      then record e {
        cursor_pos = pos;
        cursor_row = decrement e.cursor_row;
        cursor_col = pos - line_start e.buffer pos;
      }
      else record e { cursor_pos = pos; cursor_col = decrement e.cursor_col } in
    if ltb 0 e.cursor_pos then update_screen_position moved else e

unfoldable pub move_cursor_right : TextEditor → TextEditor
move_cursor_right e =
    let at_newline = get_or e.buffer e.cursor_pos 0 == newline in
    if ltb e.cursor_pos (length e.buffer)
    then update_screen_position (record e {
      cursor_pos = increment e.cursor_pos;
      cursor_row = if at_newline then increment e.cursor_row else e.cursor_row;
      cursor_col = if at_newline then 0 else increment e.cursor_col;
    })
    else e

unfoldable pub move_cursor_up : TextEditor → TextEditor
move_cursor_up e =
    let start = line_start e.buffer e.cursor_pos in
    let previous = line_start e.buffer (start - 1) in
    let col = at_most e.cursor_col (start - previous - 1) in
    if start == 0
    then e
    else update_screen_position (record e {
      cursor_pos = previous + col;
      cursor_row = decrement e.cursor_row;
      cursor_col = col;
    })

unfoldable pub move_cursor_down : TextEditor → TextEditor
move_cursor_down e =
    let end = line_end (drop e.cursor_pos e.buffer) e.cursor_pos in
    let next = end + 1 in
    let next_end = line_end (drop next e.buffer) next in
    let col = at_most e.cursor_col (next_end - next) in
    if leb (length e.buffer) end
    then e
    else update_screen_position (record e {
      cursor_pos = next + col;
      cursor_row = increment e.cursor_row;
      cursor_col = col;
    })

unfoldable pub insert_char : TextEditor → ℕ → TextEditor
insert_char e c =
    if leb (max_buffer_size - 1) (length e.buffer)
    then e
    else update_screen_position (record e {
      buffer = take e.cursor_pos e.buffer ++ (c ∷ drop e.cursor_pos e.buffer);
      cursor_row = if c == newline then increment e.cursor_row else e.cursor_row;
      cursor_col = if c == newline then 0 else increment e.cursor_col;
      cursor_pos = increment e.cursor_pos;
      modified = true;
    })

unfoldable pub backspace : TextEditor → TextEditor
backspace e = if e.cursor_pos == 0 then e else delete_char (move_cursor_left e)
