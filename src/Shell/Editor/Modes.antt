-- ===== src/Shell/Editor/Modes.antt =====
-- kernel/src/shell/editor.cpp: the keys of the insert mode and of the visual mode.
use mathlib.Core.Option
use pocky.Common.{
  ℕ, ◌-◌, true, not, ◌&&◌, ◌||◌, Option, none, some, List, ◌∷◌, ◌++◌, length, get_or, take, drop,
  if◌then◌else◌, ltb, leb, ◌==◌,
}
use pocky.Shell.Editor.Lines.{
  newline, no_line, get_line_length, line_start, forward_start, skip_rows, skip_selected,
}
use pocky.Shell.Editor.{
  TextEditor, max_buffer_size, increment, decrement, ctrl_s, ctrl_q, scroll_down_to, row_up,
  row_down, switch_to_insert_mode,
}

-- The two `memmove` of insertion and of backspace. Behind the end of the text the length
-- `m_buffer_size - m_cursor_pos` wraps, and the call writes out of bounds: that is `none`.
unfoldable pub insert_at_cursor : TextEditor → ℕ → Option (List ℕ)
insert_at_cursor e c =
    if ltb (length e.buffer) e.cursor_pos
    then none
    else some (take e.cursor_pos e.buffer ++ (c ∷ drop e.cursor_pos e.buffer))

unfoldable pub remove_before_cursor : TextEditor → Option (List ℕ)
remove_before_cursor e =
    if ltb (length e.buffer) e.cursor_pos
    then none
    else some (take (e.cursor_pos - 1) e.buffer ++ drop e.cursor_pos e.buffer)

-- The rest of the branch for `\b`: `was_newline` is `deleting_newline`, and the cursor and the text
-- are those before it.
unfoldable pub after_backspace : TextEditor → List ℕ → TextEditor
after_backspace e text =
    let was_newline = get_or e.buffer (e.cursor_pos - 1) 0 == newline in
    let pos = e.cursor_pos - 1 in
    record e {
      buffer = text;
      cursor_pos = pos;
      cursor_row = if was_newline then decrement e.cursor_row else e.cursor_row;
      cursor_col =
          if was_newline
          then pos - forward_start (take pos text) 0 0
          else if ltb 0 e.cursor_col
          then e.cursor_col - 1
          else e.cursor_col;
      modified = true;
    }

unfoldable pub type_char : TextEditor → List ℕ → TextEditor
type_char e text = record e {
  buffer = text;
  cursor_pos = increment e.cursor_pos;
  cursor_col = increment e.cursor_col;
  modified = true;
}

unfoldable pub type_newline : TextEditor → List ℕ → TextEditor
type_newline e text = scroll_down_to (record e {
  buffer = text;
  cursor_pos = increment e.cursor_pos;
  cursor_row = increment e.cursor_row;
  cursor_col = 0;
  modified = true;
})

abbrev pub key_backspace : ℕ
key_backspace = 8

unfoldable pub process_insert_mode : TextEditor → ℕ → Option TextEditor
process_insert_mode e c =
    let fits = ltb (length e.buffer) (max_buffer_size - 1) in
    if (c == ctrl_s) || (c == ctrl_q)
    then some e
    else if (c == key_backspace) && ltb 0 e.cursor_pos
    then Option.map (after_backspace e) (remove_before_cursor e)
    else if leb 32 c && (ltb c 127 && fits)
    then Option.map (type_char e) (insert_at_cursor e c)
    else if ((c == 13) || (c == 10)) && fits
    then Option.map (type_newline e) (insert_at_cursor e newline)
    else some e

-- `start_pos` once it has been moved back to the start of its line.
unfoldable pub selection_start : List ℕ → ℕ → ℕ
selection_start text start_row =
    let p = skip_rows start_row text 0 0 in
    if ltb 0 p && (get_or text (p - 1) 0 == newline) then p else line_start text p

unfoldable pub delete_range : TextEditor → ℕ → ℕ → ℕ → TextEditor
delete_range e start_row start_pos end_pos =
    let text = take start_pos e.buffer ++ drop end_pos e.buffer in
    record e {
      buffer = text;
      cursor_pos = start_pos;
      cursor_row = start_row;
      cursor_col = start_pos - line_start text start_pos;
      modified = true;
    }

unfoldable pub delete_selection : TextEditor → TextEditor
delete_selection e =
    let a = e.selection_start_row in
    let b = e.selection_end_row in
    let start_row = if ltb a b then a else b in
    let end_row = if ltb a b then b else a in
    let start_pos = selection_start e.buffer start_row in
    let end_pos = skip_selected end_row (drop start_pos e.buffer) start_pos start_row in
    if ltb start_pos end_pos then delete_range e start_row start_pos end_pos else e

unfoldable pub select_down : TextEditor → TextEditor
select_down e =
    if get_line_length e.buffer (increment e.cursor_row) == no_line
    then e
    else (let moved = row_down e in record moved { selection_end_row = moved.cursor_row })

unfoldable pub select_up : TextEditor → TextEditor
select_up e =
    if ltb 0 e.cursor_row && not (get_line_length e.buffer (e.cursor_row - 1) == no_line)
    then (let moved = row_up e in record moved { selection_end_row = moved.cursor_row })
    else e

unfoldable pub process_visual_mode : TextEditor → ℕ → TextEditor
process_visual_mode e c =
    if c == b'a'
    then switch_to_insert_mode e
    else if c == b's'
    then switch_to_insert_mode (delete_selection e)
    else if c == b'J'
    then select_down e
    else if c == b'K'
    then select_up e
    else e
