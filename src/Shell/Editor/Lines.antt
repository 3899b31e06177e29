-- ===== src/Shell/Editor/Lines.antt =====
-- The loops of kernel/src/shell/editor.cpp over the text: each runs over the characters that are left,
-- so it ends with them.
use pocky.Common.{
  ℕ, zero, suc, ◌+◌, ◌-◌, ◌^◌, ◌&&◌, List, [], ◌∷◌, get_or, if◌then◌else◌, ltb, ◌==◌,
}

abbrev pub newline : ℕ
newline = 10

-- `static_cast<size_t>(-1)`
abbrev pub no_line : ℕ
no_line = 2 ^ 64 - 1

-- The inner loop of `get_line_length`: the characters before the next newline.
unfoldable pub run : List ℕ → ℕ
run [] = 0
run (c ∷ cs) = if c == newline then 0 else suc (run cs)

-- Its outer loop, with the characters from `pos` on.
unfoldable pub line_from : ℕ → List ℕ → ℕ → ℕ
line_from row [] current_row = no_line
line_from row (c ∷ cs) current_row =
    let next = line_from row cs (if c == newline then current_row + 1 else current_row) in
    if current_row == row then run (c ∷ cs) else next

unfoldable pub get_line_length : List ℕ → ℕ → ℕ
get_line_length text row = line_from row text 0

-- The loop of `update_cursor_pos`.
unfoldable pub seek : ℕ → ℕ → List ℕ → ℕ → ℕ → ℕ → ℕ
seek row col [] pos current_row current_col = pos
seek row col (c ∷ cs) pos current_row current_col =
    let next =
      seek row col cs (pos + 1) (if c == newline then current_row + 1 else current_row)
        (if c == newline then 0 else current_col + 1) in
    if (current_row == row) && (current_col == col) then pos else next

-- `while (p > 0 && m_buffer[p - 1] != '\n') p--;`
unfoldable pub line_start : List ℕ → ℕ → ℕ
line_start text zero = zero
line_start text (suc p) =
    let before = line_start text p in if get_or text p 0 == newline then suc p else before

-- The loop of backspace that finds the start of the line, with the characters from `i` on.
unfoldable pub forward_start : List ℕ → ℕ → ℕ → ℕ
forward_start [] i start = start
forward_start (c ∷ cs) i start = forward_start cs (i + 1) (if c == newline then i + 1 else start)

-- The first loop of the visual `s`: behind the newline that ends row `start_row - 1`.
unfoldable pub skip_rows : ℕ → List ℕ → ℕ → ℕ → ℕ
skip_rows start_row [] pos current_row = pos
skip_rows start_row (c ∷ cs) pos current_row =
    let next =
      skip_rows start_row cs (pos + 1) (if c == newline then current_row + 1 else current_row) in
    if ltb current_row start_row then next else pos

-- Its loop for `end_pos`: up to the newline that ends row `end_row`.
unfoldable pub skip_selected : ℕ → List ℕ → ℕ → ℕ → ℕ
skip_selected end_row [] pos current_row = pos
skip_selected end_row (c ∷ cs) pos current_row =
    let row = if c == newline then current_row + 1 else current_row in
    let next = skip_selected end_row cs (pos + 1) row in if ltb end_row row then pos else next

-- `while (p < m_buffer_size && m_buffer[p] != '\n') p++;`, from the characters from `p` on
abbrev pub line_end : List ℕ → ℕ → ℕ
line_end rest p = p + run rest
