-- ===== src/Shell/Pager/Scroll.antt =====
-- The keys of kernel/src/shell/pager.cpp keep the screen on the text.
use pocky.Common.{ℕ, ◌+◌, ◌≤◌, ◌≡◌, ◌⊎◌, length, arith}
use pocky.Shell.Pager.{
  Pager, rows, line_down, line_up, page_down, page_up, first_line, last_page, process_keypress,
}

-- The first line of the screen is the first of the text, or the text fills the screen from there on.
abbrev pub IsOnText : Pager → Type 0
IsOnText p = (p.current_line ≡ 0) ⊎ (p.current_line + rows ≤ length p.lines)

-- Every key keeps the screen on the text, and no key changes the text.
pub process_keypress-IsOnText :
    (c : ℕ) (p : Pager)
    → IsOnText p
    → IsOnText (process_keypress c p) × ((process_keypress c p).lines ≡ p.lines)
unfolding process_keypress line_down line_up page_down page_up first_line last_page
process_keypress-IsOnText c p h = ground arith
