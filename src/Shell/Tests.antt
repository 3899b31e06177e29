-- ===== src/Shell/Tests.antt =====
-- The pager and the terminal of kernel/src/shell on concrete input.
use pocky.Common.{ℕ, refl, true, List, [], ◌∷◌, replicate, arith}
use pocky.Shell.Pager.{Pager, split_text}
use pocky.Shell.Pager.Split.{Splits, visible, split_text-Splits}
use pocky.Shell.Terminal.{Terminal, terminal_write}
use pocky.Shell.Terminal.Bounds.{IsOnScreen, terminal_write-IsOnScreen}

-- "ab", a newline and "c".
abbrev two_lines : List ℕ
two_lines = 97 ∷ 98 ∷ 10 ∷ 99 ∷ []

split_text-Splits_example : Splits (visible two_lines) (split_text 9 two_lines)
split_text-Splits_example = split_text-Splits 9 two_lines (omega arith)

-- Thirty lines, of which the screen shows those from the sixth on.
abbrev thirty_lines : Pager
thirty_lines = record { lines = replicate 30 (97 ∷ []); current_line = 5; pager_active = true }

-- The cursor in the last cell of the last row.
abbrev full_screen : Terminal
full_screen = record { memory = replicate 2000 0; row = 24; column = 79; color = 15 }

full_screen-IsOnScreen : IsOnScreen full_screen
full_screen-IsOnScreen = record {
  row_inside = omega arith;
  column_inside = omega arith;
  size = refl;
}

terminal_write-IsOnScreen_example : IsOnScreen (terminal_write two_lines full_screen)
terminal_write-IsOnScreen_example =
    terminal_write-IsOnScreen two_lines full_screen full_screen-IsOnScreen
