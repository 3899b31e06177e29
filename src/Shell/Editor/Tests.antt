-- ===== src/Shell/Editor/Tests.antt =====
-- The editor on a text of two lines, with a disk that keeps one file.
use pocky.Common.{
  ℕ, ◌≤◌, ◌≡◌, refl, true, false, none, some, List, [], ◌∷◌, length, replicate, length-replicate,
  if◌then◌else◌, ◌==◌, arith,
}
use pocky.Shell.Editor.Places.{row_at, col_at}
use pocky.Shell.Editor.Placed.{IsPlaced}
use pocky.Shell.Editor.Typing.{backspace-type_char}
use pocky.Shell.Editor.Selection.{StartsRow, selection_start-StartsRow}
use pocky.Shell.Editor.Modes.{process_insert_mode, key_backspace, selection_start}
use pocky.Shell.Editor.File.{Files, open_file}
use pocky.Shell.Editor.Session.{run_keys, new_file_out_of_bounds}
use pocky.Shell.Editor.{TextEditor, EditorMode}

-- "ab", a newline, "c"; the cursor is on the "c".
abbrev two_lines : List ℕ
two_lines = b'a' ∷ b'b' ∷ 10 ∷ b'c' ∷ []

abbrev editing : EditorMode → TextEditor
editing m = record {
  buffer = two_lines;
  filename = b'f' ∷ [];
  cursor_pos = 3;
  cursor_row = 1;
  cursor_col = 0;
  screen_row = 0;
  screen_col = 0;
  screen_offset = 0;
  active = true;
  modified = false;
  mode = m;
  has_selection = false;
  selection_start_row = 0;
  selection_end_row = 0;
}

-- The disk is the text of its only file.
abbrev one_file : Files (List ℕ)
one_file = record {
  find_file = λ f name.
      if length f == 0 then none else some (record { cluster = 2; size = 3; attributes = 0 });
  create_file = λ f name. (f, false);
  read_file = λ f cluster n. replicate n b'x';
  write_file = λ f cluster text. (text, true);
  update_file_size = λ f name n. (f, true);
  length-read_file = λ f cluster n. length-replicate n b'x';
}

editing-IsPlaced : (m : EditorMode) → IsPlaced (editing m)
unfolding row_at col_at
editing-IsPlaced m = record {
  inside = omega arith;
  at_row = refl;
  at_col = refl;
  short = omega arith;
  selected = λ v. (omega arith, omega arith);
}

backspace-type_char_example :
    (e1 : TextEditor) × (process_insert_mode (editing EditorMode.insert) b'z' ≡ some e1)
    × (process_insert_mode e1 key_backspace
        ≡ some (record (editing EditorMode.insert) { modified = true }))
backspace-type_char_example =
    backspace-type_char (editing EditorMode.insert) b'z' (editing-IsPlaced EditorMode.insert) refl
      (omega arith)

opens : (open_file one_file (1 ∷ []) (editing EditorMode.visual) (b'f' ∷ [])).1 ≡ true
unfolding open_file
opens = refl

has_row_1 : 1 ≤ row_at 0 two_lines 4
unfolding row_at
has_row_1 = omega arith

selection_start-StartsRow_example : StartsRow two_lines 1 (selection_start two_lines 1)
selection_start-StartsRow_example = selection_start-StartsRow two_lines 1 has_row_1

new_file_out_of_bounds_example :
    run_keys one_file []
      (open_file one_file [] (editing EditorMode.normal) (b'n' ∷ [])).0
      (b'l' ∷ b'i' ∷ b'x' ∷ [])
    ≡ none
new_file_out_of_bounds_example =
    new_file_out_of_bounds one_file [] (editing EditorMode.normal) (b'n' ∷ []) b'x' refl refl refl
