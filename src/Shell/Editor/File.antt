-- ===== src/Shell/Editor/File.antt =====
-- kernel/src/shell/editor.cpp: opening, saving and closing a file, and the dispatch of a key. The file
-- system of kernel/src/fs/fat32.cpp is an interface here.
use pocky.Common.{
  ℕ, ◌-◌, ◌≡◌, Bool, true, false, not, Option, none, some, List, [], ◌∷◌, length, take,
  if◌then◌else◌, ltb, leb, ◌==◌, bit_and,
}
use pocky.Shell.Editor.Lines.{newline}
use pocky.Shell.Editor.Modes.{process_insert_mode, process_visual_mode}
use pocky.Shell.Editor.{
  TextEditor, EditorMode, max_buffer_size, ctrl_s, ctrl_q, escape, update_cursor_pos,
  switch_to_normal_mode, process_normal_mode,
}

abbrev pub max_filename_length : ℕ
max_filename_length = 256

-- What `findFile` gives of a file.
pub record Found : Type 0 where
  pub cluster : ℕ
  pub size : ℕ
  pub attributes : ℕ

-- The calls that the editor makes of the file system, whose state is `F`. `readFile` fills the buffer
-- that it is given.
pub record Files (F : Type 0) : Type 0 where
  pub find_file : F → List ℕ → Option Found
  pub create_file : F → List ℕ → F × Bool
  pub read_file : F → ℕ → ℕ → List ℕ
  pub write_file : F → ℕ → List ℕ → F × Bool
  pub update_file_size : F → List ℕ → ℕ → F × Bool
  pub length-read_file : (f : F) (cluster n : ℕ) → length (read_file f cluster n) ≡ n

-- `while (m_buffer_size > 0 && m_buffer[m_buffer_size - 1] == '\n') m_buffer_size--;`
unfoldable pub strip : List ℕ → List ℕ
strip [] = []
strip (c ∷ cs) =
    let rest = strip cs in
    elim rest [ [] ↦ if c == newline then [] else c ∷ [] | d ∷ ds ↦ c ∷ d ∷ ds ]

-- The last lines of `save`.
unfoldable pub saved : TextEditor → TextEditor
saved e =
    let clean = record e { modified = false } in
    if ltb (length e.buffer) e.cursor_pos
    then update_cursor_pos (record clean { cursor_pos = length e.buffer })
    else clean

-- The fields that `open` resets.
unfoldable pub opened : TextEditor → List ℕ → TextEditor
opened e text = record e {
  buffer = text;
  cursor_pos = 0;
  cursor_row = 0;
  cursor_col = 0;
  screen_row = 0;
  screen_col = 0;
  screen_offset = 0;
  active = true;
  modified = false;
  mode = EditorMode.normal;
}

unfoldable pub close : TextEditor → TextEditor
close e =
    if e.active
    then record e {
      buffer = [];
      filename = [];
      cursor_pos = 0;
      cursor_row = 0;
      cursor_col = 0;
      screen_row = 0;
      screen_col = 0;
      screen_offset = 0;
      active = false;
      modified = false;
      mode = EditorMode.normal;
    }
    else e

module _ {F : Type 0} (files : Files F) where
  -- The part of `save` from `writeFile` on.
  unfoldable pub write_text : F → TextEditor → Found → F × TextEditor × Bool
  write_text f e found =
      let written = files.write_file f found.cluster e.buffer in
      let updated = files.update_file_size written.0 e.filename (length e.buffer) in
      if not written.1
      then (written.0, e, false)
      else if not updated.1
      then (updated.0, e, false)
      else (updated.0, saved e, true)

  -- The part of `save` for a file that is not there.
  unfoldable pub create_and_write : F → TextEditor → F × TextEditor × Bool
  create_and_write f e =
      let created = files.create_file f e.filename in
      if not created.1
      then (created.0, e, false)
      else (elim (files.find_file created.0 e.filename) [
        | none ↦ (created.0, e, false)
        | some found ↦ write_text created.0 e found
      ])

  -- The part of `save` behind the loop.
  unfoldable pub save_stripped : F → TextEditor → F × TextEditor × Bool
  save_stripped f e = elim (files.find_file f e.filename) [
    | none ↦ create_and_write f e
    | some found ↦ write_text f e found
  ]

  unfoldable pub save : F → TextEditor → F × TextEditor × Bool
  save f e =
      let result = save_stripped f (record e { buffer = strip e.buffer }) in
      if e.active then result else (f, e, false)

  unfoldable pub open_file : F → TextEditor → List ℕ → TextEditor × Bool
  open_file f e0 filename =
      let e = record e0 { filename = take (max_filename_length - 1) filename } in
      if length filename == 0 then (e0, false) else (elim (files.find_file f filename) [
        | none ↦ (opened e [], true)
        | some found ↦
            if not (bit_and found.attributes 0x10 == 0)
            then (e, false)
            else if leb max_buffer_size found.size
            then (e, false)
            else (opened e (files.read_file f found.cluster found.size), true)
      ])

  -- The branches for the three modes, whose tests exclude one another. `none` is a write out of the
  -- bounds of the buffer.
  unfoldable pub process_in_mode : F → TextEditor → ℕ → EditorMode → Option (F × TextEditor)
  process_in_mode f e c EditorMode.normal =
      let result = save f e in
      if c == ctrl_s
      then some (result.0, result.1)
      else if c == ctrl_q
      then some (f, close e)
      else some (f, process_normal_mode e c)
  process_in_mode f e c EditorMode.insert = elim (process_insert_mode e c) [
    | none ↦ none
    | some e' ↦ some (f, e')
  ]
  process_in_mode f e c EditorMode.visual = some (f, process_visual_mode e c)

  unfoldable pub process_keypress : F → TextEditor → ℕ → Option (F × TextEditor)
  process_keypress f e c =
      let result = process_in_mode f e c e.mode in
      if e.active
      then (if c == escape then some (f, switch_to_normal_mode e) else result)
      else some (f, e)
