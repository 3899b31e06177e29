-- ===== src/Shell/Editor/Session.antt =====
-- The keys in every mode.
use pocky.Common.{
  ℕ, ◌≡◌, refl, Bool, true, false, ◌&&◌, ◌||◌, Option, none, some, List, [], ◌∷◌, length, take, ltb,
  leb, ◌==◌, arith,
}
use pocky.Shell.Editor.Lines.{get_line_length, line_from}
use pocky.Shell.Editor.Placed.{IsPlaced}
use pocky.Shell.Editor.Modes.{process_insert_mode, insert_at_cursor}
use pocky.Shell.Editor.File.{Files, opened, open_file, process_in_mode, process_keypress}
use pocky.Shell.Editor.{
  TextEditor, EditorMode, ctrl_s, ctrl_q, escape, switch_to_insert_mode, process_normal_mode, key_l,
}

unfoldable pub is_normal : EditorMode → Bool
is_normal EditorMode.normal = true
is_normal EditorMode.insert = false
is_normal EditorMode.visual = false

module _ {F : Type 0} (files : Files F) where
  -- A result of a key: there is one, and the cursor is true in it.
  abbrev Keyed : Option (F × TextEditor) → Type 0
  Keyed r = (f' : F) × (e' : TextEditor) × (r ≡ some (f', e')) × IsPlaced e'

-- The keys one after the other.
unfoldable pub run_keys : {F : Type 0} → Files F → F → TextEditor → List ℕ → Option (F × TextEditor)
run_keys files f e [] = some (f, e)
run_keys files f e (c ∷ cs) = elim (process_keypress files f e c) [
  | none ↦ none
  | some r ↦ run_keys files r.0 r.1 cs
]

-- The editor after `l` and `i` in an empty text.
run_off : TextEditor → TextEditor
run_off e = switch_to_insert_mode (record (opened e []) { cursor_pos = 1; cursor_col = 1 })

run_off_keys :
    {F : Type 0} (files : Files F) (f : F) (e : TextEditor) (cs : List ℕ)
    → run_keys files f (opened e []) (b'l' ∷ b'i' ∷ cs) ≡ run_keys files f (run_off e) cs
unfolding run_off run_keys opened process_keypress process_in_mode process_normal_mode key_l
    get_line_length line_from switch_to_insert_mode
run_off_keys files f e cs = refl

run_off_inserts :
    (e : TextEditor) (c : ℕ)
    → leb 32 c && ltb c 127 ≡ true
    → process_insert_mode (run_off e) c ≡ none
unfolding run_off opened switch_to_insert_mode process_insert_mode insert_at_cursor
run_off_inserts e c printable =
    let k1 : (c == ctrl_s) || (c == ctrl_q) ≡ false = ground arith in
    let k2 : (c == 8) && true ≡ false = ground arith in
    let k3 : leb 32 c && (ltb c 127 && true) ≡ true = ground arith in rw (k1, k2, k3) refl

run_off_out_of_bounds :
    {F : Type 0} (files : Files F) (f : F) (e : TextEditor) (c : ℕ)
    → leb 32 c && ltb c 127 ≡ true
    → process_keypress files f (run_off e) c ≡ none
unfolding run_off opened process_keypress switch_to_insert_mode process_in_mode
run_off_out_of_bounds files f e c printable =
    let k0 : (c == escape) ≡ false = ground arith in
    rw (k0, process_in_mode, run_off_inserts e c printable) refl

run_keys_fails :
    {F : Type 0} (files : Files F) (f : F) (e : TextEditor) (c : ℕ) (cs : List ℕ)
    → process_keypress files f e c ≡ none
    → run_keys files f e (c ∷ cs) ≡ none
unfolding run_keys
run_keys_fails files f e c cs h = rw (run_keys, h) refl

opens_empty :
    {F : Type 0} (files : Files F) (f : F) (e : TextEditor) (filename : List ℕ)
    → files.find_file f filename ≡ none
    → (length filename == 0) ≡ false
    → (open_file files f e filename).0 ≡ opened (record e { filename = take 255 filename }) []
unfolding open_file
opens_empty files f e filename missing named = rw (open_file, named, missing) refl

-- After opening a file that is not there, `l`, `i` and a printable character write out of bounds:
-- the last line is empty, `get_line_length` gives the greatest `size_t`, and the cursor runs off.
pub new_file_out_of_bounds :
    {F : Type 0} (files : Files F) (f : F) (e : TextEditor) (filename : List ℕ) (c : ℕ)
    → files.find_file f filename ≡ none
    → (length filename == 0) ≡ false
    → leb 32 c && ltb c 127 ≡ true
    → run_keys files f (open_file files f e filename).0 (b'l' ∷ b'i' ∷ c ∷ []) ≡ none
new_file_out_of_bounds files f e filename c missing named printable =
    let e0 = record e { filename = take 255 filename } in
    rw (opens_empty files f e filename missing named, run_off_keys files f e0 (c ∷ []))
      (run_keys_fails files f (run_off e0) c [] (run_off_out_of_bounds files f e0 c printable))
