-- ===== src/Shell/Editor/Selection.antt =====
-- The keys of the visual mode: selecting rows, and deleting those that are selected.
use pocky.Common.{
  ℕ, ◌-◌, ◌≤◌, ◌≡◌, refl, ap, ◌∙◌, sym, true, not, ◌&&◌, List, ◌++◌, length, get_or, take, drop,
  length-drop, if◌then◌else◌, ltb, ◌==◌, arith, Bool-cases, inl, inr,
}
use pocky.Shell.Editor.Lines.{
  newline, no_line, get_line_length, line_start, skip_rows, skip_selected,
}
use pocky.Shell.Editor.Places.{
  row_at, col_at, row_at_prefix, col_at_prefix, length-take_append, line_start-col_at,
}
use pocky.Shell.Editor.Search.{skip_rows-Reaches}
use pocky.Shell.Editor.Placed.{
  IsPlaced, is_visual, last_row, cursor_row-le, switch_to_insert_mode-IsPlaced, row_up-IsPlaced,
  row_down-IsPlaced,
}
use pocky.Shell.Editor.Modes.{
  selection_start, delete_range, delete_selection, select_down, select_up, process_visual_mode,
}
use pocky.Shell.Editor.{TextEditor, increment, row_up, row_down, switch_to_insert_mode}

-- A position is the first column of a row of the text.
pub record StartsRow (text : List ℕ) (row pos : ℕ) : Type 0 where
  pub inside : pos ≤ length text
  pub at_row : row_at 0 text pos ≡ row
  pub at_col : col_at 0 text pos ≡ 0

-- For a row that the text has, the loops that look for the start of the selection end at the first
-- column of that row.
pub selection_start-StartsRow :
    (text : List ℕ) (row : ℕ) → row ≤ last_row text → StartsRow text row (selection_start text row)
unfolding selection_start
selection_start-StartsRow text row h =
    let found = skip_rows-Reaches row 0 0 text 0 (omega arith) h (λ e. refl) in
    let p = skip_rows row text 0 0 in
    let at : p ≡ found.steps = omega (arith, found.arrives) in
    let inside : p ≤ length text = omega (arith, at, found.inside) in
    let col : col_at 0 text p ≡ 0 = ap (col_at 0 text) at ∙ found.at_col in
    let start : line_start text p ≡ p = omega (arith, line_start-col_at text p inside, col) in
    let same : (if ltb 0 p && (get_or text (p - 1) 0 == newline) then p else line_start text p)
        ≡ p =
      ground (arith, start) in
    rw same
      (record { inside = inside; at_row = ap (row_at 0 text) at ∙ found.at_row; at_col = col })

delete_range-IsPlaced :
    (e : TextEditor) (row start end : ℕ)
    → IsPlaced e
    → StartsRow e.buffer row start
    → start ≤ end
    → IsPlaced (switch_to_insert_mode (delete_range e row start end))
unfolding delete_range switch_to_insert_mode is_visual
delete_range-IsPlaced e row start end p s h =
    let rest = drop end e.buffer in
    let text = take start e.buffer ++ rest in
    let size = length-take_append e.buffer rest start s.inside in
    let left = length-drop end e.buffer in
    let col = col_at_prefix 0 e.buffer rest start start (omega arith) s.inside ∙ s.at_col in
    record {
      inside = omega (arith, size);
      at_row = sym (row_at_prefix 0 e.buffer rest start start (omega arith) s.inside ∙ s.at_row);
      at_col = omega (arith, col, line_start-col_at text start (omega (arith, size)));
      short = omega (arith, size, left, p.short, h, s.inside);
      selected = λ v. absurd (ground arith);
    }

delete_selection-IsPlaced :
    (e : TextEditor)
    → IsPlaced e
    → is_visual e.mode ≡ true
    → IsPlaced (switch_to_insert_mode (delete_selection e))
unfolding delete_selection
delete_selection-IsPlaced e p mode =
    let (first, last) = p.selected mode in
    let a = e.selection_start_row in
    let b = e.selection_end_row in
    let row = if ltb a b then a else b in
    let end_row = if ltb a b then b else a in
    let s = selection_start-StartsRow e.buffer row (ground (arith, first, last)) in
    let start = selection_start e.buffer row in
    let end = skip_selected end_row (drop start e.buffer) start row in
    elim (Bool-cases (ltb start end)) [
      | inr h ↦ rw h (switch_to_insert_mode-IsPlaced e p)
      | inl h ↦ rw h (delete_range-IsPlaced e row start end p s (ground arith))
    ]

-- Moving the end of the selection to where the cursor has gone.
select-IsPlaced :
    (e : TextEditor) → IsPlaced e → IsPlaced (record e { selection_end_row = e.cursor_row })
select-IsPlaced e p = record {
  inside = p.inside;
  at_row = p.at_row;
  at_col = p.at_col;
  short = p.short;
  selected = λ v. ((p.selected v).0, cursor_row-le e p);
}

select_down-IsPlaced : (e : TextEditor) → IsPlaced e → IsPlaced (select_down e)
unfolding select_down
select_down-IsPlaced e p =
    elim (Bool-cases (get_line_length e.buffer (increment e.cursor_row) == no_line)) [
      | inl h ↦ rw h p
      | inr h ↦ rw h (select-IsPlaced (row_down e) (row_down-IsPlaced e p))
    ]

select_up-IsPlaced : (e : TextEditor) → IsPlaced e → IsPlaced (select_up e)
unfolding select_up
select_up-IsPlaced e p =
    let there = not (get_line_length e.buffer (e.cursor_row - 1) == no_line) in
    elim (Bool-cases (ltb 0 e.cursor_row && there)) [
      | inr h ↦ rw h p
      | inl h ↦ rw h (select-IsPlaced (row_up e) (row_up-IsPlaced e p))
    ]

-- Every key of the visual mode.
pub process_visual_mode-IsPlaced :
    (e : TextEditor) (c : ℕ)
    → IsPlaced e
    → is_visual e.mode ≡ true
    → IsPlaced (process_visual_mode e c)
unfolding process_visual_mode
process_visual_mode-IsPlaced e c p mode = elim (Bool-cases (c == b'a')) [
  | inl k ↦ rw k (switch_to_insert_mode-IsPlaced e p)
  | inr k1 ↦ elim (Bool-cases (c == b's')) [
    | inl k ↦ rw (k1, k) (delete_selection-IsPlaced e p mode)
    | inr k2 ↦ elim (Bool-cases (c == b'J')) [
      | inl k ↦ rw (k1, k2, k) (select_down-IsPlaced e p)
      | inr k3 ↦ elim (Bool-cases (c == b'K')) [
        | inl k ↦ rw (k1, k2, k3, k) (select_up-IsPlaced e p)
        | inr k4 ↦ rw (k1, k2, k3, k4) p
      ]
    ]
  ]
]
