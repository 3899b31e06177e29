-- ===== src/Shell/Editor/Placed.antt =====
-- The cursor's position, row and column name the same place in the text, through every key of the
-- normal and the visual mode.
use pocky.Common.{
  ℕ, suc, ◌+◌, ◌-◌, ◌<◌, ◌≤◌, ◌≡◌, ap, ◌∙◌, sym, Bool, true, false, not, ◌&&◌, ◌||◌, List, length,
  get_or, drop, length-drop, if◌then◌else◌, ltb, leb, ◌==◌, arith, Bool-cases, inl, inr,
}
use pocky.Shell.Editor.Lines.{newline, no_line, get_line_length, seek}
use pocky.Shell.Editor.Places.{
  row_at, col_at, row_at-suc, col_at-suc, row_at_prefix, col_at_prefix, length-take_append,
  col_at-le, row_at_end,
}
use pocky.Shell.Editor.Search.{seek_line, before_line_end}
use pocky.Shell.Editor.{
  TextEditor, EditorMode, max_buffer_size, increment, decrement, update_cursor_pos,
  switch_to_visual_mode, switch_to_normal_mode, switch_to_insert_mode, delete_char, scroll_up_to,
  scroll_down_to, go_to_row, at_most, row_up, row_down, key_h, key_l, key_s, process_normal_mode,
}

unfoldable pub is_visual : EditorMode → Bool
is_visual EditorMode.normal = false
is_visual EditorMode.insert = false
is_visual EditorMode.visual = true

-- The rows of a text, counted from 0: the last of them.
abbrev pub last_row : List ℕ → ℕ
last_row text = row_at 0 text (length text)

pub record IsPlaced (e : TextEditor) : Type 0 where
  pub inside : e.cursor_pos ≤ length e.buffer
  pub at_row : e.cursor_row ≡ row_at 0 e.buffer e.cursor_pos
  pub at_col : e.cursor_col ≡ col_at 0 e.buffer e.cursor_pos
  pub short : length e.buffer < max_buffer_size
  pub selected :
      is_visual e.mode ≡ true
      → (e.selection_start_row ≤ last_row e.buffer) × (e.selection_end_row ≤ last_row e.buffer)

pub switch_to_insert_mode-IsPlaced :
    (e : TextEditor) → IsPlaced e → IsPlaced (switch_to_insert_mode e)
unfolding switch_to_insert_mode is_visual
switch_to_insert_mode-IsPlaced e p = record {
  inside = p.inside;
  at_row = p.at_row;
  at_col = p.at_col;
  short = p.short;
  selected = λ h. absurd (ground arith);
}

pub switch_to_normal_mode-IsPlaced :
    (e : TextEditor) → IsPlaced e → IsPlaced (switch_to_normal_mode e)
unfolding switch_to_normal_mode is_visual
switch_to_normal_mode-IsPlaced e p = record {
  inside = p.inside;
  at_row = p.at_row;
  at_col = p.at_col;
  short = p.short;
  selected = λ h. absurd (ground arith);
}

pub cursor_row-le : (e : TextEditor) → IsPlaced e → e.cursor_row ≤ last_row e.buffer
cursor_row-le e p = omega (arith, p.at_row, row_at_end 0 e.buffer e.cursor_pos p.inside)

pub switch_to_visual_mode-IsPlaced :
    (e : TextEditor) → IsPlaced e → IsPlaced (switch_to_visual_mode e)
unfolding switch_to_visual_mode
switch_to_visual_mode-IsPlaced e p = record {
  inside = p.inside;
  at_row = p.at_row;
  at_col = p.at_col;
  short = p.short;
  selected = λ h. (cursor_row-le e p, cursor_row-le e p);
}

-- Scrolling moves the window only.
pub scroll_up_to-IsPlaced : (e : TextEditor) → IsPlaced e → IsPlaced (scroll_up_to e)
unfolding scroll_up_to
scroll_up_to-IsPlaced e p = elim (Bool-cases (ltb e.cursor_row e.screen_row)) [
  | inl h ↦ rw h (record {
    inside = p.inside;
    at_row = p.at_row;
    at_col = p.at_col;
    short = p.short;
    selected = p.selected;
  })
  | inr h ↦ rw h p
]

pub scroll_down_to-IsPlaced : (e : TextEditor) → IsPlaced e → IsPlaced (scroll_down_to e)
unfolding scroll_down_to
scroll_down_to-IsPlaced e p = elim (Bool-cases (leb (e.screen_row + 25 - 1) e.cursor_row)) [
  | inl h ↦ rw h (record {
    inside = p.inside;
    at_row = p.at_row;
    at_col = p.at_col;
    short = p.short;
    selected = p.selected;
  })
  | inr h ↦ rw h p
]

-- Any line that is there can be gone to, in the column of before or at the line's end.
go_to_row-IsPlaced :
    (row : ℕ) (e : TextEditor)
    → IsPlaced e
    → (get_line_length e.buffer row == no_line) ≡ false
    → IsPlaced (go_to_row row (get_line_length e.buffer row) e)
unfolding go_to_row update_cursor_pos
go_to_row-IsPlaced row e p there =
    let len = get_line_length e.buffer row in
    let col = at_most e.cursor_col len in
    let found = seek_line row col e.buffer there (ground arith) in
    let place : seek row col e.buffer 0 0 0 ≡ found.steps = omega (arith, found.arrives) in
    record {
      inside = omega (arith, place, found.inside);
      at_row = rw place (sym found.at_row);
      at_col = rw place (sym found.at_col);
      short = p.short;
      selected = p.selected;
    }

pub row_up-IsPlaced : (e : TextEditor) → IsPlaced e → IsPlaced (row_up e)
unfolding row_up
row_up-IsPlaced e p =
    let len = get_line_length e.buffer (e.cursor_row - 1) in
    elim (Bool-cases (ltb 0 e.cursor_row && not (len == no_line))) [
      | inr stay ↦ rw stay p
      | inl go ↦
          rw go (scroll_up_to-IsPlaced _ (go_to_row-IsPlaced (e.cursor_row - 1) e p (ground arith)))
    ]

pub row_down-IsPlaced : (e : TextEditor) → IsPlaced e → IsPlaced (row_down e)
unfolding row_down
row_down-IsPlaced e p =
    let len = get_line_length e.buffer (increment e.cursor_row) in
    elim (Bool-cases (len == no_line)) [
      | inl stay ↦ rw stay p
      | inr go ↦
          rw go (scroll_down_to-IsPlaced _ (go_to_row-IsPlaced (increment e.cursor_row) e p go))
    ]

-- The place before one that is not at the start of the text.
pub one_back :
    (e : TextEditor)
    → IsPlaced e
    → 0 < e.cursor_pos
    → (e.cursor_row ≡ (
        if get_or e.buffer (e.cursor_pos - 1) 0 == newline
        then row_at 0 e.buffer (e.cursor_pos - 1) + 1
        else row_at 0 e.buffer (e.cursor_pos - 1)))
      × (e.cursor_col ≡ (
          if get_or e.buffer (e.cursor_pos - 1) 0 == newline
          then 0
          else col_at 0 e.buffer (e.cursor_pos - 1) + 1))
one_back e p h =
    let back : e.cursor_pos ≡ suc (e.cursor_pos - 1) = omega arith in
    let room : e.cursor_pos - 1 < length e.buffer = omega (arith, p.inside) in
    (
      p.at_row ∙ (ap (row_at 0 e.buffer) back ∙ row_at-suc 0 e.buffer (e.cursor_pos - 1) room),
      p.at_col ∙ (ap (col_at 0 e.buffer) back ∙ col_at-suc 0 e.buffer (e.cursor_pos - 1) room),
    )

key_h-IsPlaced : (e : TextEditor) → IsPlaced e → IsPlaced (key_h e)
unfolding key_h
key_h-IsPlaced e p = elim (Bool-cases (ltb 0 e.cursor_col)) [
  | inr h ↦ rw h p
  | inl h ↦
      let some_pos : 0 < e.cursor_pos =
        ground (arith, p.at_col, col_at-le 0 e.buffer e.cursor_pos) in
      let (row, col) = one_back e p some_pos in
      let prev : decrement e.cursor_pos ≡ e.cursor_pos - 1 = omega (arith, p.inside, p.short) in
      rw h (record {
        inside = omega (arith, p.inside, prev);
        at_row = rw prev (ground (arith, row, col));
        at_col = rw prev (ground (arith, col));
        short = p.short;
        selected = p.selected;
      })
]

key_l-IsPlaced :
    (e : TextEditor)
    → IsPlaced e
    → (get_line_length e.buffer e.cursor_row == no_line) ≡ false
    → IsPlaced (key_l e)
unfolding key_l
key_l-IsPlaced e p there =
    elim (Bool-cases (ltb e.cursor_col (get_line_length e.buffer e.cursor_row))) [
      | inr h ↦ rw h p
      | inl h ↦
          let (room, inner) =
            before_line_end e.cursor_row e.buffer e.cursor_pos p.inside (sym p.at_row) there
              (ground (arith, p.at_col)) in
          let next : increment e.cursor_pos ≡ suc e.cursor_pos = omega (arith, p.short) in
          let bound = col_at-le 0 e.buffer e.cursor_pos in
          rw h (record {
            inside = omega (arith, next);
            at_row = rw next (p.at_row ∙ ground (arith, row_at-suc 0 e.buffer e.cursor_pos room));
            at_col =
                rw next (
                  ground
                    (arith, col_at-suc 0 e.buffer e.cursor_pos room, p.at_col, p.short, bound));
            short = p.short;
            selected = p.selected;
          })
    ]

-- Taking out the character under the cursor leaves the cursor where it is.
pub delete_char-IsPlaced :
    (e : TextEditor) → IsPlaced e → is_visual e.mode ≡ false → IsPlaced (delete_char e)
unfolding delete_char
delete_char-IsPlaced e p mode = elim (Bool-cases (leb (length e.buffer) e.cursor_pos)) [
  | inl h ↦ rw h p
  | inr h ↦
      let rest = drop (e.cursor_pos + 1) e.buffer in
      let size = length-take_append e.buffer rest e.cursor_pos p.inside in
      let left = length-drop (e.cursor_pos + 1) e.buffer in
      rw h (record {
        inside = omega (arith, size);
        at_row =
            p.at_row
            ∙ sym (row_at_prefix 0 e.buffer rest e.cursor_pos e.cursor_pos (omega arith) p.inside);
        at_col =
            p.at_col
            ∙ sym (col_at_prefix 0 e.buffer rest e.cursor_pos e.cursor_pos (omega arith) p.inside);
        short = ground (arith, size, left, p.short);
        selected = λ v. absurd (ground (arith, v, mode));
      })
]

key_s-IsPlaced : (e : TextEditor) → IsPlaced e → is_visual e.mode ≡ false → IsPlaced (key_s e)
unfolding key_s
key_s-IsPlaced e p mode = elim (Bool-cases (ltb e.cursor_pos (length e.buffer))) [
  | inr h ↦ rw h (switch_to_insert_mode-IsPlaced e p)
  | inl h ↦
      let d = delete_char-IsPlaced e p mode in
      rw h (
        switch_to_insert_mode-IsPlaced (record (delete_char e) { modified = true })
          (record {
            inside = d.inside;
            at_row = d.at_row;
            at_col = d.at_col;
            short = d.short;
            selected = d.selected;
          }))
]

-- Every key of the normal mode, `l` only on a line that `get_line_length` knows.
pub process_normal_mode-IsPlaced :
    (e : TextEditor) (c : ℕ)
    → IsPlaced e
    → is_visual e.mode ≡ false
    → (c == b'l') && (get_line_length e.buffer e.cursor_row == no_line) ≡ false
    → IsPlaced (process_normal_mode e c)
unfolding process_normal_mode
process_normal_mode-IsPlaced e c p mode known = elim (Bool-cases ((c == b'i') || (c == b'a'))) [
  | inl k ↦ rw k (switch_to_insert_mode-IsPlaced e p)
  | inr k1 ↦ elim (Bool-cases (c == b's')) [
    | inl k ↦ rw (k1, k) (key_s-IsPlaced e p mode)
    | inr k2 ↦ elim (Bool-cases ((c == b'J') || (c == b'K'))) [
      | inl k ↦ rw (k1, k2, k) (switch_to_visual_mode-IsPlaced e p)
      | inr k3 ↦ elim (Bool-cases (c == b'h')) [
        | inl k ↦ rw (k1, k2, k3, k) (key_h-IsPlaced e p)
        | inr k4 ↦ elim (Bool-cases (c == b'l')) [
          | inl k ↦ rw (k1, k2, k3, k4, k) (key_l-IsPlaced e p (rw k at known))
          | inr k5 ↦ elim (Bool-cases (c == b'k')) [
            | inl k ↦ rw (k1, k2, k3, k4, k5, k) (row_up-IsPlaced e p)
            | inr k6 ↦ elim (Bool-cases (c == b'j')) [
              | inl k ↦ rw (k1, k2, k3, k4, k5, k6, k) (row_down-IsPlaced e p)
              | inr k7 ↦ rw (k1, k2, k3, k4, k5, k6, k7) p
            ]
          ]
        ]
      ]
    ]
  ]
]
