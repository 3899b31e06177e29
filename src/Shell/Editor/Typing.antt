-- ===== src/Shell/Editor/Typing.antt =====
-- The keys of the insert mode: none writes out of bounds, and the cursor stays true.
use pocky.Common.{
  ℕ, zero, suc, ◌+◌, ◌-◌, ◌<◌, ◌≤◌, ◌≡◌, refl, ap, ◌∙◌, sym, true, false, ◌&&◌, ◌||◌, some, List,
  [], ◌∷◌, ◌++◌, length, get_or, take, drop, length-drop, if◌then◌else◌, ltb, leb, ◌==◌, arith,
  Bool-cases, inl, inr,
}
use pocky.Shell.Editor.Lines.{newline}
use pocky.Shell.Editor.Places.{
  row_at, col_at, row_at-suc, col_at-suc, row_at_prefix, col_at_prefix, length-take_append,
  get_or-take_append, row_at-le, col_at-le, forward_start-col_at,
}
use pocky.Shell.Editor.Placed.{IsPlaced, is_visual, one_back, scroll_down_to-IsPlaced}
use pocky.Shell.Editor.Modes.{
  insert_at_cursor, remove_before_cursor, after_backspace, type_char, type_newline, key_backspace,
  process_insert_mode,
}
use pocky.Shell.Editor.{TextEditor, max_buffer_size, increment, ctrl_s, ctrl_q}

abbrev with_char : TextEditor → ℕ → List ℕ
with_char e c = take e.cursor_pos e.buffer ++ (c ∷ drop e.cursor_pos e.buffer)

abbrev without_char : TextEditor → List ℕ
without_char e = take (e.cursor_pos - 1) e.buffer ++ drop e.cursor_pos e.buffer

module _ (e : TextEditor) (p : IsPlaced e) (mode : is_visual e.mode ≡ false) where
  insert_inside : (c : ℕ) → insert_at_cursor e c ≡ some (with_char e c)
  unfolding insert_at_cursor
  insert_inside c = ground (arith, p.inside)

  remove_inside : remove_before_cursor e ≡ some (without_char e)
  unfolding remove_before_cursor
  remove_inside = ground (arith, p.inside)

  size_with : (c : ℕ) → length (with_char e c) ≡ length e.buffer + 1
  size_with c = omega (
    arith,
    length-take_append e.buffer (c ∷ drop e.cursor_pos e.buffer) e.cursor_pos p.inside,
    length-drop e.cursor_pos e.buffer,
    p.inside,
  )

  next_pos : increment e.cursor_pos ≡ suc e.cursor_pos
  next_pos = omega (arith, p.inside, p.short)

  -- The place behind the character that was typed.
  row_after :
      (c : ℕ)
      → row_at 0 (with_char e c) (suc e.cursor_pos)
        ≡ (if c == newline then e.cursor_row + 1 else e.cursor_row)
  row_after c =
      let rest = c ∷ drop e.cursor_pos e.buffer in
      let same = row_at_prefix 0 e.buffer rest e.cursor_pos e.cursor_pos (omega arith) p.inside in
      row_at-suc 0 (with_char e c) e.cursor_pos (omega (arith, size_with c, p.inside))
      ∙ rw
          (
            get_or-take_append e.buffer (drop e.cursor_pos e.buffer) c e.cursor_pos p.inside,
            same,
            p.at_row,
          )
          refl

  col_after :
      (c : ℕ)
      → col_at 0 (with_char e c) (suc e.cursor_pos) ≡ (if c == newline then 0 else e.cursor_col + 1)
  col_after c =
      let rest = c ∷ drop e.cursor_pos e.buffer in
      let same = col_at_prefix 0 e.buffer rest e.cursor_pos e.cursor_pos (omega arith) p.inside in
      col_at-suc 0 (with_char e c) e.cursor_pos (omega (arith, size_with c, p.inside))
      ∙ rw
          (
            get_or-take_append e.buffer (drop e.cursor_pos e.buffer) c e.cursor_pos p.inside,
            same,
            p.at_col,
          )
          refl

  type_char-IsPlaced :
      (c : ℕ)
      → leb 32 c ≡ true
      → length e.buffer < max_buffer_size - 1
      → IsPlaced (type_char e (with_char e c))
  unfolding type_char
  type_char-IsPlaced c printable room = record {
    inside = omega (arith, size_with c, p.inside, next_pos);
    at_row = rw next_pos (ground (arith, row_after c));
    at_col = rw next_pos (
        ground
          (arith, col_after c, p.at_col, col_at-le 0 e.buffer e.cursor_pos, p.inside, p.short));
    short = omega (arith, size_with c, room);
    selected = λ v. absurd (ground (arith, v, mode));
  }

  type_newline-IsPlaced :
      length e.buffer < max_buffer_size - 1 → IsPlaced (type_newline e (with_char e newline))
  unfolding type_newline
  type_newline-IsPlaced room =
      let bound = row_at-le 0 e.buffer e.cursor_pos in
      scroll_down_to-IsPlaced _ (record {
        inside = omega (arith, size_with newline, p.inside, next_pos);
        at_row = rw next_pos (omega (arith, row_after newline, p.at_row, bound, p.inside, p.short));
        at_col = rw next_pos (sym (col_after newline));
        short = omega (arith, size_with newline, room);
        selected = λ v. absurd (ground (arith, v, mode));
      })

  after_backspace-IsPlaced : 0 < e.cursor_pos → IsPlaced (after_backspace e (without_char e))
  unfolding after_backspace
  after_backspace-IsPlaced h =
      let n = e.cursor_pos - 1 in
      let rest = drop e.cursor_pos e.buffer in
      let within : n ≤ length e.buffer = omega (arith, p.inside) in
      let size = length-take_append e.buffer rest n within in
      let left = length-drop e.cursor_pos e.buffer in
      let back = one_back e p h in
      let rows = row_at_prefix 0 e.buffer rest n n (omega arith) within in
      let cols = col_at_prefix 0 e.buffer rest n n (omega arith) within in
      let start = forward_start-col_at (without_char e) n 0 0 0 (omega (arith, size)) refl in
      let bound = row_at-le 0 e.buffer n in
      record {
        inside = omega (arith, size);
        at_row = ground (arith, rows, back.0, bound, within, p.short);
        at_col = ground (arith, cols, back.1, start);
        short = omega (arith, size, left, p.short, p.inside);
        selected = λ v. absurd (ground (arith, v, mode));
      }

  -- In the insert mode every key gives a state, and the cursor is true in it: no call of `memmove`
  -- goes out of bounds.
  pub process_insert_mode-IsPlaced :
      (c : ℕ) → (e' : TextEditor) × (process_insert_mode e c ≡ some e') × IsPlaced e'
  unfolding process_insert_mode
  process_insert_mode-IsPlaced c =
      let fits = ltb (length e.buffer) (max_buffer_size - 1) in
      elim (Bool-cases ((c == ctrl_s) || (c == ctrl_q))) [
        | inl k ↦ rw k (e, refl, p)
        | inr k1 ↦ elim (Bool-cases ((c == key_backspace) && ltb 0 e.cursor_pos)) [
          | inl k ↦
              rw (k1, k, remove_inside)
                (after_backspace e (without_char e), refl, after_backspace-IsPlaced (ground arith))
          | inr k2 ↦ elim (Bool-cases (leb 32 c && (ltb c 127 && fits))) [
            | inl k ↦
                rw (k1, k2, k, insert_inside c)
                  (
                    type_char e (with_char e c),
                    refl,
                    type_char-IsPlaced c (ground arith) (ground arith),
                  )
            | inr k3 ↦ elim (Bool-cases (((c == 13) || (c == 10)) && fits)) [
              | inl k ↦
                  rw (k1, k2, k3, k, insert_inside newline)
                    (
                      type_newline e (with_char e newline),
                      refl,
                      type_newline-IsPlaced (ground arith),
                    )
              | inr k4 ↦ rw (k1, k2, k3, k4) (e, refl, p)
            ]
          ]
        ]
      ]

take_insert : (xs ys : List ℕ) (n : ℕ) → n ≤ length xs → take n (take n xs ++ ys) ≡ take n xs
take_insert xs ys zero h = refl
take_insert [] ys (suc n) h = absurd (omega arith)
take_insert (x ∷ xs) ys (suc n) h = ap (λ zs. x ∷ zs) (take_insert xs ys n (omega arith))

drop_insert : (xs ys : List ℕ) (c n : ℕ) → n ≤ length xs → drop (suc n) (take n xs ++ (c ∷ ys)) ≡ ys
drop_insert xs ys c zero h = refl
drop_insert [] ys c (suc n) h = absurd (omega arith)
drop_insert (x ∷ xs) ys c (suc n) h = drop_insert xs ys c n (omega arith)

take-drop : (xs : List ℕ) (n : ℕ) → take n xs ++ drop n xs ≡ xs
take-drop xs zero = refl
take-drop [] (suc n) = refl
take-drop (x ∷ xs) (suc n) = ap (λ zs. x ∷ zs) (take-drop xs n)

typed :
    (e : TextEditor) (c : ℕ)
    → IsPlaced e
    → leb 32 c && ltb c 127 ≡ true
    → length e.buffer < max_buffer_size - 1
    → process_insert_mode e c ≡ some (type_char e (with_char e c))
unfolding process_insert_mode insert_at_cursor
typed e c p printable room =
    let k1 : (c == ctrl_s) || (c == ctrl_q) ≡ false = ground arith in
    let k2 : (c == key_backspace) && ltb 0 e.cursor_pos ≡ false = ground arith in
    let k3 : leb 32 c && (ltb c 127 && ltb (length e.buffer) (max_buffer_size - 1)) ≡ true =
      ground arith in
    let inside : ltb (length e.buffer) e.cursor_pos ≡ false = ground (arith, p.inside) in
    rw (k1, k2, k3, inside) refl

backspaced :
    (e : TextEditor) (c : ℕ)
    → IsPlaced e
    → leb 32 c && ltb c 127 ≡ true
    → process_insert_mode (type_char e (with_char e c)) key_backspace
      ≡ some (record e { modified = true })
unfolding process_insert_mode type_char after_backspace remove_before_cursor
backspaced e c p printable =
    let rest = drop e.cursor_pos e.buffer in
    let w = with_char e c in
    let size = length-take_append e.buffer (c ∷ rest) e.cursor_pos p.inside in
    let next : increment e.cursor_pos ≡ suc e.cursor_pos = omega (arith, p.inside, p.short) in
    let back : suc e.cursor_pos - 1 ≡ e.cursor_pos = omega arith in
    let some_pos : ltb 0 (suc e.cursor_pos) ≡ true = ground arith in
    let inside : ltb (length w) (suc e.cursor_pos) ≡ false = ground (arith, size) in
    let text : take e.cursor_pos w ++ drop (suc e.cursor_pos) w ≡ e.buffer =
      rw
        (
          take_insert e.buffer (c ∷ rest) e.cursor_pos p.inside,
          drop_insert e.buffer rest c e.cursor_pos p.inside,
        )
        (take-drop e.buffer e.cursor_pos) in
    let other : (get_or w e.cursor_pos 0 == newline) ≡ false =
      rw (get_or-take_append e.buffer rest c e.cursor_pos p.inside) (ground arith) in
    let bound = col_at-le 0 e.buffer e.cursor_pos in
    let wide : ltb 0 (increment e.cursor_col) ≡ true =
      ground (arith, p.at_col, bound, p.inside, p.short) in
    let col : increment e.cursor_col - 1 ≡ e.cursor_col =
      omega (arith, p.at_col, bound, p.inside, p.short) in
    rw (next, some_pos, inside, back, text, other, wide, col) refl

-- Where the cursor's position, row and column name one place of the text, the insert mode's handling
-- of a printable character that fits in the buffer and of a backspace after it leaves the editor
-- as it was, but for the mark that it is modified.
pub backspace-type_char :
    (e : TextEditor) (c : ℕ)
    → IsPlaced e
    → leb 32 c && ltb c 127 ≡ true
    → length e.buffer < max_buffer_size - 1
    → (e1 : TextEditor) × (process_insert_mode e c ≡ some e1)
      × (process_insert_mode e1 key_backspace ≡ some (record e { modified = true }))
backspace-type_char e c p printable room =
    let w = with_char e c in (type_char e w, typed e c p printable room, backspaced e c p printable)
