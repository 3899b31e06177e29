-- ===== src/Shell/Editor/Saving.antt =====
-- Opening, saving and closing a file, and where the cursor is afterwards.
use pocky.Common.{
  ℕ, zero, suc, ◌+◌, ◌<◌, ◌≤◌, ◌≡◌, refl, ap, ◌∙◌, sym, Bool, true, false, not, List, [], ◌∷◌,
  length, take, bit_and, if◌then◌else◌, ltb, leb, ◌==◌, arith, Bool-cases, Option-cases, List-cases,
  inl, inr, ◌⊎◌,
}
use pocky.Shell.Editor.Lines.{newline}
use pocky.Shell.Editor.Places.{row_at, col_at}
use pocky.Shell.Editor.Placed.{IsPlaced, is_visual}
use pocky.Shell.Editor.File.{
  Found, Files, strip, saved, opened, close, write_text, create_and_write, save_stripped, save,
  open_file,
}
use pocky.Shell.Editor.{TextEditor, max_buffer_size}

strip_cons : (c : ℕ) (cs : List ℕ) → (strip (c ∷ cs) ≡ []) ⊎ (strip (c ∷ cs) ≡ c ∷ strip cs)
unfolding strip
strip_cons c cs = elim (List-cases (strip cs)) [
  | inr (d, ds, e) ↦ inr (rw e refl)
  | inl e ↦ elim (Bool-cases (c == newline)) [
    | inl nl ↦ inl (rw (e, nl) refl)
    | inr inner ↦ inr (rw (e, inner) refl)
  ]
]

-- What is left by `strip` is the start of the text.
strip_places :
    (r k : ℕ) (xs : List ℕ) (n : ℕ)
    → n ≤ length (strip xs)
    → (row_at r (strip xs) n ≡ row_at r xs n) × (col_at k (strip xs) n ≡ col_at k xs n)
unfolding row_at col_at strip
strip_places r k xs zero h = (refl, refl)
strip_places r k [] (suc n) h = (refl, refl)
strip_places r k (c ∷ cs) (suc n) h = elim (strip_cons c cs) [
  | inl e ↦ absurd (omega (arith, ap length e))
  | inr e ↦
      let rest =
        strip_places (if c == newline then r + 1 else r) (if c == newline then 0 else k + 1) cs n
          (omega (arith, ap length e)) in
      rw e rest
]

strip-le : (xs : List ℕ) → length (strip xs) ≤ length xs
unfolding strip
strip-le [] = omega arith
strip-le (c ∷ cs) = elim (strip_cons c cs) [
  | inl e ↦ omega (arith, ap length e)
  | inr e ↦ omega (arith, ap length e, strip-le cs)
]

stripped-IsPlaced :
    (e : TextEditor)
    → IsPlaced e
    → is_visual e.mode ≡ false
    → ltb (length (strip e.buffer)) e.cursor_pos ≡ false
    → IsPlaced (record e { buffer = strip e.buffer })
stripped-IsPlaced e p mode within =
    let same = strip_places 0 0 e.buffer e.cursor_pos (ground arith) in
    record {
      inside = ground arith;
      at_row = p.at_row ∙ sym (same.0);
      at_col = p.at_col ∙ sym (same.1);
      short = omega (arith, strip-le e.buffer, p.short);
      selected = λ v. absurd (ground (arith, v, mode));
    }

saved-IsPlaced : (e : TextEditor) → IsPlaced e → IsPlaced (saved e)
unfolding saved
saved-IsPlaced e p =
    let within : ltb (length e.buffer) e.cursor_pos ≡ false = ground (arith, p.inside) in
    rw within (record {
      inside = p.inside;
      at_row = p.at_row;
      at_col = p.at_col;
      short = p.short;
      selected = p.selected;
    })

pub close-IsPlaced : (e : TextEditor) → IsPlaced e → IsPlaced (close e)
unfolding close row_at col_at is_visual
close-IsPlaced e p = elim (Bool-cases e.active) [
  | inr h ↦ simp h p
  | inl h ↦ rw h (record {
    inside = omega arith;
    at_row = refl;
    at_col = refl;
    short = omega arith;
    selected = λ v. absurd (ground arith);
  })
]

opened-IsPlaced :
    (e : TextEditor) (text : List ℕ) → length text < max_buffer_size → IsPlaced (opened e text)
unfolding opened row_at col_at is_visual
opened-IsPlaced e text h = record {
  inside = omega arith;
  at_row = refl;
  at_col = refl;
  short = h;
  selected = λ v. absurd (ground arith);
}

module _ {F : Type 0} (files : Files F) where
  write_text-IsPlaced :
      (f : F) (e : TextEditor) (found : Found)
      → IsPlaced e
      → IsPlaced (write_text files f e found).1
  unfolding write_text
  write_text-IsPlaced f e found p =
      let written = files.write_file f found.cluster e.buffer in
      let updated = files.update_file_size written.0 e.filename (length e.buffer) in
      elim (Bool-cases written.1) [
        | inr h ↦ rw h p
        | inl h ↦ elim (Bool-cases updated.1) [
          | inr h' ↦ rw (h, h') p
          | inl h' ↦ rw (h, h') (saved-IsPlaced e p)
        ]
      ]

  create_and_write-IsPlaced :
      (f : F) (e : TextEditor) → IsPlaced e → IsPlaced (create_and_write files f e).1
  unfolding create_and_write
  create_and_write-IsPlaced f e p =
      let created = files.create_file f e.filename in
      elim (Bool-cases created.1) [
        | inr h ↦ rw h p
        | inl h ↦ elim (Option-cases (files.find_file created.0 e.filename)) [
          | inl n ↦ rw (h, n) p
          | inr (found, n) ↦ rw (h, n) (write_text-IsPlaced created.0 e found p)
        ]
      ]

  save_stripped-IsPlaced :
      (f : F) (e : TextEditor) → IsPlaced e → IsPlaced (save_stripped files f e).1
  unfolding save_stripped
  save_stripped-IsPlaced f e p = elim (Option-cases (files.find_file f e.filename)) [
    | inl n ↦ rw (save_stripped, n) (create_and_write-IsPlaced f e p)
    | inr (found, n) ↦ rw (save_stripped, n) (write_text-IsPlaced f e found p)
  ]

  either-IsPlaced :
      (b : Bool) (x y : F × TextEditor × Bool)
      → IsPlaced x.1
      → IsPlaced y.1
      → IsPlaced (if b then x else y).1
  either-IsPlaced true x y p q = p
  either-IsPlaced false x y p q = q

  pub save-IsPlaced :
      (f : F) (e : TextEditor)
      → IsPlaced e
      → is_visual e.mode ≡ false
      → ltb (length (strip e.buffer)) e.cursor_pos ≡ false
      → IsPlaced (save files f e).1
  unfolding save
  save-IsPlaced f e p mode within =
      either-IsPlaced e.active _ (f, e, false)
        (save_stripped-IsPlaced f (record e { buffer = strip e.buffer })
          (stripped-IsPlaced e p mode within))
        p

  -- Where `open` succeeds, the cursor is at a place of the text, its row and column are those of that
  -- place, and the text fits in the buffer.
  pub open_file-IsPlaced :
      (f : F) (e : TextEditor) (filename : List ℕ)
      → (open_file files f e filename).1 ≡ true
      → IsPlaced (open_file files f e filename).0
  unfolding open_file
  open_file-IsPlaced f e filename ok =
      let named = record e { filename = take 255 filename } in
      elim (Bool-cases (length filename == 0)) [
        | inl h ↦ let bad : false ≡ true = rw h at ok in absurd (ground arith)
        | inr h ↦ elim (Option-cases (files.find_file f filename)) [
          | inl n ↦ rw (h, n) (opened-IsPlaced named [] (omega arith))
          | inr (found, n) ↦ elim (Bool-cases (not (bit_and found.attributes 0x10 == 0))) [
            | inl d ↦ let bad : false ≡ true = rw (h, n, d) at ok in absurd (ground arith)
            | inr d ↦ elim (Bool-cases (leb max_buffer_size found.size)) [
              | inl b ↦ let bad : false ≡ true = rw (h, n, d, b) at ok in absurd (ground arith)
              | inr b ↦
                  let size = files.length-read_file f found.cluster found.size in
                  rw (h, n, d, b)
                    (opened-IsPlaced named (files.read_file f found.cluster found.size)
                      (ground (arith, size)))
            ]
          ]
        ]
      ]
