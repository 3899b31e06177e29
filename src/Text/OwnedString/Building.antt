-- ===== src/Text/OwnedString/Building.antt =====
-- Construction, copying and clearing of a `String`, kernel/src/lib/string.hpp.
use pocky.Common.{
  ℕ, ◌+◌, ◌≡◌, refl, ap, sym, ◌∙◌, Bool, true, false, some, List, [], ◌∷◌, ◌++◌, length, take,
  replicate, length-append, length-replicate, ◌==◌, arith, Bool-cases, ==_iff, inl, inr, Option,
  none, if◌then◌else◌, ◌<◌,
}
use pocky.Text.OwnedString.{String, copy_in, cells_of, from_chars, copy, clear}
use pocky.Text.OwnedString.Content.{chars, IsValid}
use pocky.Text.OwnedString.Cells.{length-take, take_all, copy_in-first, length-copy_in, take-take}

-- A string made of a C string stands for its characters.
chars-from_chars :
    (junk : ℕ) (str : List ℕ)
    → (chars (from_chars junk (some str)) ≡ str) × IsValid (from_chars junk (some str))
unfolding chars from_chars cells_of
chars-from_chars junk str =
    let with_zero = length-append str (0 ∷ []) in
    let fresh_length = length-replicate (length str + 1) junk in
    let one : length {A = ℕ} (0 ∷ []) ≡ 1 = refl in
    (
      copy_in-first (length str) (str ++ (0 ∷ [])) (replicate (length str + 1) junk) (omega arith)
          ∙ take_all str (0 ∷ []),
      record {
        counted =
            length-copy_in 0 (str ++ (0 ∷ [])) (replicate (length str + 1) junk) (omega arith)
            ∙ fresh_length;
        room = inr (omega arith);
      },
    )

-- In a valid string without capacity there are no characters.
size_zero : (s : String) → IsValid s → s.capacity ≡ 0 → s.size ≡ 0
size_zero s valid e = elim (valid.room) [
  | inl none_chars ↦ none_chars
  | inr room ↦ absurd (omega (arith, room, e))
]

if_cells :
    (t : Bool) (xs : List ℕ)
    → cells_of (record { cells = if t then none else some xs; size = 0; capacity = 0 })
      ≡ (if t then [] else xs)
unfolding cells_of
if_cells true xs = refl
if_cells false xs = refl

abbrev copied : ℕ → String → List ℕ
copied junk s = copy_in 0 (take (s.size + 1) (cells_of s)) (replicate s.capacity junk)

cells_of-copy :
    (junk : ℕ) (s : String) (t : Bool)
    → (s.capacity == 0) ≡ t
    → cells_of (copy junk s) ≡ (if t then [] else copied junk s)
unfolding copy cells_of
cells_of-copy junk s t e =
    ap
      (λ u. cells_of (record {
        cells = if u then none else some (copied junk s);
        size = s.size;
        capacity = s.capacity;
      }))
      e
    ∙ if_cells t (copied junk s)

copy_bare :
    (junk : ℕ) (s : String)
    → IsValid s
    → s.capacity ≡ 0
    → cells_of (copy junk s) ≡ []
    → (chars (copy junk s) ≡ chars s) × IsValid (copy junk s)
unfolding chars copy
copy_bare junk s valid e bare =
    let none_chars = size_zero s valid e in
    (
      ap (λ n. take n (cells_of (copy junk s))) none_chars
          ∙ sym (ap (λ n. take n (cells_of s)) none_chars),
      record { counted = ap length bare ∙ sym e; room = inl none_chars },
    )

copy_held :
    (junk : ℕ) (s : String)
    → IsValid s
    → s.size < s.capacity
    → cells_of (copy junk s) ≡ copied junk s
    → (chars (copy junk s) ≡ chars s) × IsValid (copy junk s)
unfolding chars copy
copy_held junk s valid room held =
    let from = take (s.size + 1) (cells_of s) in
    let from_length = length-take (s.size + 1) (cells_of s) (omega (arith, valid.counted, room)) in
    let fresh_length = length-replicate s.capacity junk in
    (
      ap (take s.size) held
          ∙ (copy_in-first s.size from (replicate s.capacity junk) (omega arith)
              ∙ take-take s.size (s.size + 1) (cells_of s) (omega arith)),
      record {
        counted =
            ap length held
            ∙ (length-copy_in 0 from (replicate s.capacity junk) (omega arith) ∙ fresh_length);
        room = inr room;
      },
    )

held_room : (s : String) → IsValid s → (s.capacity == 0) ≡ false → s.size < s.capacity
held_room s valid held = elim (valid.room) [
  | inl none_chars ↦ ground (arith, none_chars, held)
  | inr room ↦ room
]

-- A copy of a valid string is valid and stands for the same text.
chars-copy :
    (junk : ℕ) (s : String) → IsValid s → (chars (copy junk s) ≡ chars s) × IsValid (copy junk s)
chars-copy junk s valid = elim (Bool-cases (s.capacity == 0)) [
  | inl bare ↦
      copy_bare junk s valid ((==_iff s.capacity 0).0 bare) (cells_of-copy junk s true bare)
  | inr held ↦ copy_held junk s valid (held_room s valid held) (cells_of-copy junk s false held)
]

length-cells_of-clear :
    (cells : Option (List ℕ)) (size capacity : ℕ)
    → length (cells_of (record { cells = cells; size = size; capacity = capacity })) ≡ capacity
    → 0 < capacity
    → length (cells_of (clear (record { cells = cells; size = size; capacity = capacity })))
      ≡ capacity
unfolding clear cells_of
length-cells_of-clear none size capacity e h = e
length-cells_of-clear (some cells) size capacity e h =
    let one : length {A = ℕ} (0 ∷ []) ≡ 1 = refl in
    length-copy_in 0 (0 ∷ []) cells (omega arith) ∙ e

-- `clear` leaves a string that has cells without characters, and keeps it valid.
chars-clear : (s : String) → IsValid s → 0 < s.capacity → (chars (clear s) ≡ []) × IsValid (clear s)
unfolding clear chars
chars-clear s valid h = (
  refl,
  record {
    counted = length-cells_of-clear s.cells s.size s.capacity (valid.counted) h;
    room = inl refl;
  },
)
