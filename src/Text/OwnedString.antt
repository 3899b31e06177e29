-- ===== src/Text/OwnedString.antt =====
-- kernel/src/lib/string.hpp: class `String`, a buffer of `m_capacity` cells that holds `m_size` characters and
-- a zero behind them. The argument of an operation is another object than the one it changes.
pub mod Content
pub mod Cells
pub mod Building
pub mod Equality
use pocky.Common.{
  ℕ, zero, suc, ◌+◌, ◌-◌, Bool, true, false, not, ◌&&◌, ◌||◌, Option, none, some, List, [], ◌∷◌,
  ◌++◌, length, take, drop, replicate, if◌then◌else◌, ltb, leb, ◌==◌,
}

-- `data` is `m_data`, with `none` for the null pointer; its cells are characters.
pub record String : Type 0 where
  pub cells : Option (List ℕ)
  pub size : ℕ
  pub capacity : ℕ

abbrev pub empty_string : String
empty_string = record { cells = none; size = 0; capacity = 0 }

-- `memcpy(cells + at, from, length from)`
unfoldable pub copy_in : ℕ → List ℕ → List ℕ → List ℕ
copy_in at from cells = take at cells ++ (from ++ drop (at + length from) cells)

-- The cells of an object, none behind the null pointer.
unfoldable pub cells_of : String → List ℕ
cells_of s = elim s.cells [ none ↦ [] | some cells ↦ cells ]

-- `new char[n]`: what the cells hold before they are written is the parameter `junk`.
module _ (junk : ℕ) where
  abbrev pub new_cells : ℕ → List ℕ
  new_cells n = replicate n junk

  -- From a C string, given by its characters before the zero; `none` is the null pointer.
  unfoldable from_chars : Option (List ℕ) → String
  from_chars none = empty_string
  from_chars (some str) = record {
    cells = some (copy_in 0 (str ++ (0 ∷ [])) (new_cells (length str + 1)));
    size = length str;
    capacity = length str + 1;
  }

  -- The copy constructor, and the assignment from another object.
  unfoldable copy : String → String
  copy other =
      let fresh = copy_in 0 (take (other.size + 1) (cells_of other)) (new_cells other.capacity) in
      record {
        cells = if other.capacity == 0 then none else some fresh;
        size = other.size;
        capacity = other.capacity;
      }

  -- The growing part of `operator+=`: room for `new_size` characters and the zero.
  unfoldable pub make_room : String → ℕ → String
  make_room s new_size =
      if ltb s.capacity (new_size + 1)
      then record s {
        cells = some (copy_in 0 (take s.size (cells_of s)) (new_cells (new_size + 1)));
        capacity = new_size + 1;
      }
      else s

  -- `operator+=` for `n` characters, which `from` holds with the zero behind them.
  unfoldable pub append_cells : String → List ℕ → ℕ → String
  append_cells s from n =
      let roomy = make_room s (s.size + n) in
      if n == 0 then s else record roomy {
        cells = some (copy_in s.size (take (n + 1) from) (cells_of roomy));
        size = s.size + n;
      }

  unfoldable pub append : String → String → String
  append s other = append_cells s (cells_of other) other.size

  unfoldable append_chars : String → Option (List ℕ) → String
  append_chars s none = s
  append_chars s (some str) = append_cells s (str ++ (0 ∷ [])) (length str)

  unfoldable pub reserve : String → ℕ → String
  reserve s new_capacity =
      let kept : List ℕ = elim s.cells [ none ↦ 0 ∷ [] | some cells ↦ take (s.size + 1) cells ] in
      if leb new_capacity s.capacity then s else record s {
        cells = some (copy_in 0 kept (new_cells new_capacity));
        capacity = new_capacity;
      }

  -- `none` is `npos`, the default of `len`.
  unfoldable pub substr : String → ℕ → Option ℕ → String
  substr s pos len =
      let n : ℕ = elim len [
        | none ↦ s.size - pos
        | some n ↦ if ltb s.size (pos + n) then s.size - pos else n
      ] in
      let result = reserve empty_string (n + 1) in
      if leb s.size pos then empty_string else record result {
        size = n;
        cells =
            some
              (copy_in n (0 ∷ []) (copy_in 0 (take n (drop pos (cells_of s))) (cells_of result)));
      }

unfoldable clear : String → String
clear s = record s {
  cells = elim s.cells [ none ↦ none | some cells ↦ some (copy_in 0 (0 ∷ []) cells) ];
  size = 0;
}

-- `memcmp(a, b, n) == 0`
unfoldable pub same_cells : ℕ → List ℕ → List ℕ → Bool
same_cells zero a b = true
same_cells (suc n) [] b = false
same_cells (suc n) (x ∷ a) [] = false
same_cells (suc n) (x ∷ a) (y ∷ b) = (x == y) && same_cells n a b

unfoldable pub equals : String → String → Bool
equals s other =
    if not (s.size == other.size)
    then false
    else if s.size == 0
    then true
    else same_cells s.size (cells_of s) (cells_of other)
