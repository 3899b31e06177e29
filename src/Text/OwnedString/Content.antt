-- ===== src/Text/OwnedString/Content.antt =====
-- The characters of a `String`, as the operations change them.
use pocky.Common.{
  ℕ, ◌+◌, ◌<◌, ◌≤◌, ◌≡◌, refl, ap, sym, ◌∙◌, Bool, true, false, some, List, [], ◌∷◌, ◌++◌, length,
  take, replicate, length-append, length-replicate, if◌then◌else◌, ltb, ◌==◌, arith, ==_iff, inl,
  inr, ◌⊎◌,
}
use pocky.Text.OwnedString.{
  String, copy_in, cells_of, make_room, append_chars, append_cells, append,
}
use pocky.Text.OwnedString.Cells.{
  append_assoc, append_nil, copy_in-first, length-copy_in, length-take, take-copy_in, take-take,
  take_all, take_whole,
}

-- The text that an object stands for.
unfoldable pub chars : String → List ℕ
chars s = take s.size (cells_of s)

-- The cells are as many as the capacity says, with one more than the characters; without characters there may be
-- none.
pub record IsValid (s : String) : Type 0 where
  pub counted : length (cells_of s) ≡ s.capacity
  pub room : (s.size ≡ 0) ⊎ (s.size < s.capacity)

-- A zero stands behind the characters, where there are cells.
abbrev pub IsTerminated : String → Type 0
IsTerminated s =
    (s.capacity ≡ 0) ⊎ (take (s.size + 1) (cells_of s) ≡ take s.size (cells_of s) ++ (0 ∷ []))

-- In valid cells with characters, there is one cell more.
room-IsValid : (s : String) → IsValid s → ¬ (s.size ≡ 0) → s.size + 1 ≤ length (cells_of s)
room-IsValid s valid some_chars = elim (valid.room) [
  | inl none_chars ↦ absurd (some_chars none_chars)
  | inr room ↦ omega (arith, valid.counted, room)
]

if_lem :
    (P : String → Type 0) (t : Bool) (a b : String)
    → (t ≡ true → P a)
    → (t ≡ false → P b)
    → P (if t then a else b)
if_lem P true a b f g = f refl
if_lem P false a b f g = g refl

pub room_for : (s : String) → IsValid s → s.size ≤ length (cells_of s)
room_for s valid = elim (valid.room) [
  | inl none_chars ↦ omega (arith, none_chars)
  | inr room ↦ omega (arith, valid.counted, room)
]

-- There is room for `n` characters and the zero, and the characters are kept.
make_room-Kept :
    (junk : ℕ) (s : String) (n : ℕ)
    → IsValid s
    → s.size ≤ n
    → (length (cells_of (make_room junk s n)) ≡ (make_room junk s n).capacity)
      × ((n < (make_room junk s n).capacity)
          × (take s.size (cells_of (make_room junk s n)) ≡ chars s))
unfolding make_room cells_of chars
make_room-Kept junk s n valid h =
    let kept = take s.size (cells_of s) in
    let kept_length = length-take s.size (cells_of s) (room_for s valid) in
    let fresh_length = length-replicate (n + 1) junk in
    if_lem
      (λ r.
        (length (cells_of r) ≡ r.capacity)
        × ((n < r.capacity) × (take s.size (cells_of r) ≡ chars s)))
      (ltb s.capacity (n + 1)) _ s
      (λ _. (
        length-copy_in 0 kept (replicate (n + 1) junk) (omega arith) ∙ fresh_length,
        (
          omega arith,
          copy_in-first s.size kept (replicate (n + 1) junk) (omega arith)
              ∙ take-take s.size s.size (cells_of s) (omega arith),
        ),
      ))
      (λ large. (valid.counted, (ground (arith, large), refl)))

abbrev appended : ℕ → String → List ℕ → ℕ → String
appended junk s from n =
    let roomy = make_room junk s (s.size + n) in
    record {
      cells = some (copy_in s.size (take (n + 1) from) (cells_of roomy));
      size = s.size + n;
      capacity = roomy.capacity;
    }

append-some :
    (junk : ℕ) (s : String) (from : List ℕ) (n : ℕ)
    → IsValid s
    → n + 1 ≤ length from
    → take (n + 1) from ≡ take n from ++ (0 ∷ [])
    → (chars (appended junk s from n) ≡ chars s ++ take n from)
      × IsValid (appended junk s from n)
      × IsTerminated (appended junk s from n)
unfolding cells_of chars
append-some junk s from n valid enough ended =
    let roomy = make_room junk s (s.size + n) in
    let kept = make_room-Kept junk s (s.size + n) valid (omega arith) in
    let whole = take (n + 1) from in
    let whole_length = length-take (n + 1) from enough in
    let text =
      take-copy_in s.size whole (cells_of roomy) (omega (arith, kept)) n (omega arith)
      ∙ (ap (λ zs. zs ++ take n whole) (kept.1.1)
          ∙ ap (λ zs. chars s ++ zs) (take-take n (n + 1) from (omega arith))) in
    let more : s.size + n + 1 ≡ s.size + (n + 1) = omega arith in
    (
      text,
      record {
        counted = length-copy_in s.size whole (cells_of roomy) (omega (arith, kept)) ∙ kept.0;
        room = inr (kept.1.0);
      },
      inr (
          ap (λ m. take m (copy_in s.size whole (cells_of roomy))) more
          ∙ (take-copy_in s.size whole (cells_of roomy) (omega (arith, kept)) (n + 1) (omega arith)
              ∙ (ap (λ zs. zs ++ take (n + 1) whole) (kept.1.1)
                  ∙ (ap (λ zs. chars s ++ zs) (take-take (n + 1) (n + 1) from (omega arith) ∙ ended)
                      ∙ (sym (append_assoc (chars s) (take n from) (0 ∷ []))
                          ∙ ap (λ zs. zs ++ (0 ∷ [])) (sym text)))))),
    )

chars-append_cells :
    (junk : ℕ) (s : String) (from : List ℕ) (n : ℕ)
    → IsValid s
    → IsTerminated s
    → (¬ (n ≡ 0) → (n + 1 ≤ length from) × (take (n + 1) from ≡ take n from ++ (0 ∷ [])))
    → (chars (append_cells junk s from n) ≡ chars s ++ take n from)
      × IsValid (append_cells junk s from n)
      × IsTerminated (append_cells junk s from n)
unfolding append_cells chars
chars-append_cells junk s from n valid ended enough =
    if_lem (λ r. (chars r ≡ chars s ++ take n from) × IsValid r × IsTerminated r) (n == 0) s _
      (λ empty. (
        sym (append_nil (chars s)) ∙ ap (λ m. chars s ++ take m from) (sym ((==_iff n 0).0 empty)),
        valid,
        ended,
      ))
      (λ some_chars.
        let source = enough (λ e. ground (arith, e, some_chars)) in
        append-some junk s from n valid source.0 source.1)

-- The cells of a string with characters, as another one takes them.
source_of :
    (s : String)
    → IsValid s
    → IsTerminated s
    → ¬ (s.size ≡ 0)
    → (s.size + 1 ≤ length (cells_of s))
      × (take (s.size + 1) (cells_of s) ≡ take s.size (cells_of s) ++ (0 ∷ []))
source_of s valid (inr ended) some_chars = (room-IsValid s valid some_chars, ended)
source_of s valid (inl bare) some_chars =
    let enough = room-IsValid s valid some_chars in
    absurd (omega (arith, bare, valid.counted, enough))

-- For two strings whose cells are as many as the capacity says, with room for a zero behind the characters and
-- the zero in it where there are cells: appending the one to the other gives the characters of both,
-- and the string is like that after it too.
pub chars-append :
    (junk : ℕ) (s other : String)
    → IsValid s
    → IsTerminated s
    → IsValid other
    → IsTerminated other
    → (chars (append junk s other) ≡ chars s ++ chars other)
      × IsValid (append junk s other)
      × IsTerminated (append junk s other)
unfolding append chars
chars-append junk s other s_valid s_ended other_valid other_ended =
    chars-append_cells junk s (cells_of other) other.size s_valid s_ended
      (source_of other other_valid other_ended)

-- Appending a C string gives its characters behind those of the string, and a zero behind them.
chars-append_chars :
    (junk : ℕ) (s : String) (str : List ℕ)
    → IsValid s
    → IsTerminated s
    → (chars (append_chars junk s (some str)) ≡ chars s ++ str)
      × IsValid (append_chars junk s (some str))
      × IsTerminated (append_chars junk s (some str))
unfolding append_chars
chars-append_chars junk s str valid ended =
    let with_zero = length-append str (0 ∷ []) in
    let one : length {A = ℕ} (0 ∷ []) ≡ 1 = refl in
    let whole : take (length str + 1) (str ++ (0 ∷ [])) ≡ str ++ (0 ∷ []) =
      ap (λ n. take n (str ++ (0 ∷ []))) {x = length str + 1} {y = length (str ++ (0 ∷ []))}
        (omega arith)
      ∙ take_whole (str ++ (0 ∷ [])) in
    let text = take_all str (0 ∷ []) in
    let (same, valid', ended') =
      chars-append_cells junk s (str ++ (0 ∷ [])) (length str) valid ended
        (λ _. (omega arith, whole ∙ ap (λ zs. zs ++ (0 ∷ [])) (sym text))) in
    (same ∙ ap (λ zs. chars s ++ zs) text, valid', ended')
