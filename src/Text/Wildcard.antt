-- ===== src/Text/Wildcard.antt =====
-- `match_wildcard` of kernel/src/lib/lib.cpp. A string is the list of its characters before the
-- terminating zero.
pub mod Sound
use pocky.Common.{
  ℕ, Bool, true, false, ◌&&◌, ◌||◌, Option, none, some, List, [], ◌∷◌, if◌then◌else◌, ◌==◌,
}

abbrev pub star : ℕ
star = b'*'

-- `while (*pattern == '*') pattern++; return !*pattern;`
pub only_stars : List ℕ → Bool
only_stars [] = true
only_stars (c ∷ ps) = if c == star then only_stars ps else false

-- `while (*str) { if (match_wildcard(pattern, str)) return true; str++; } return false;`
pub some_tail : (List ℕ → Bool) → List ℕ → Bool
some_tail matches [] = false
some_tail matches (d ∷ s) = matches (d ∷ s) || some_tail matches s

abbrev pub is_empty : List ℕ → Bool
is_empty [] = true
is_empty (c ∷ cs) = false

-- The body of the routine, once both pointers are known not to be null.
pub matches : List ℕ → List ℕ → Bool
matches [] [] = true
matches [] (d ∷ s) = false
matches (c ∷ ps) [] = only_stars (c ∷ ps)
matches (c ∷ ps) (d ∷ s) =
    let after_star = if is_empty ps then true else some_tail (matches ps) (d ∷ s) in
    let after_char = matches ps s in
    if c == star then after_star else (if c == d then after_char else false)

-- A null pointer is `none`.
pub match_wildcard : Option (List ℕ) → Option (List ℕ) → Bool
match_wildcard none str = false
match_wildcard (some pattern) none = false
match_wildcard (some pattern) (some str) = matches pattern str
