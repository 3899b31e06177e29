-- ===== src/Text/Tests.antt =====
-- The routines of kernel/src/lib/lib.cpp and printf.cpp on concrete arguments.
use pocky.Common.{ℕ, ◌-◌, ◌≡◌, ◌↔◌, ◌++◌, inr, refl, true, some, List, [], ◌∷◌, get_or, arith}
use pocky.Text.Bytes.{Memory, memmove}
use pocky.Text.Bytes.Move.{moved, memmove-moved}
use pocky.Text.Strings.Held.{IsString}
use pocky.Text.Wildcard.{match_wildcard}
use pocky.Text.Wildcard.Sound.{Matches, match_wildcard-Matches}
use pocky.Text.OwnedString.{String, append, equals, substr, copy_in, reserve, cells_of}
use pocky.Text.OwnedString.Content.{IsValid, IsTerminated, chars, chars-append}
use pocky.Text.OwnedString.Equality.{equals-chars}

abbrev abc_chars : List ℕ
abc_chars = 97 ∷ 98 ∷ 99 ∷ []

-- "abc" at address 100.
abbrev abc : Memory
abc p = get_or abc_chars (p - 100) 0

abc_from_100 : IsString abc 100 abc_chars
abc_from_100 = (refl, omega arith, (refl, omega arith, (refl, omega arith, refl)))

memmove-moved_example : memmove 101 100 3 abc 102 ≡ moved 101 100 3 abc 102
memmove-moved_example = memmove-moved 101 100 3 102 abc

moved_102 : moved 101 100 3 abc 102 ≡ 98
moved_102 = refl

-- "*.c" and "a.c".
match_wildcard-Matches_example :
    (match_wildcard (some (42 ∷ 46 ∷ 99 ∷ [])) (some (97 ∷ 46 ∷ 99 ∷ [])) ≡ true)
    ↔ Matches (42 ∷ 46 ∷ 99 ∷ []) (97 ∷ 46 ∷ 99 ∷ [])
match_wildcard-Matches_example = match_wildcard-Matches (42 ∷ 46 ∷ 99 ∷ []) (97 ∷ 46 ∷ 99 ∷ [])

abbrev ab_string : String
ab_string = record { cells = some (97 ∷ 98 ∷ 0 ∷ []); size = 2; capacity = 3 }

-- The same text with room behind it.
abbrev roomy_string : String
roomy_string = record { cells = some (97 ∷ 98 ∷ 0 ∷ 7 ∷ []); size = 2; capacity = 4 }

ab_string-IsValid : IsValid ab_string
unfolding cells_of
ab_string-IsValid = record { counted = refl; room = inr (omega arith) }

roomy_string-IsValid : IsValid roomy_string
unfolding cells_of
roomy_string-IsValid = record { counted = refl; room = inr (omega arith) }

ab_string-IsTerminated : IsTerminated ab_string
unfolding cells_of
ab_string-IsTerminated = inr refl

roomy_string-IsTerminated : IsTerminated roomy_string
unfolding cells_of
roomy_string-IsTerminated = inr refl

chars-append_example :
    (chars (append 7 ab_string roomy_string) ≡ chars ab_string ++ chars roomy_string)
    × IsValid (append 7 ab_string roomy_string)
    × IsTerminated (append 7 ab_string roomy_string)
chars-append_example =
    chars-append 7 ab_string roomy_string ab_string-IsValid ab_string-IsTerminated
      roomy_string-IsValid roomy_string-IsTerminated

equals-chars_example :
    (equals ab_string roomy_string ≡ true) ↔ (chars ab_string ≡ chars roomy_string)
equals-chars_example = equals-chars ab_string roomy_string ab_string-IsValid roomy_string-IsValid

-- Two characters from the second on, where there is one.
abbrev b_string : String
b_string = record { cells = some (98 ∷ 0 ∷ []); size = 1; capacity = 2 }

substr_ab : substr 7 ab_string 1 (some 2) ≡ b_string
unfolding substr copy_in reserve cells_of
substr_ab = refl
