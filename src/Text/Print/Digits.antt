-- ===== src/Text/Print/Digits.antt =====
-- The characters that kernel/src/lib/printf.cpp prints for a number read back as that number.
use pocky.Common.{ℕ, ◌+◌, ◌-◌, ◌*◌, List, [], ◌∷◌, if◌then◌else◌, ltb}

abbrev pub digit_value : ℕ → ℕ
digit_value c = if ltb c 58 then c - 48 else c - 87

-- `'0'`
abbrev zero_char : ℕ
zero_char = 48

-- Digits read from the left: `so_far` is the value of those before.
unfoldable pub read_from : ℕ → ℕ → List ℕ → ℕ
read_from base so_far [] = so_far
read_from base so_far (c ∷ cs) = read_from base (so_far * base + digit_value c) cs
