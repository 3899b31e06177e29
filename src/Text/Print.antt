-- ===== src/Text/Print.antt =====
-- The number printing of kernel/src/lib/printf.cpp. The result is the list of the characters that go to
-- `terminal_putchar`. A width is not negative, and an `int` is not the least one, whose negation overflows.
pub mod Digits
use pocky.Common.{
  ℕ, zero, suc, ◌+◌, ◌-◌, ◌*◌, ◌/◌, ◌%◌, Bool, true, false, not, ◌&&◌, List, [], ◌∷◌, ◌++◌, length,
  replicate, if◌then◌else◌, ltb, ◌==◌,
}
use pocky.Common.Int.{ℤ, pos, negsuc}

abbrev pub print_buffer_size : ℕ
print_buffer_size = 32

-- `'0' + digit`, or `'a' + digit - 10`
abbrev pub digit_char : ℕ → ℕ
digit_char digit = if ltb digit 10 then 48 + digit else 97 + digit - 10

-- The `while` loop with room for that many characters, the last digit first.
pub digits : ℕ → ℕ → ℕ → List ℕ
digits zero base num = []
digits (suc room) base num =
    let rest = digits room base (num / base) in
    if num == 0 then [] else digit_char (num % base) ∷ rest

-- The buffer when the digits are in it.
pub buffer : ℕ → ℕ → List ℕ
buffer base num = if num == 0 then 48 ∷ [] else digits (print_buffer_size - 1) base num

-- `while (i-- > 0) terminal_putchar(buffer[i]);`
pub backwards : List ℕ → List ℕ
backwards [] = []
backwards (c ∷ cs) = backwards cs ++ (c ∷ [])

abbrev spaces : ℕ → List ℕ
spaces n = replicate n 32

abbrev pad : Bool → ℕ → List ℕ
pad pad_zero n = replicate n (if pad_zero then 48 else 32)

pub print_unsigned : ℕ → ℕ → ℕ → Bool → Bool → List ℕ
print_unsigned num base width pad_zero left_justify =
    let content = buffer base num in
    let padding = width - length content in
    if left_justify
    then backwards content ++ spaces padding
    else pad pad_zero padding ++ backwards content

-- `num & 0xF` and `num >>= 4` are the digits to base 16.
pub print_hex : ℕ → ℕ → Bool → Bool → List ℕ
print_hex num width pad_zero left_justify =
    let content = buffer 16 num in
    let padding = width - length content - 2 in
    if left_justify
    then 48 ∷ 120 ∷ backwards content ++ spaces padding
    else pad pad_zero padding ++ (48 ∷ 120 ∷ backwards content)

abbrev minus : Bool → List ℕ
minus b = if b then 45 ∷ [] else []

abbrev pub magnitude : ℤ → ℕ
magnitude (pos n) = n
magnitude (negsuc n) = suc n

abbrev pub is_negative : ℤ → Bool
is_negative (pos n) = false
is_negative (negsuc n) = true

pub print_number : ℤ → ℕ → ℕ → Bool → Bool → List ℕ
print_number num base width pad_zero left_justify =
    let negative = is_negative num in
    let content = buffer base (magnitude num) in
    let padding = width - (length content + (if negative then 1 else 0)) in
    if left_justify
    then minus negative ++ (backwards content ++ spaces padding)
    else minus (pad_zero && negative)
      ++ (pad pad_zero padding ++ (minus (not pad_zero && negative) ++ backwards content))
