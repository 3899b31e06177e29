-- ===== src/Text/Strings.antt =====
-- The routines on zero-terminated strings of kernel/src/lib/lib.cpp. Memory is a byte for each
-- address. A loop that runs until it meets a zero byte takes fuel, and `none` means that the fuel
-- ran out; a null pointer that is returned is `none` below `some`.
pub mod Held
pub mod Copy
use pocky.Common.{
  ℕ, zero, suc, ◌+◌, ◌-◌, Bool, true, not, ◌&&◌, Option, none, some, if◌then◌else◌, ◌==◌,
}
use pocky.Common.Int.{ℤ, pos, sub_ℕ}
use pocky.Text.Bytes.{Memory, store}

-- The loop of `strlen` from length `len` on.
pub strlen_from : ℕ → Memory → ℕ → ℕ → Option ℕ
strlen_from zero m str len = none
strlen_from (suc f) m str len =
    let rest = strlen_from f m str (len + 1) in if m (str + len) == 0 then some len else rest

pub strlen : ℕ → Memory → ℕ → Option ℕ
strlen fuel m str = strlen_from fuel m str 0

-- `while (*s1 && (*s1 == *s2))`, and the difference of the two bytes behind it.
pub strcmp : ℕ → Memory → ℕ → ℕ → Option ℤ
strcmp zero m s1 s2 = none
strcmp (suc f) m s1 s2 =
    let rest = strcmp f m (s1 + 1) (s2 + 1) in
    if not (m s1 == 0) && (m s1 == m s2) then rest else some (sub_ℕ (m s1) (m s2))

pub strncmp : Memory → ℕ → ℕ → ℕ → ℤ
strncmp m s1 s2 zero = pos 0
strncmp m s1 s2 (suc n) =
    let rest = strncmp m (s1 + 1) (s2 + 1) n in
    if not (m s1 == m s2) then sub_ℕ (m s1) (m s2) else (if m s1 == 0 then pos 0 else rest)

-- `while ((*d++ = *src++));`
pub strcpy : ℕ → ℕ → ℕ → Memory → Option Memory
strcpy zero d src m = none
strcpy (suc f) d src m =
    let m' = store m d (m src) in
    let rest = strcpy f (d + 1) (src + 1) m' in if m src == 0 then some m' else rest

-- The second loop of `strncpy`.
pub pad : ℕ → ℕ → Memory → Memory
pad d zero m = m
pad d (suc count) m = pad (d + 1) count (store m d 0)

pub strncpy : ℕ → ℕ → ℕ → Memory → Memory
strncpy d src zero m = m
strncpy d src (suc count) m =
    let rest = strncpy (d + 1) (src + 1) count (store m d (m src)) in
    if m src == 0 then pad d (suc count) m else rest

-- `while (*str && *str != ch) str++;`
pub strchr : ℕ → Memory → ℕ → ℕ → Option (Option ℕ)
strchr zero m str ch = none
strchr (suc f) m str ch =
    let rest = strchr f m (str + 1) ch in
    if not (m str == 0) && not (m str == ch)
    then rest
    else some (if m str == ch then some str else none)

-- The loop of `strrchr` with the last hit.
pub strrchr_from : ℕ → Memory → ℕ → ℕ → Option ℕ → Option (Option ℕ)
strrchr_from zero m str ch last = none
strrchr_from (suc f) m str ch last =
    let rest = strrchr_from f m (str + 1) ch (if m str == ch then some str else last) in
    if m str == 0 then some last else rest

pub strrchr : ℕ → Memory → ℕ → ℕ → Option (Option ℕ)
strrchr fuel m str ch = strrchr_from fuel m str ch none

-- `while (*d) d++;`, then the copy.
pub strcat : ℕ → ℕ → ℕ → Memory → Option Memory
strcat zero d src m = none
strcat (suc f) d src m =
    let rest = strcat f (d + 1) src m in if m d == 0 then strcpy (suc f) d src m else rest

-- The kernel's `snprintf` copies the format and ignores all other arguments.
pub snprintf : ℕ → ℕ → ℕ → ℕ → Memory → Option (ℕ × Memory)
snprintf fuel str zero format m = some (0, m)
snprintf fuel str (suc n) format m =
    let m' = store (strncpy str format n m) (str + n) 0 in
    elim (strlen fuel m' str) [ none ↦ none | some len ↦ some (len, m') ]
