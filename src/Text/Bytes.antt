-- ===== src/Text/Bytes.antt =====
-- memset, memcpy, memmove and memcmp of kernel/src/lib/lib.cpp. Memory is a byte for each address,
-- and pointers are addresses.
pub mod Move
use pocky.Common.{ℕ, zero, suc, ◌+◌, ◌-◌, ◌%◌, if◌then◌else◌, ltb, ◌==◌}
use pocky.Common.Int.{ℤ, pos, sub_ℕ}
use pocky.Common.Loop.{for_range}

abbrev pub Memory : Type 0
Memory = ℕ → ℕ

-- `*p = v`
abbrev pub store : Memory → ℕ → ℕ → Memory
store m p v q = if p == q then v else m q

pub memset : ℕ → ℕ → ℕ → Memory → Memory
memset dest ch count = for_range count 0 (λ i m. store m (dest + i) (ch % 256))

pub memcpy : ℕ → ℕ → ℕ → Memory → Memory
memcpy dest src count = for_range count 0 (λ i m. store m (dest + i) (m (src + i)))

-- `while (count--) *d++ = *s++;`
pub copy_up : ℕ → ℕ → ℕ → Memory → Memory
copy_up d s zero m = m
copy_up d s (suc count) m = copy_up (d + 1) (s + 1) count (store m d (m s))

-- `while (count--) *--d = *--s;`
pub copy_down : ℕ → ℕ → ℕ → Memory → Memory
copy_down d s zero m = m
copy_down d s (suc count) m = copy_down (d - 1) (s - 1) count (store m (d - 1) (m (s - 1)))

pub memmove : ℕ → ℕ → ℕ → Memory → Memory
memmove dest src count m =
    if ltb dest src
    then copy_up dest src count m
    else copy_down (dest + count) (src + count) count m

-- The loop of `memcmp` from index `i` on, with `n` rounds left.
pub compare_from : ℕ → ℕ → ℕ → ℕ → Memory → ℤ
compare_from p1 p2 zero i m = pos 0
compare_from p1 p2 (suc n) i m =
    let rest = compare_from p1 p2 n (i + 1) m in
    if m (p1 + i) == m (p2 + i) then rest else sub_ℕ (m (p1 + i)) (m (p2 + i))

pub memcmp : ℕ → ℕ → ℕ → Memory → ℤ
memcmp s1 s2 n m = compare_from s1 s2 n 0 m
