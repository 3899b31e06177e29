-- ===== src/Text/Bytes/Move.antt =====
-- What the copying routines leave in memory, with overlapping ranges too.
use pocky.Common.{
  ℕ, zero, suc, ◌+◌, ◌-◌, ◌≤◌, ◌≡◌, inl, inr, Bool-cases, arith, if◌then◌else◌, ltb, leb, ◌&&◌,
}
use pocky.Common.Loop.{for_range}
use pocky.Text.Bytes.{Memory, store, memmove, copy_up, copy_down}

-- The byte at `q` after `count` bytes were moved from `src` to `dest` at once.
abbrev pub moved : ℕ → ℕ → ℕ → Memory → Memory
moved dest src count m q = if leb dest q && ltb q (dest + count) then m (src + (q - dest)) else m q

copy_up-moved : (d s count q : ℕ) (m : Memory) → d ≤ s → copy_up d s count m q ≡ moved d s count m q
unfolding copy_up
copy_up-moved d s zero q m h = ground arith
copy_up-moved d s (suc count) q m h =
    ground (arith, copy_up-moved (d + 1) (s + 1) count q (store m d (m s)) (omega arith))

copy_down-moved :
    (d s count q : ℕ) (m : Memory)
    → s ≤ d
    → copy_down (d + count) (s + count) count m q ≡ moved d s count m q
unfolding copy_down
copy_down-moved d s zero q m h = ground arith
copy_down-moved d s (suc count) q m h =
    let dest_top : d + suc count - 1 ≡ d + count = omega arith in
    let src_top : s + suc count - 1 ≡ s + count = omega arith in
    rw (dest_top, src_top)
      (ground (arith, copy_down-moved d s count q (store m (d + count) (m (s + count))) h))

-- `memmove` moves all `count` bytes as if at once, whichever way the two ranges overlap, and
-- changes no other byte.
pub memmove-moved :
    (dest src count q : ℕ) (m : Memory) → memmove dest src count m q ≡ moved dest src count m q
unfolding memmove
memmove-moved dest src count q m = elim (Bool-cases (ltb dest src)) [
  | inl up ↦ rw up (copy_up-moved dest src count q m (ground arith))
  | inr down ↦ rw down (copy_down-moved dest src count q m (ground arith))
]

memcpy_loop :
    (dest src n i q : ℕ) (m : Memory)
    → dest ≤ src
    → for_range n i (λ k w. store w (dest + k) (w (src + k))) m q ≡ moved (dest + i) (src + i) n m q
unfolding for_range
memcpy_loop dest src zero i q m h = ground arith
memcpy_loop dest src (suc n) i q m h =
    ground (arith, memcpy_loop dest src n (i + 1) q (store m (dest + i) (m (src + i))) h)
