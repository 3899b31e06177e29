-- ===== src/Memory/Heap/Accounting.antt =====
-- `m_used_memory` against the chain: a header for each block and the bytes of the blocks in use.
use pocky.Common.{
  ℕ, ◌+◌, ◌-◌, ◌%◌, ◌<◌, ◌≤◌, ◌≡◌, refl, inl, inr, true, false, ◌&&◌, some, List, [], ◌∷◌, ◌++◌,
  ◌==◌, arith, u64_mod, Bool-cases, if◌then◌else◌, leb,
}
use pocky.Memory.Physical.{Pmm}
use pocky.Memory.Heap.{
  Block, Heap, join, find_block, replace, header_size, set_free, merge_from, merge_free_blocks,
  free_block, free, split_block, split_parts, take_block,
}
use pocky.Memory.Heap.Tiling.{Tiles, IsTiled, Tiles-replace, find_block-inside}
use pocky.Memory.Heap.Allocate.{set_free_found, find_block-replace}

abbrev pub cost : Block → ℕ
cost b = header_size + (if b.free then 0 else b.size)

-- What the used memory ought to be.
abbrev pub accounted : List Block → ℕ
accounted [] = 0
accounted (b ∷ bs) = cost b + accounted bs

abbrev pub IsCounted : Heap → Type 0
IsCounted h = h.used_memory ≡ accounted h.blocks

accounted-append : (xs ys : List Block) → accounted (xs ++ ys) ≡ accounted xs + accounted ys
accounted-append [] ys = omega arith
accounted-append (x ∷ xs) ys = omega (arith, accounted-append xs ys)

accounted-replace :
    (a : ℕ) (bs new : List Block) {b : Block}
    → find_block bs a ≡ some b
    → accounted (replace a new bs) + cost b ≡ accounted bs + accounted new
unfolding find_block replace
accounted-replace a [] new q = cc
accounted-replace a (c ∷ bs) new {b} q = elim (Bool-cases (c.addr == a)) [
  | inl y ↦
      let same : c ≡ b = ground arith in rw y (rw (← same) (omega (arith, accounted-append new bs)))
  | inr n ↦ rw n (omega (arith, accounted-replace a bs new (rw n at q)))
]

accounted-le : (s e : ℕ) (bs : List Block) → Tiles s bs e → s + accounted bs ≤ e
accounted-le s e [] t = omega arith
accounted-le s e (b ∷ bs) t = ground (arith, accounted-le (s + header_size + b.size) e bs t.1)

merge_from_counts :
    (k used : ℕ) (b : Block) (bs : List Block)
    → used ≡ k + accounted (b ∷ bs)
    → used < u64_mod
    → (merge_from b bs used).1 ≡ k + accounted (merge_from b bs used).0
unfolding merge_from
merge_from_counts k used b [] e room = e
merge_from_counts k used b (c ∷ rest) e room = elim (Bool-cases (b.free && c.free)) [
  | inl y ↦ rw y (
      merge_from_counts k ((used + u64_mod - header_size) % u64_mod) (join b c) rest (ground arith)
        (omega arith))
  | inr n ↦ rw n (omega (arith, merge_from_counts (k + cost b) used c rest (omega arith) room))
]

merge_free_blocks_counts :
    (used : ℕ) (bs : List Block)
    → used ≡ accounted bs
    → used < u64_mod
    → (merge_free_blocks bs used).1 ≡ accounted (merge_free_blocks bs used).0
unfolding merge_free_blocks
merge_free_blocks_counts used [] e room = e
merge_free_blocks_counts used (b ∷ bs) e room =
    omega (arith, merge_from_counts 0 used b bs (omega arith) room)

-- On a tiled and counted heap, `free` of a block in use leaves the heap counted.
pub free_block-IsCounted :
    (start : ℕ) (h : Heap) (pmm : Pmm) (b : Block)
    → IsTiled start h
    → IsCounted h
    → find_block h.blocks b.addr ≡ some b
    → b.free ≡ false
    → IsCounted (free_block h pmm b).0
unfolding free_block
free_block-IsCounted start h pmm b v counted found in_use =
    let whole = accounted-le start _ h.blocks v.tiles in
    let change = accounted-replace b.addr h.blocks (record b { free = true } ∷ []) found in
    rw (set_free_found b.addr true h.blocks found)
      (merge_free_blocks_counts _ _ (ground (arith, v.in_memory)) (omega (arith, v.in_memory)))

-- How `m_used_memory` compares with the chain once a block was taken for `size` bytes.
pub record Undercounts (h : Heap) (b : Block) (size : ℕ) : Type 0 where
  pub taken : Block
  pub at : find_block h.blocks b.addr ≡ some taken
  pub slack_bound : taken.size < size + header_size + 32
  pub slack : accounted h.blocks + size ≡ h.used_memory + taken.size

undercounts :
    (h : Heap) (bs : List Block) (used : ℕ) (b c : Block) (size : ℕ)
    → find_block bs b.addr ≡ some c
    → c.addr ≡ b.addr
    → c.free ≡ true
    → c.size < size + header_size + 32
    → used ≡ accounted bs
    → used + size < u64_mod
    → Undercounts
        (record h { blocks = set_free b.addr false bs; used_memory = (used + size) % u64_mod })
        b
        size
undercounts h bs used b c size found same free small counted room = record {
  taken = record c { free = false };
  at = rw (set_free_found b.addr false bs found) (find_block-replace b.addr bs [] found same);
  slack_bound = small;
  slack =
      rw (set_free_found b.addr false bs found)
        (ground (arith, accounted-replace b.addr bs (record c { free = false } ∷ []) found));
}

-- On a tiled and counted heap, taking a free block for `size` bytes adds `size` to the used memory, while the block
-- may be larger: the used memory falls short of the chain's by exactly what the block has beyond
-- `size`, which is less than a header and 32 bytes.
pub take_block-Undercounts :
    (start size : ℕ) (h : Heap) (b : Block)
    → IsTiled start h
    → IsCounted h
    → find_block h.blocks b.addr ≡ some b
    → b.free ≡ true
    → size ≤ b.size
    → Undercounts (take_block h b size) b size
unfolding take_block split_block
take_block-Undercounts start size h b v counted found free fits =
    let inside = find_block-inside start _ b.addr h.blocks v.tiles found in
    let whole = accounted-le start _ h.blocks v.tiles in
    let one = accounted-replace b.addr h.blocks (record b { free = false } ∷ []) found in
    let two = accounted-replace b.addr h.blocks (split_parts b size) found in
    let total = start + h.total_size in
    let after = accounted-le start _ _ (
      Tiles-replace start total b.addr h.blocks (record b { free = false } ∷ []) v.tiles found
        (omega arith)) in
    elim (Bool-cases (leb ((size + header_size + 32) % u64_mod) b.size)) [
      | inl y ↦ rw y (
          undercounts h (replace b.addr (split_parts b size) h.blocks)
            ((h.used_memory + header_size) % u64_mod) b (record b { size = size }) size
            (find_block-replace b.addr h.blocks _ found refl) refl free (omega arith)
            (ground (arith, v.in_memory)) (ground (arith, v.in_memory)))
      | inr n ↦ rw n (
          undercounts h h.blocks h.used_memory b b size found refl free
            (ground (arith, v.in_memory)) counted (ground (arith, v.in_memory)))
    ]
