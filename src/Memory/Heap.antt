-- ===== src/Memory/Heap.antt =====
-- kernel/src/memory/heap.cpp and heap.hpp: a first-fit allocator over a linked list of blocks.
-- A block is its header's address with the header's fields, and the list is the chain of `next`
-- pointers from `m_first_block`. A pointer to a header is an address, and reading through it looks
-- the address up in the chain.
pub mod Tiling
pub mod Allocate
pub mod Outcome
pub mod Free
pub mod Merge
pub mod Accounting
pub mod Frames
mod Tests
use pocky.Common.{
  ℕ, zero, suc, ◌+◌, ◌-◌, ◌*◌, ◌/◌, ◌%◌, Bool, true, false, ◌&&◌, Option, none, some, List, [], ◌∷◌,
  ◌++◌, if◌then◌else◌, leb, ◌==◌, u64_mod,
}
use pocky.Common.Loop.{for_range}
use pocky.Memory.Physical.{Pmm, allocate_frame, free_frame}

-- `sizeof(HeapBlock)`: two words and a padded flag.
abbrev pub header_size : ℕ
header_size = 24

abbrev pub page_size : ℕ
page_size = 4096

pub record Block : Type 0 where
  pub addr : ℕ
  pub size : ℕ
  pub free : Bool

pub record Heap : Type 0 where
  pub blocks : List Block
  pub total_size : ℕ
  pub used_memory : ℕ

pub initialize : ℕ → ℕ → Heap
initialize heap_start heap_size = record {
  blocks =
      record {
        addr = heap_start;
        size = (heap_size + u64_mod - header_size) % u64_mod;
        free = true;
      }
      ∷ [];
  total_size = heap_size;
  used_memory = header_size;
}

-- The address of the first free block that is large enough.
pub find_free_block : List Block → ℕ → Option ℕ
find_free_block [] size = none
find_free_block (b ∷ bs) size =
    if b.free && leb size b.size then some b.addr else find_free_block bs size

-- The header at an address; `none` where no block starts.
pub find_block : List Block → ℕ → Option Block
find_block [] addr = none
find_block (b ∷ bs) addr = if b.addr == addr then some b else find_block bs addr

-- The chain after the header at an address was written: `new` stands in the place of that block.
pub replace : ℕ → List Block → List Block → List Block
replace addr new [] = []
replace addr new (b ∷ bs) = if b.addr == addr then new ++ bs else b ∷ replace addr new bs

-- The two blocks that `split_block` makes of one.
abbrev pub split_parts : Block → ℕ → List Block
split_parts b size =
    record b { size = size }
    ∷ record {
      addr = (b.addr + header_size + size) % u64_mod;
      size = (b.size + u64_mod - size + u64_mod - header_size) % u64_mod;
      free = true;
    }
    ∷ []

pub split_block : Heap → Block → ℕ → Heap
split_block h b size =
    if leb ((size + header_size + 32) % u64_mod) b.size
    then record h {
      blocks = replace b.addr (split_parts b size) h.blocks;
      used_memory = (h.used_memory + header_size) % u64_mod;
    }
    else h

-- `block->free = x`
pub set_free : ℕ → Bool → List Block → List Block
set_free addr x bs = elim (find_block bs addr) [
  | none ↦ bs
  | some b ↦ replace addr (record b { free = x } ∷ []) bs
]

-- `(size + 15) & ~15`
pub round_up : ℕ → ℕ
round_up size = (size + 15) % u64_mod / 16 * 16

abbrev pub pages : ℕ → ℕ
pages size = (size + page_size - 1) % u64_mod / page_size

-- The frames that `allocate` takes: `none` when it has taken `n` more, and the number of rounds
-- done when a frame is refused.
pub take_frames : ℕ → ℕ → Pmm → Pmm × Option ℕ
take_frames zero i pmm = (pmm, none)
take_frames (suc n) i pmm =
    let (pmm', frame) = allocate_frame pmm in
    let rest = take_frames n (i + 1) pmm' in if frame == 0 then (pmm', some i) else rest

-- `for (j = 0; j < n; j++) pmm.free_frame(block + j * PAGE_SIZE)`
pub free_frames : ℕ → ℕ → Pmm → Pmm
free_frames n block = for_range n 0 (λ j pmm. free_frame pmm ((block + j * page_size) % u64_mod))

-- The end of `allocate`, once the block is marked: the frames are taken, and on a refusal the loop
-- of `free_frame` calls runs and the null pointer is returned.
pub back_by_frames : Heap → Pmm → ℕ → ℕ → Heap × Pmm × ℕ
back_by_frames h pmm block size =
    let (pmm', refused) = take_frames (pages size) 0 pmm in
    elim refused [
      | none ↦ (h, pmm', (block + header_size) % u64_mod)
      | some i ↦ (h, free_frames i block pmm', 0)
    ]

-- The block that is found is split, marked as used and counted.
pub take_block : Heap → Block → ℕ → Heap
take_block h b size =
    let h' = split_block h b size in
    record h' {
      blocks = set_free b.addr false h'.blocks;
      used_memory = (h'.used_memory + size) % u64_mod;
    }

-- The pointer that is returned is 0 for the null pointer.
pub allocate_rounded : Heap → Pmm → ℕ → Heap × Pmm × ℕ
allocate_rounded h pmm size = elim (find_free_block h.blocks size) [
  | none ↦ (h, pmm, 0)
  | some addr ↦ elim (find_block h.blocks addr) [
    | none ↦ (h, pmm, 0)
    | some b ↦ back_by_frames (take_block h b size) pmm addr size
  ]
]

pub allocate : Heap → Pmm → ℕ → Heap × Pmm × ℕ
allocate h pmm size = if size == 0 then (h, pmm, 0) else allocate_rounded h pmm (round_up size)

-- `current->size += sizeof(HeapBlock) + current->next->size`
abbrev pub join : Block → Block → Block
join b c = record b { size = (b.size + (header_size + c.size)) % u64_mod }

-- The loop of `merge_free_blocks` from a block on, with `m_used_memory`.
pub merge_from : Block → List Block → ℕ → List Block × ℕ
merge_from b [] used = (b ∷ [], used)
merge_from b (c ∷ rest) used =
    let merged = merge_from (join b c) rest ((used + u64_mod - header_size) % u64_mod) in
    let kept = merge_from c rest used in if b.free && c.free then merged else (b ∷ kept.0, kept.1)

pub merge_free_blocks : List Block → ℕ → List Block × ℕ
merge_free_blocks [] used = ([], used)
merge_free_blocks (b ∷ bs) used = merge_from b bs used

-- `free` at the header of a block: `none` where the pointer is not behind a header of the chain.
pub free_block : Heap → Pmm → Block → Heap × Pmm
free_block h pmm b =
    let (bs, used) =
      merge_free_blocks (set_free b.addr true h.blocks)
        ((h.used_memory + u64_mod - b.size) % u64_mod) in
    (record h { blocks = bs; used_memory = used }, free_frames (pages b.size) b.addr pmm)

pub free : Heap → Pmm → ℕ → Option (Heap × Pmm)
free h pmm ptr =
    if ptr == 0
    then some (h, pmm)
    else (elim (find_block h.blocks ((ptr + u64_mod - header_size) % u64_mod)) [
      | none ↦ none
      | some b ↦ some (free_block h pmm b)
    ])

pub get_free_memory : Heap → ℕ
get_free_memory h = (h.total_size + u64_mod - h.used_memory) % u64_mod
