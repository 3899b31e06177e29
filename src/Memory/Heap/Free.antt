-- ===== src/Memory/Heap/Free.antt =====
-- `free`: the tiling, the blocks in use, no two free neighbours, and the block that becomes free.
use pocky.Common.{
  ℕ, ◌+◌, ◌-◌, ◌%◌, ◌<◌, ◌≡◌, refl, ◌≢◌, ◌==◌, inl, inr, Bool, true, false, some, List, [], ◌∷◌,
  arith, u64_mod, Bool-cases,
}
use pocky.Memory.Physical.{Pmm}
use pocky.Memory.Heap.{Block, Heap, find_block, replace, header_size, set_free, free_block, free}
use pocky.Memory.Heap.Tiling.{IsTiled, Tiles-set_free, find_block-inside}
use pocky.Memory.Heap.Allocate.{Holds, Holds-replace, set_free_found}
use pocky.Memory.Heap.Merge.{IsMerged, FreeOver, merge_free_blocks-Merges}

-- What `free` does to the chain when it is given the pointer behind the header of block `b`.
pub record Frees (start : ℕ) (h h' : Heap) (b : Block) : Type 0 where
  pub freed : FreeOver b.addr (b.addr + header_size + b.size) h'.blocks
  pub tiled : IsTiled start h'
  pub merged : IsMerged h'.blocks
  pub others : (u : Block) → Holds u h.blocks → u.free ≡ false → u ≢ b → Holds u h'.blocks

set_free-Holds :
    (x : Bool) (bs : List Block) {b : Block} (u : Block)
    → find_block bs b.addr ≡ some b
    → u ≢ b
    → Holds u bs
    → Holds u (set_free b.addr x bs)
set_free-Holds x bs {b} u found d held =
    rw (set_free_found b.addr x bs found) (Holds-replace b.addr bs _ u found d held)

-- The block that replaces one is in the chain.
Holds-replaced :
    (a : ℕ) (bs : List Block) {b : Block} (new : Block)
    → find_block bs a ≡ some b
    → Holds new (replace a (new ∷ []) bs)
unfolding find_block replace
Holds-replaced a [] new q = cc
Holds-replaced a (c ∷ bs) new q = elim (Bool-cases (c.addr == a)) [
  | inl y ↦ rw y (inl refl)
  | inr k ↦ rw k (inr (Holds-replaced a bs new (rw k at q)))
]

set_free-FreeOver :
    (bs : List Block) (b : Block)
    → find_block bs b.addr ≡ some b
    → FreeOver b.addr (b.addr + header_size + b.size) (set_free b.addr true bs)
set_free-FreeOver bs b found = (
  record b { free = true },
  rw (set_free_found b.addr true bs found)
      (Holds-replaced b.addr bs (record b { free = true }) found),
  refl,
  omega arith,
  omega arith,
)

free_block-Frees :
    (start : ℕ) (h : Heap) (pmm : Pmm) (b : Block)
    → IsTiled start h
    → find_block h.blocks b.addr ≡ some b
    → Frees start h (free_block h pmm b).0 b
unfolding free_block
free_block-Frees start h pmm b v found =
    let room : start + h.total_size < u64_mod = omega (arith, v.in_memory) in
    let m =
      merge_free_blocks-Merges start (start + h.total_size) _ _ room
        (Tiles-set_free start _ b.addr true h.blocks v.tiles) in
    record {
      freed = m.covers _ _ (set_free-FreeOver h.blocks b found);
      tiled = record { tiles = m.tiles; in_memory = v.in_memory };
      merged = m.merged;
      others = λ u held d other. m.others u (set_free-Holds true h.blocks u found other held) d;
    }

-- On a tiled heap, `free` at the pointer behind the header of a block of the chain succeeds: a free block of the
-- chain then reaches over the whole room of that block and its header, the chain still tiles the
-- heap's range, holds no two free neighbours, and has every other used block unchanged.
pub free-Frees :
    (start : ℕ) (h : Heap) (pmm : Pmm) (b : Block)
    → IsTiled start h
    → find_block h.blocks b.addr ≡ some b
    → (r : Heap × Pmm) × (free h pmm (b.addr + header_size) ≡ some r) × Frees start h r.0 b
unfolding free
free-Frees start h pmm b v found =
    let inside = find_block-inside start _ b.addr h.blocks v.tiles found in
    let header : (b.addr + header_size + u64_mod - header_size) % u64_mod ≡ b.addr =
      omega (arith, v.in_memory) in
    (free_block h pmm b, rw header (ground arith), free_block-Frees start h pmm b v found)
