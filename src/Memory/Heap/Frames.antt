-- ===== src/Memory/Heap/Frames.antt =====
-- The heap's calls of the frame allocator.
use pocky.Common.{
  ℕ, zero, suc, ◌+◌, ◌-◌, ◌*◌, ◌/◌, ◌%◌, ◌<◌, ◌≤◌, ◌≡◌, refl, ◌∙◌, ◌≢◌, inl, inr, true, false, none,
  some, List, [], ◌∷◌, arith, u64_mod, Option-cases,
}
use pocky.Common.Loop.{for_range}
use pocky.Memory.Physical.{Pmm, allocate_frame, free_frame}
use pocky.Memory.Physical.Frames.{
  IsValid, used, allocate_frame-Allocates, free_frame_lem, free_frame-IsValid,
  free_frame-stays_clear,
}
use pocky.Memory.Heap.{
  Block, Heap, find_free_block, page_size, take_frames, back_by_frames, allocate_rounded, allocate,
  round_up, pages, free_frames, free_block,
}
use pocky.Memory.Heap.Tiling.{IsTiled, find_free_block-find_block, find_block-inside}
use pocky.Memory.Heap.Allocate.{Holds}

-- With enough free frames, and the frame at the null address taken, no frame is refused.
take_frames_enough :
    (n i : ℕ) (p : Pmm)
    → IsValid p
    → used p 0 ≡ true
    → n ≤ p.free_frames
    → (take_frames n i p).1 ≡ none
unfolding take_frames
take_frames_enough zero i p v null enough = refl
take_frames_enough (suc n) i p v null enough =
    let (k, a) = allocate_frame-Allocates p v (omega arith) in
    let more =
      take_frames_enough n (i + 1) (allocate_frame p).0 a.valid (ground (arith, a.taken 0))
        (omega (arith, a.one_less)) in
    let not_first : k ≢ 0 = λ e. cc (a.first.clear) in ground (arith, more, a.address)

find_free_block_complete :
    (size : ℕ) (b : Block) (bs : List Block)
    → Holds b bs
    → b.free ≡ true
    → size ≤ b.size
    → find_free_block bs size ≢ none
unfolding find_free_block
find_free_block_complete size b [] h f s = elim h [ ]
find_free_block_complete size b (c ∷ bs) (inl e) f s = ground arith
find_free_block_complete size b (c ∷ bs) (inr h) f s =
    ground (arith, find_free_block_complete size b bs h f s)

allocate_found :
    (start : ℕ) (h : Heap) (pmm : Pmm) (size a : ℕ)
    → size ≢ 0
    → IsTiled start h
    → find_free_block h.blocks (round_up size) ≡ some a
    → IsValid pmm
    → used pmm 0 ≡ true
    → pages (round_up size) ≤ pmm.free_frames
    → (allocate h pmm size).2 ≢ 0
unfolding allocate allocate_rounded back_by_frames
allocate_found start h pmm size a some_size v hit pv null enough =
    let (b, found, _, _) = find_free_block-find_block start _ _ a h.blocks v.tiles hit in
    let inside = find_block-inside start _ a h.blocks v.tiles found in
    let backed = take_frames_enough (pages (round_up size)) 0 pmm pv null enough in
    ground (arith, v.in_memory)

pub allocate_succeeds :
    (start : ℕ) (h : Heap) (pmm : Pmm) (size : ℕ) (b : Block)
    → IsTiled start h
    → IsValid pmm
    → used pmm 0 ≡ true
    → size ≢ 0
    → Holds b h.blocks
    → b.free ≡ true
    → round_up size ≤ b.size
    → pages (round_up size) ≤ pmm.free_frames
    → (allocate h pmm size).2 ≢ 0
allocate_succeeds start h pmm size b v pv null some_size held free fits enough =
    elim (Option-cases (find_free_block h.blocks (round_up size))) [
      | inl missing ↦
          absurd (find_free_block_complete (round_up size) b h.blocks held free fits missing)
      | inr (a, hit) ↦ allocate_found start h pmm size a some_size v hit pv null enough
    ]

-- The loop of `free_frame` calls clears the frame that holds the block's header.
free_frames_rest :
    (n i block j : ℕ) (p : Pmm)
    → IsValid p
    → used p j ≡ false
    → used (for_range n i (λ k q. free_frame q ((block + k * page_size) % u64_mod)) p) j ≡ false
unfolding for_range
free_frames_rest zero i block j p v clear = clear
free_frames_rest (suc n) i block j p v clear =
    free_frames_rest n (i + 1) block j _ (free_frame-IsValid p _ v)
      (free_frame-stays_clear p _ j v clear)

free_frames_first :
    (n block j : ℕ) (p : Pmm)
    → IsValid p
    → used (free_frame p ((block + 0 * page_size) % u64_mod)) j ≡ false
    → used (for_range (suc n) 0 (λ k q. free_frame q ((block + k * page_size) % u64_mod)) p) j
      ≡ false
unfolding for_range
free_frames_first n block j p v clear =
    free_frames_rest n 1 block j _ (free_frame-IsValid p _ v) clear

-- `free` of a block that is not empty and whose header lies in a frame of a frame allocator in a valid
-- state clears the mark of that frame, whoever had taken it; no size or address wraps.
pub free_block_clears_own_frame :
    (h : Heap) (pmm : Pmm) (b : Block)
    → IsValid pmm
    → 0 < b.size
    → b.size + page_size < u64_mod
    → b.addr < u64_mod
    → pmm.memory_start ≤ b.addr
    → (b.addr - pmm.memory_start) / page_size < pmm.total_frames
    → used (free_block h pmm b).1 ((b.addr - pmm.memory_start) / page_size) ≡ false
unfolding free_block free_frames
free_block_clears_own_frame h pmm b v some_size small reach above inside =
    let i : ℕ = (b.addr - pmm.memory_start) / page_size in
    let offset : ℕ = (b.addr - pmm.memory_start) % page_size in
    let split : (b.addr + 0 * page_size) % u64_mod ≡ pmm.memory_start + i * page_size + offset =
      omega arith in
    let cleared = free_frame_lem pmm i offset v inside (omega arith) in
    let rounds : pages b.size ≡ suc (pages b.size - 1) = omega arith in
    rw rounds
      (free_frames_first (pages b.size - 1) b.addr i pmm v (rw split (cleared.0 i ∙ ground arith)))
