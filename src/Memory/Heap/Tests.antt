-- ===== src/Memory/Heap/Tests.antt =====
-- The heap of kernel/src/memory/heap.cpp on concrete states.
use pocky.Common.{◌≡◌, ◌≢◌, refl, true, false, some, [], ◌∷◌, arith, inl, inr}
use pocky.Memory.Physical.{Pmm, is_used}
use pocky.Memory.Physical.Bitmap.{free_below}
use pocky.Memory.Physical.Frames.{IsValid, used}
use pocky.Memory.Heap.{Block, Heap, find_block, allocate, take_block, free, free_block, round_up}
use pocky.Memory.Heap.Tiling.{IsTiled}
use pocky.Memory.Heap.Outcome.{Grants, allocate-IsTiled, allocate-Grants}
use pocky.Memory.Heap.Free.{Frees, free-Frees}
use pocky.Memory.Heap.Accounting.{IsCounted, Undercounts, take_block-Undercounts}
use pocky.Memory.Heap.Frames.{allocate_succeeds, free_block_clears_own_frame}

-- A used block of 64 bytes, a used one of 100 and a free one of 1000, from address 8192 on.
abbrev first_block : Block
first_block = record { addr = 8192; size = 64; free = false }

abbrev second_block : Block
second_block = record { addr = 8280; size = 100; free = false }

abbrev last_block : Block
last_block = record { addr = 8404; size = 1000; free = true }

abbrev three_blocks : Heap
three_blocks = record {
  blocks = first_block ∷ second_block ∷ last_block ∷ [];
  total_size = 1236;
  used_memory = 236;
}

-- Eight frames from address 0, of which the lowest two and the third are taken.
abbrev eight_frames : Pmm
eight_frames = record { bitmap = 7 ∷ []; total_frames = 8; free_frames = 5; memory_start = 0 }

eight_frames-IsValid : IsValid eight_frames
unfolding free_below is_used
eight_frames-IsValid = record { covered = omega arith; counted = refl; reachable = omega arith }

three_blocks-IsTiled : IsTiled 8192 three_blocks
three_blocks-IsTiled = record { tiles = (refl, (refl, (refl, refl))); in_memory = omega arith }

three_blocks-IsCounted : IsCounted three_blocks
three_blocks-IsCounted = refl

find_second : find_block three_blocks.blocks 8280 ≡ some second_block
unfolding find_block
find_second = refl

find_last : find_block three_blocks.blocks 8404 ≡ some last_block
unfolding find_block
find_last = refl

allocate-IsTiled_example : IsTiled 8192 (allocate three_blocks eight_frames 200).0
allocate-IsTiled_example = allocate-IsTiled 8192 200 three_blocks eight_frames three_blocks-IsTiled

null_is_used : used eight_frames 0 ≡ true
unfolding is_used
null_is_used = refl

rounded : round_up 200 ≡ 208
unfolding round_up
rounded = refl

granted : (allocate three_blocks eight_frames 200).2 ≢ 0
granted =
    allocate_succeeds 8192 three_blocks eight_frames 200 last_block three_blocks-IsTiled
      eight_frames-IsValid null_is_used (omega arith) (inr (inr (inl refl))) refl
      (omega (arith, rounded)) (omega (arith, rounded))

allocate-Grants_example :
    Grants three_blocks
      (allocate three_blocks eight_frames 200).0
      200
      (allocate three_blocks eight_frames 200).2
allocate-Grants_example =
    allocate-Grants 8192 200 three_blocks eight_frames three_blocks-IsTiled (omega arith) granted

free-Frees_example :
    (r : Heap × Pmm) × (free three_blocks eight_frames 8304 ≡ some r)
    × Frees 8192 three_blocks r.0 second_block
free-Frees_example =
    free-Frees 8192 three_blocks eight_frames second_block three_blocks-IsTiled find_second

-- 992 bytes are taken and 1000 are used up.
take_block-Undercounts_example : Undercounts (take_block three_blocks last_block 992) last_block 992
take_block-Undercounts_example =
    take_block-Undercounts 8192 992 three_blocks last_block three_blocks-IsTiled
      three_blocks-IsCounted find_last refl (omega arith)

free_block_clears_own_frame_example :
    used (free_block three_blocks eight_frames second_block).1 2 ≡ false
free_block_clears_own_frame_example =
    free_block_clears_own_frame three_blocks eight_frames second_block eight_frames-IsValid
      (omega arith) (omega arith) (omega arith) (omega arith) (omega arith)
