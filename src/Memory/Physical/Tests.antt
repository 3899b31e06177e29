-- ===== src/Memory/Physical/Tests.antt =====
-- The frame allocator of kernel/src/memory/physical_memory.cpp on concrete states.
use pocky.Common.{ℕ, ◌≡◌, refl, [], ◌∷◌, replicate, arith}
use pocky.Memory.Physical.{Pmm, is_used, scan, initialize, allocate_frame}
use pocky.Memory.Physical.Bitmap.{free_below}
use pocky.Memory.Physical.Frames.{IsValid, Allocates, allocate_frame-Allocates}
use pocky.Memory.Physical.Init.{Initialized, initialize-Initialized}

-- Four frames, of which 0 and 2 are taken.
abbrev four_frames : Pmm
four_frames = record { bitmap = 5 ∷ []; total_frames = 4; free_frames = 2; memory_start = 65536 }

four_frames-IsValid : IsValid four_frames
unfolding free_below is_used
four_frames-IsValid = record { covered = omega arith; counted = refl; reachable = omega arith }

allocates_frame_1 : (allocate_frame four_frames).1 ≡ 69632
unfolding allocate_frame is_used scan
allocates_frame_1 = refl

allocate_frame-Allocates_example :
    (i : ℕ) × Allocates four_frames (allocate_frame four_frames).0 (allocate_frame four_frames).1 i
allocate_frame-Allocates_example =
    allocate_frame-Allocates four_frames four_frames-IsValid (omega arith)

-- 32 megabytes.
initialize-Initialized_example : Initialized 33554432 (initialize (replicate 256 0) 0 33554432)
initialize-Initialized_example =
    initialize-Initialized (replicate 256 0) 0 33554432 (omega arith) (omega arith) (omega arith)
