-- ===== src/Memory/Physical.antt =====
-- kernel/src/memory/physical_memory.cpp and .hpp: one bit for each frame of 4096 bytes.
-- The debug text that `initialize` and `allocate_frame` write to the screen is left out.
pub mod Bitmap
pub mod Scan
pub mod Init
pub mod Frames
mod Tests
use pocky.Common.{
  ℕ, zero, suc, ◌+◌, ◌-◌, ◌*◌, ◌/◌, ◌%◌, ◌^◌, bit_and, bit_or, Bool, not, Option, none, some, List,
  [], ◌∷◌, if◌then◌else◌, ltb, leb, ◌==◌, get_or, set, u64_mod,
}
use pocky.Common.Bits.{not_pow32}
use pocky.Common.Loop.{for_range}

abbrev pub page_size : ℕ
page_size = 4096

-- The members of the class. `bitmap` is the static array `initial_bitmap`, of 16384 words of 32 bits.
pub record Pmm : Type 0 where
  pub bitmap : List ℕ
  pub total_frames : ℕ
  pub free_frames : ℕ
  pub memory_start : ℕ

-- `(m_bitmap[idx] & (1u << bit)) != 0`, with `idx = i / 32` and `bit = i % 32`.
unfoldable pub is_used : List ℕ → ℕ → Bool
is_used bm i = not (bit_and (get_or bm (i / 32) 0) (2 ^ (i % 32)) == 0)

-- `m_bitmap[idx] |= (1u << bit)`
unfoldable pub mark : List ℕ → ℕ → List ℕ
mark bm i = set bm (i / 32) (bit_or (get_or bm (i / 32) 0) (2 ^ (i % 32)))

-- `m_bitmap[idx] &= ~(1u << bit)`
pub unmark : List ℕ → ℕ → List ℕ
unmark bm i = set bm (i / 32) (bit_and (get_or bm (i / 32) 0) (not_pow32 (i % 32)))

-- `m_free_frames--` on a `size_t`.
abbrev decrement : ℕ → ℕ
decrement n = (n + u64_mod - 1) % u64_mod

-- The body of the three loops of `initialize`.
unfoldable pub reserve : ℕ → Pmm → Pmm
reserve i p = record p { bitmap = mark p.bitmap i; free_frames = decrement p.free_frames }

-- `memset(m_bitmap, 0, 4 * n)`
pub clear_words : ℕ → List ℕ → List ℕ
clear_words zero ws = ws
clear_words (suc n) [] = []
clear_words (suc n) (w ∷ ws) = 0 ∷ clear_words n ws

abbrev pub first_mb_frames : ℕ
first_mb_frames = 0x100000 / page_size

abbrev pub heap_bytes : ℕ
heap_bytes = 16 * 1024 * 1024

abbrev pub heap_frames : ℕ
heap_frames = heap_bytes / page_size

abbrev pub page_table_frames : ℕ
page_table_frames = 5

pub initialize : List ℕ → ℕ → ℕ → Pmm
initialize storage memory_start memory_size =
    let total = memory_size / page_size in
    let heap_start_frame = ((memory_size + u64_mod - heap_bytes) % u64_mod) / page_size in
    let cleared = clear_words ((total + 31) / 32) storage in
    let p : Pmm = record {
      bitmap = cleared;
      total_frames = total;
      free_frames = total;
      memory_start = memory_start;
    } in
    let low = for_range first_mb_frames 0 reserve p in
    let heap = for_range heap_frames heap_start_frame reserve low in
    for_range page_table_frames first_mb_frames reserve heap

-- The loop of `allocate_frame`: the first frame from `i` on whose bit is clear, `n` rounds at most.
unfoldable pub scan : List ℕ → ℕ → ℕ → Option ℕ
scan bm zero i = none
scan bm (suc n) i = let rest = scan bm n (i + 1) in if is_used bm i then rest else some i

-- The address of the frame, and 0 for the null pointer.
unfoldable pub allocate_frame : Pmm → Pmm × ℕ
allocate_frame p = if p.free_frames == 0 then (p, 0) else (elim (scan p.bitmap p.total_frames 0) [
  | none ↦ (p, 0)
  | some i ↦ (reserve i p, (p.memory_start + i * page_size) % u64_mod)
])

-- The last step of `free_frame`: a frame that is marked is given back.
pub release : ℕ → Pmm → Pmm
release i p =
    if is_used p.bitmap i
    then record p { bitmap = unmark p.bitmap i; free_frames = (p.free_frames + 1) % u64_mod }
    else p

pub free_frame : Pmm → ℕ → Pmm
free_frame p addr =
    if ltb addr p.memory_start
    then p
    else (let frame_index = (addr - p.memory_start) / page_size in
        if leb p.total_frames frame_index then p else release frame_index p)
