-- ===== src/Memory/Virtual/Pool.antt =====
-- The frames that the page tables are made of, under `allocate_frame` of
-- kernel/src/memory/physical_memory.cpp.
use pocky.Common.{
  ℕ, ◌+◌, ◌*◌, ◌%◌, ◌^◌, ◌<◌, ◌≤◌, ◌≡◌, refl, true, false, ◌==◌, arith, Bool-cases, Option-cases,
  inl, inr,
}
use pocky.Memory.Physical.{Pmm, scan, allocate_frame, reserve}
use pocky.Memory.Physical.Frames.{used, IsValid, allocate_frame-Allocates}

-- The frames are pages below 2 ^ 48, and none that is free is at address 0.
pub record IsPool (p : Pmm) : Type 0 where
  pub valid : IsValid p
  pub whole : p.memory_start % 4096 ≡ 0
  pub small : p.memory_start + p.total_frames * 4096 ≤ 2 ^ 48
  pub null_used : (i : ℕ) → p.memory_start + i * 4096 ≡ 0 → used p i ≡ true

allocate_frame_same :
    (p : Pmm)
    → ((allocate_frame p).0.memory_start ≡ p.memory_start)
      × ((allocate_frame p).0.total_frames ≡ p.total_frames)
unfolding allocate_frame reserve
allocate_frame_same p = elim (Bool-cases (p.free_frames == 0)) [
  | inl e ↦ rw e (refl, refl)
  | inr e ↦ elim (Option-cases (scan p.bitmap p.total_frames 0)) [
    | inl h ↦ rw (e, h) (refl, refl)
    | inr (i, h) ↦ rw (e, h) (refl, refl)
  ]
]

-- A frame taken from the pool: it was free, and no other is affected.
pub record Takes (p q : Pmm) (t : ℕ) : Type 0 where
  pub pool : IsPool q
  pub same_start : q.memory_start ≡ p.memory_start
  pub index : ℕ
  pub at : t ≡ p.memory_start + index * 4096
  pub nonzero : 0 < t
  pub low : t < 2 ^ 48
  pub was_free : used p index ≡ false
  pub now_used : used q index ≡ true
  pub still_used : (j : ℕ) → used p j ≡ true → used q j ≡ true
  pub one_less : q.free_frames + 1 ≡ p.free_frames

pub allocate_frame-Takes :
    (p : Pmm) → IsPool p → 0 < p.free_frames → Takes p (allocate_frame p).0 (allocate_frame p).1
allocate_frame-Takes p o free =
    let (i, a) = allocate_frame-Allocates p o.valid free in
    let (start, total) = allocate_frame_same p in
    let first = a.first in
    let still : (j : ℕ) → used p j ≡ true → used (allocate_frame p).0 j ≡ true =
      λ j h. ground (arith, a.taken j) in
    record {
      pool = record {
        valid = a.valid;
        whole = rw start (o.whole);
        small = rw (start, total) (o.small);
        null_used = λ j h. still j (o.null_used j (rw start at h));
      };
      same_start = start;
      index = i;
      at = a.address;
      nonzero = ground (arith, o.null_used i, a.address, first.clear);
      low = omega (arith, o.small, a.address, first.before);
      was_free = first.clear;
      now_used = ground (arith, a.taken i);
      still_used = still;
      one_less = a.one_less;
    }
