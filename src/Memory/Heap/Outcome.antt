-- ===== src/Memory/Heap/Outcome.antt =====
-- `allocate` from its test of the size to the pointer that it returns.
use pocky.Common.{
  ℕ, ◌+◌, ◌%◌, ◌<◌, ◌≤◌, ◌≡◌, ◌≢◌, ◌⊎◌, inl, inr, true, some, Option-cases, ◌==◌, arith, u64_mod,
  Bool-cases,
}
use pocky.Memory.Physical.{Pmm}
use pocky.Memory.Heap.{
  Block, Heap, find_free_block, find_block, header_size, take_block, take_frames, back_by_frames,
  allocate_rounded, allocate, round_up, pages,
}
use pocky.Memory.Heap.Tiling.{
  IsTiled, find_free_block-find_block, find_block-addr, find_block-inside,
}
use pocky.Memory.Heap.Allocate.{Takes, take_block-Takes, take_block-IsTiled}

-- A free block that is large enough for the rounded size was found, and all rests on the frames.
pub record Backs (h : Heap) (pmm : Pmm) (size : ℕ) (b : Block) : Type 0 where
  pub found : find_block h.blocks b.addr ≡ some b
  pub free : b.free ≡ true
  pub fits : round_up size ≤ b.size
  pub result :
      allocate h pmm size
      ≡ back_by_frames (take_block h b (round_up size)) pmm b.addr (round_up size)

allocate_rounded_cases :
    (start size : ℕ) (h : Heap) (pmm : Pmm)
    → IsTiled start h
    → (allocate_rounded h pmm size ≡ (h, pmm, 0))
      ⊎ ((b : Block) × (find_block h.blocks b.addr ≡ some b)
          × (b.free ≡ true)
          × (size ≤ b.size)
          × (allocate_rounded h pmm size ≡ back_by_frames (take_block h b size) pmm b.addr size))
unfolding allocate_rounded
allocate_rounded_cases start size h pmm v = elim (Option-cases (find_free_block h.blocks size)) [
  | inl missing ↦ inl (rw (missing, allocate_rounded))
  | inr (a, hit) ↦
      let (b, found, free, fits) = find_free_block-find_block start _ size a h.blocks v.tiles hit in
      let same = find_block-addr a h.blocks found in
      inr (b, rw same found, free, fits, ground arith)
]

pub allocate_cases :
    (start size : ℕ) (h : Heap) (pmm : Pmm)
    → IsTiled start h
    → (allocate h pmm size ≡ (h, pmm, 0)) ⊎ ((b : Block) × Backs h pmm size b)
unfolding allocate
allocate_cases start size h pmm v = elim (Bool-cases (size == 0)) [
  | inl e ↦ inl (rw e)
  | inr e ↦ elim (allocate_rounded_cases start (round_up size) h pmm v) [
    | inl r ↦ inl (rw (e, r))
    | inr (b, found, free, fits, r) ↦
        inr (b, record { found = found; free = free; fits = fits; result = rw e r })
  ]
]

pub back_by_frames_lem :
    (h : Heap) (pmm : Pmm) (block size : ℕ)
    → ((back_by_frames h pmm block size).0 ≡ h)
      × (((back_by_frames h pmm block size).2 ≡ 0)
          ⊎ ((back_by_frames h pmm block size).2 ≡ (block + header_size) % u64_mod))
unfolding back_by_frames
back_by_frames_lem h pmm block size = elim (Option-cases (take_frames (pages size) 0 pmm).1) [
  | inl e ↦ (ground arith, inr (ground arith))
  | inr (i, e) ↦ (ground arith, inl (ground arith))
]

-- On a heap whose chain tiles its range, whatever `allocate` returns, the chain still does.
pub allocate-IsTiled :
    (start size : ℕ) (h : Heap) (pmm : Pmm)
    → IsTiled start h
    → IsTiled start (allocate h pmm size).0
allocate-IsTiled start size h pmm v = elim (allocate_cases start size h pmm v) [
  | inl e ↦ rw e v
  | inr (b, t) ↦
      rw
        (
          t.result,
          (back_by_frames_lem (take_block h b (round_up size)) pmm b.addr (round_up size)).0,
        )
        (take_block-IsTiled start h b (round_up size) v t.found t.fits)
]

-- What a caller may rely on when it gets a pointer.
pub record Grants (h h' : Heap) (size ptr : ℕ) : Type 0 where
  pub old : Block
  pub was_free : old.free ≡ true
  pub in_chain : find_block h.blocks old.addr ≡ some old
  pub pointer : ptr ≡ old.addr + header_size
  pub block : Takes h h' old size

round_up-ge : (size : ℕ) → size + 15 < u64_mod → size ≤ round_up size
unfolding round_up
round_up-ge size h = omega arith

Takes-mono : {h h' : Heap} {b : Block} (m n : ℕ) → m ≤ n → Takes h h' b n → Takes h h' b m
Takes-mono m n le t = record {
  taken = t.taken;
  at = t.at;
  now_used = t.now_used;
  fits = omega (arith, t.fits);
  others = t.others;
}

grants :
    (start size : ℕ) (h : Heap) (pmm : Pmm) (b : Block) (t : Backs h pmm size b)
    → IsTiled start h
    → size + 15 < u64_mod
    → (allocate h pmm size).2 ≢ 0
    → Grants h (allocate h pmm size).0 size (allocate h pmm size).2
grants start size h pmm b t v small some_pointer =
    let h' = take_block h b (round_up size) in
    let back = back_by_frames_lem h' pmm b.addr (round_up size) in
    let inside = find_block-inside start _ b.addr h.blocks v.tiles t.found in
    elim back.1 [
      | inl null ↦ absurd (some_pointer (rw t.result null))
      | inr behind ↦
          rw (t.result, back.0, behind)
            (record {
              old = b;
              was_free = t.free;
              in_chain = t.found;
              pointer = omega (arith, inside, v.in_memory);
              block =
                  Takes-mono size (round_up size) (round_up-ge size small)
                    (take_block-Takes h b (round_up size) t.found t.free t.fits);
            })
    ]

-- When the size can be rounded without wrapping and `allocate` returns a pointer, the pointer is just behind the
-- header of a block that was free, is now used and has at least `size` bytes, and every block that
-- was used before is still in the chain, unchanged.
pub allocate-Grants :
    (start size : ℕ) (h : Heap) (pmm : Pmm)
    → IsTiled start h
    → size + 15 < u64_mod
    → (allocate h pmm size).2 ≢ 0
    → Grants h (allocate h pmm size).0 size (allocate h pmm size).2
allocate-Grants start size h pmm v small some_pointer = elim (allocate_cases start size h pmm v) [
  | inl e ↦ absurd (some_pointer (rw e))
  | inr (b, t) ↦ grants start size h pmm b t v small some_pointer
]
