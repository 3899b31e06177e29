-- ===== src/Memory/Physical/Frames.antt =====
-- The public operations of the frame allocator on a valid state.
use pocky.Common.{
  ℕ, ◌+◌, ◌-◌, ◌*◌, ◌/◌, ◌%◌, ◌<◌, ◌≤◌, ◌≡◌, refl, ◌⊎◌, inl, inr, Bool, false, not, ◌&&◌, ◌||◌,
  some, if◌then◌else◌, ltb, leb, ◌==◌, length, arith, Bool-cases, u64_mod,
}
use pocky.Memory.Physical.{
  Pmm, is_used, unmark, reserve, release, scan, allocate_frame, free_frame, page_size,
}
use pocky.Memory.Physical.Bitmap.{
  length-mark, length-unmark, is_used-mark, is_used-unmark, free_below, free_below-mark,
  free_below-unmark, free_below-le,
}
use pocky.Memory.Physical.Scan.{IsFirstClear, scan_free}

-- The bitmap has a bit for every frame, the counter is the number of clear bits, and addresses of
-- frames do not wrap.
pub record IsValid (p : Pmm) : Type 0 where
  pub covered : p.total_frames ≤ 32 * length p.bitmap
  pub counted : p.free_frames ≡ free_below p.bitmap p.total_frames
  pub reachable : p.memory_start + p.total_frames * page_size < u64_mod

abbrev pub used : Pmm → ℕ → Bool
used p i = is_used p.bitmap i

pub reserve-IsValid :
    (p : Pmm) (i : ℕ)
    → IsValid p
    → i < p.total_frames
    → used p i ≡ false
    → IsValid (reserve i p) × ((reserve i p).free_frames + 1 ≡ p.free_frames)
unfolding reserve
reserve-IsValid p i v lt clear =
    let same = length-mark p.bitmap i in
    let counts = free_below-mark p.bitmap i p.total_frames (omega (arith, v.covered)) lt clear in
    let few = free_below-le p.bitmap p.total_frames in
    (
      record {
        covered = omega (arith, v.covered);
        counted = omega (arith, v.counted, v.reachable);
        reachable = v.reachable;
      },
      omega (arith, v.counted, v.reachable),
    )

pub release-IsValid : (p : Pmm) (i : ℕ) → IsValid p → i < p.total_frames → IsValid (release i p)
unfolding release
release-IsValid p i v lt = elim (Bool-cases (is_used p.bitmap i)) [
  | inr e ↦ rw e v
  | inl e ↦
      let counts = free_below-unmark p.bitmap i p.total_frames (omega (arith, v.covered)) lt e in
      let few = free_below-le (unmark p.bitmap i) p.total_frames in
      rw e (record {
        covered = omega (arith, v.covered, length-unmark p.bitmap i);
        counted = omega (arith, v.counted, v.reachable);
        reachable = v.reachable;
      })
]

-- What `allocate_frame` does where a frame is free.
pub record Allocates (p q : Pmm) (addr i : ℕ) : Type 0 where
  pub first : IsFirstClear p.bitmap 0 p.total_frames i
  pub address : addr ≡ p.memory_start + i * page_size
  pub taken : (j : ℕ) → used q j ≡ ((i == j) || used p j)
  pub one_less : q.free_frames + 1 ≡ p.free_frames
  pub valid : IsValid q

allocate_frame_found :
    (p : Pmm) (i : ℕ)
    → 0 < p.free_frames
    → scan p.bitmap p.total_frames 0 ≡ some i
    → allocate_frame p ≡ (reserve i p, (p.memory_start + i * page_size) % u64_mod)
unfolding allocate_frame
allocate_frame_found p i h e = ground arith

pub used-reserve :
    (p : Pmm) (i j : ℕ) → i < 32 * length p.bitmap → used (reserve i p) j ≡ ((i == j) || used p j)
unfolding reserve
used-reserve p i j h = is_used-mark p.bitmap i j h

-- On a valid state with a free frame, `allocate_frame` returns the address of the lowest clear
-- frame, marks that frame and no other, lowers the counter by one and keeps the state valid.
pub allocate_frame-Allocates :
    (p : Pmm)
    → IsValid p
    → 0 < p.free_frames
    → (i : ℕ) × Allocates p (allocate_frame p).0 (allocate_frame p).1 i
allocate_frame-Allocates p v some_free =
    let (i, found, first) = scan_free p.bitmap p.total_frames (omega (arith, v.counted)) in
    let next = reserve-IsValid p i v first.before first.clear in
    rw (allocate_frame_found p i some_free found) (
      i,
      record {
        first = first;
        address = omega (arith, v.reachable, first.before);
        taken = λ j. used-reserve p i j (omega (arith, v.covered, first.before));
        one_less = next.1;
        valid = next.0;
      },
    )

-- When the counter is zero, `allocate_frame` returns the null pointer and changes nothing.
pub allocate_frame_exhausted : (p : Pmm) → p.free_frames ≡ 0 → allocate_frame p ≡ (p, 0)
unfolding allocate_frame
allocate_frame_exhausted p h = ground arith

free_frame_cases :
    (p : Pmm) (addr : ℕ)
    → (free_frame p addr ≡ p)
      ⊎ ((i : ℕ) × (i < p.total_frames)
          × (i ≡ (addr - p.memory_start) / page_size)
          × (free_frame p addr ≡ release i p))
unfolding free_frame
free_frame_cases p addr =
    let i : ℕ = (addr - p.memory_start) / page_size in
    elim (Bool-cases (ltb addr p.memory_start)) [
      | inl low ↦ inl (ground arith)
      | inr high ↦ elim (Bool-cases (leb p.total_frames i)) [
        | inl past ↦ inl (ground arith)
        | inr inside ↦ inr (i, ground arith, refl, ground arith)
      ]
    ]

-- `free_frame` keeps a valid state valid whatever address it is given.
pub free_frame-IsValid : (p : Pmm) (addr : ℕ) → IsValid p → IsValid (free_frame p addr)
free_frame-IsValid p addr v = elim (free_frame_cases p addr) [
  | inl e ↦ rw e v
  | inr (i, lt, _, e) ↦ rw e (release-IsValid p i v lt)
]

free_frame_at :
    (p : Pmm) (i offset : ℕ)
    → i < p.total_frames
    → offset < page_size
    → free_frame p (p.memory_start + i * page_size + offset) ≡ release i p
unfolding free_frame
free_frame_at p i offset lt small =
    let index : (p.memory_start + i * page_size + offset - p.memory_start) / page_size ≡ i =
      omega arith in
    rw index (ground arith)

used-release :
    (p : Pmm) (i j : ℕ)
    → i < 32 * length p.bitmap
    → used (release i p) j ≡ (not (i == j) && used p j)
unfolding release
used-release p i j h = elim (Bool-cases (is_used p.bitmap i)) [
  | inl e ↦ rw e (is_used-unmark p.bitmap i j h)
  | inr e ↦ rw e (elim (Bool-cases (i == j)) [
    | inl same ↦ let q : i ≡ j = ground arith in rw same (rw (← q) e)
    | inr other ↦ rw other
  ])
]

free_frames-release :
    (p : Pmm) (i : ℕ)
    → IsValid p
    → i < p.total_frames
    → (release i p).free_frames ≡ p.free_frames + (if used p i then 1 else 0)
unfolding release
free_frames-release p i v lt =
    ground (arith, free_below-le p.bitmap p.total_frames, v.counted, v.reachable)

-- `free_frame` at any address inside frame `i` of a valid state clears that frame's mark and no
-- other, and raises the counter by one exactly when the frame was marked.
pub free_frame_lem :
    (p : Pmm) (i offset : ℕ)
    → IsValid p
    → i < p.total_frames
    → offset < page_size
    → ((j : ℕ)
        → used (free_frame p (p.memory_start + i * page_size + offset)) j
          ≡ (not (i == j) && used p j))
      × ((free_frame p (p.memory_start + i * page_size + offset)).free_frames
          ≡ p.free_frames + (if used p i then 1 else 0))
free_frame_lem p i offset v lt small =
    rw (free_frame_at p i offset lt small)
      ((λ j. used-release p i j (omega (arith, v.covered))), free_frames-release p i v lt)

total_frames-allocate :
    (p : Pmm)
    → ((allocate_frame p).0.total_frames ≡ p.total_frames)
      × ((allocate_frame p).0.memory_start ≡ p.memory_start)
unfolding allocate_frame reserve
total_frames-allocate p = ground arith

-- A frame that was just allocated and is freed at its address leaves every mark and the counter
-- as they were before.
free_frame-allocate_frame :
    (p : Pmm)
    → IsValid p
    → 0 < p.free_frames
    → let q = free_frame (allocate_frame p).0 (allocate_frame p).1 in
      ((j : ℕ) → used q j ≡ used p j) × (q.free_frames ≡ p.free_frames) × IsValid q
free_frame-allocate_frame p v some_free =
    let (i, a) = allocate_frame-Allocates p v some_free in
    let r = (allocate_frame p).0 in
    let same = total_frames-allocate p in
    let f = free_frame_lem r i 0 a.valid (omega (arith, a.first.before)) (omega arith) in
    let at : (allocate_frame p).1 ≡ r.memory_start + i * page_size + 0 = omega (arith, a.address) in
    rw at (
      (λ j. ground (arith, f.0 j, a.taken j, a.first.clear)),
      ground (arith, f.1, a.taken i, a.one_less),
      free_frame-IsValid r _ a.valid,
    )

-- `free_frame` marks nothing.
pub free_frame-stays_clear :
    (p : Pmm) (addr j : ℕ) → IsValid p → used p j ≡ false → used (free_frame p addr) j ≡ false
free_frame-stays_clear p addr j v clear = elim (free_frame_cases p addr) [
  | inl e ↦ rw e clear
  | inr (i, lt, _, e) ↦ rw e (ground (arith, used-release p i j (omega (arith, v.covered))))
]

pub free_frame-fields :
    (p : Pmm) (addr : ℕ)
    → ((free_frame p addr).total_frames ≡ p.total_frames)
      × ((free_frame p addr).memory_start ≡ p.memory_start)
unfolding free_frame release
free_frame-fields p addr = ground arith
