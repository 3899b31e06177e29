-- ===== src/Memory/Heap/Tiling.antt =====
-- The chain of blocks tiles the heap's range: each block starts where the one before it ends.
use pocky.Common.{
  ℕ, ◌+◌, ◌%◌, ◌<◌, ◌≤◌, ◌≡◌, refl, sym, subst, inl, inr, Bool, true, ◌&&◌, some, List, [], ◌∷◌,
  ◌++◌, ◌==◌, leb, leb→le, arith, u64_mod, Bool-cases, Option-cases,
}
use pocky.Memory.Heap.{
  Block, Heap, initialize, find_free_block, find_block, replace, header_size, set_free, split_block,
}

abbrev pub Tiles : ℕ → List Block → ℕ → Type 0
Tiles start [] end = start ≡ end
Tiles start (b ∷ bs) end = (b.addr ≡ start) × Tiles (start + header_size + b.size) bs end

pub Tiles-append :
    (s m e : ℕ) (xs ys : List Block) → Tiles s xs m → Tiles m ys e → Tiles s (xs ++ ys) e
Tiles-append s m e [] ys p q = rw p q
Tiles-append s m e (x ∷ xs) ys p q = (p.0, Tiles-append (s + header_size + x.size) m e xs ys p.1 q)

pub Tiles-le : (s e : ℕ) (bs : List Block) → Tiles s bs e → s ≤ e
Tiles-le s e [] p = omega arith
Tiles-le s e (b ∷ bs) p = omega (arith, Tiles-le (s + header_size + b.size) e bs p.1)

-- A block of the chain lies inside the range.
pub find_block-inside :
    (s e a : ℕ) (bs : List Block) {b : Block}
    → Tiles s bs e
    → find_block bs a ≡ some b
    → (b.addr ≡ a) × (s ≤ a) × (a + header_size + b.size ≤ e)
unfolding find_block
find_block-inside s e a [] p q = cc
find_block-inside s e a (c ∷ bs) {b} p q = elim (Bool-cases (c.addr == a)) [
  | inl y ↦ ground (arith, Tiles-le (s + header_size + c.size) e bs p.1)
  | inr n ↦
      let deeper = find_block-inside (s + header_size + c.size) e a bs p.1 (rw n at q) in
      omega (arith, deeper)
]

-- To put blocks that fill the same room in the place of a block keeps the tiling.
pub Tiles-replace :
    (s e a : ℕ) (bs new : List Block) {b : Block}
    → Tiles s bs e
    → find_block bs a ≡ some b
    → Tiles b.addr new (b.addr + header_size + b.size)
    → Tiles s (replace a new bs) e
unfolding find_block replace
Tiles-replace s e a [] new p q t = cc
Tiles-replace s e a (c ∷ bs) new {b} p q t = elim (Bool-cases (c.addr == a)) [
  | inl y ↦
      let same : c ≡ b = ground (arith, q) in
      let here : Tiles c.addr new (c.addr + header_size + c.size) =
        subst (λ (x : Block). Tiles x.addr new (x.addr + header_size + x.size)) (sym same) t in
      rw y (
        Tiles-append s (s + header_size + c.size) e new bs
          (subst (λ k. Tiles k new (k + header_size + c.size)) p.0 here) p.1)
  | inr n ↦ rw n (p.0, Tiles-replace (s + header_size + c.size) e a bs new p.1 (rw n at q) t)
]

-- What the search finds is a free block of the chain that is large enough.
pub find_free_block-find_block :
    (s e size a : ℕ) (bs : List Block)
    → Tiles s bs e
    → find_free_block bs size ≡ some a
    → (b : Block) × (find_block bs a ≡ some b) × (b.free ≡ true) × (size ≤ b.size)
unfolding find_free_block find_block
find_free_block-find_block s e size a [] p q = cc
find_free_block-find_block s e size a (c ∷ bs) p q = elim (Bool-cases (c.free && leb size c.size)) [
  | inl y ↦ (c, ground arith, ground arith, ground arith)
  | inr n ↦
      let (b, found, free, fits) =
        find_free_block-find_block (s + header_size + c.size) e size a bs p.1 (rw n at q) in
      let beyond = find_block-inside (s + header_size + c.size) e a bs p.1 found in
      (b, ground (arith, p.0), free, fits)
]

pub find_block-addr : (a : ℕ) (bs : List Block) {b : Block} → find_block bs a ≡ some b → b.addr ≡ a
unfolding find_block
find_block-addr a [] q = cc
find_block-addr a (c ∷ bs) q = elim (Bool-cases (c.addr == a)) [
  | inl y ↦ ground arith
  | inr n ↦ find_block-addr a bs (rw n at q)
]

pub Tiles-set_free :
    (s e a : ℕ) (x : Bool) (bs : List Block) → Tiles s bs e → Tiles s (set_free a x bs) e
unfolding set_free
Tiles-set_free s e a x bs p = elim (Option-cases (find_block bs a)) [
  | inl missing ↦ rw (missing, set_free) p
  | inr (b, found) ↦ rw (found, set_free) (Tiles-replace s e a bs _ p found (omega arith))
]

-- A heap whose chain tiles a range of `total_size` bytes. The range ends below the end of the
-- address space by at least what the test of `split_block` adds to a size, so that no sum wraps.
pub record IsTiled (start : ℕ) (h : Heap) : Type 0 where
  pub tiles : Tiles start h.blocks (start + h.total_size)
  pub in_memory : start + h.total_size + header_size + 32 < u64_mod

pub split_block-IsTiled :
    (start : ℕ) (h : Heap) (b : Block) (size : ℕ)
    → IsTiled start h
    → find_block h.blocks b.addr ≡ some b
    → size ≤ b.size
    → IsTiled start (split_block h b size) × ((split_block h b size).total_size ≡ h.total_size)
unfolding split_block
split_block-IsTiled start h b size v found fits =
    let inside = find_block-inside start _ b.addr h.blocks v.tiles found in
    elim (Bool-cases (leb ((size + header_size + 32) % u64_mod) b.size)) [
      | inl y ↦
          let room = leb→le ((size + header_size + 32) % u64_mod) b.size y in
          rw y (
            record {
              tiles =
                  Tiles-replace start (start + h.total_size) b.addr h.blocks _ v.tiles found
                    (omega (arith, v.in_memory));
              in_memory = v.in_memory;
            },
            refl,
          )
      | inr n ↦ rw n (v, refl)
    ]

-- With room for a header and a range that ends well below the end of the address space,
-- `initialize` leaves a heap whose chain tiles that range.
pub initialize-IsTiled :
    (start size : ℕ)
    → header_size ≤ size
    → start + size + header_size + 32 < u64_mod
    → IsTiled start (initialize start size)
unfolding initialize
initialize-IsTiled start size h r = record { tiles = omega arith; in_memory = r }
