-- ===== src/Memory/Heap/Allocate.antt =====
-- `allocate`: what a call does to the chain, and what it returns.
use pocky.Common.{
  ℕ, ◌+◌, ◌%◌, ◌≤◌, ◌≡◌, refl, ◌≢◌, ◌⊎◌, inl, inr, Bool, true, false, some, List, [], ◌∷◌, ◌++◌,
  ◌==◌, leb, arith, u64_mod, Bool-cases,
}
use pocky.Memory.Heap.{
  Block, Heap, find_block, replace, header_size, set_free, split_block, split_parts, take_block,
}
use pocky.Memory.Heap.Tiling.{IsTiled, Tiles-set_free, split_block-IsTiled}

-- A block of the chain.
abbrev pub Holds : Block → List Block → Type 0
Holds u [] = ⊥
Holds u (b ∷ bs) = (u ≡ b) ⊎ Holds u bs

pub find_block-replace :
    (a : ℕ) (bs ns : List Block) {b n : Block}
    → find_block bs a ≡ some b
    → n.addr ≡ a
    → find_block (replace a (n ∷ ns) bs) a ≡ some n
unfolding find_block replace
find_block-replace a [] ns q e = cc
find_block-replace a (c ∷ bs) ns {b} {n} q e = elim (Bool-cases (c.addr == a)) [
  | inl y ↦ rw y (ground arith)
  | inr k ↦ rw (k, k) (find_block-replace a bs ns (rw k at q) e)
]

Holds-append : (u : Block) (xs ys : List Block) → Holds u ys → Holds u (xs ++ ys)
Holds-append u [] ys h = h
Holds-append u (x ∷ xs) ys h = inr (Holds-append u xs ys h)

-- Replacing one block keeps every other block.
pub Holds-replace :
    (a : ℕ) (bs new : List Block) {b : Block} (u : Block)
    → find_block bs a ≡ some b
    → u ≢ b
    → Holds u bs
    → Holds u (replace a new bs)
unfolding find_block replace
Holds-replace a [] new u q d h = h
Holds-replace a (c ∷ bs) new {b} u q d (inl e) = elim (Bool-cases (c.addr == a)) [
  | inl y ↦ absurd (d (ground arith))
  | inr k ↦ rw k (inl e)
]
Holds-replace a (c ∷ bs) new {b} u q d (inr h) = elim (Bool-cases (c.addr == a)) [
  | inl y ↦ rw y (Holds-append u new bs h)
  | inr k ↦ rw k (inr (Holds-replace a bs new u (rw k at q) d h))
]

pub set_free_found :
    (a : ℕ) (x : Bool) (bs : List Block) {b : Block}
    → find_block bs a ≡ some b
    → set_free a x bs ≡ replace a (record b { free = x } ∷ []) bs
unfolding set_free
set_free_found a x bs q = rw (q, set_free)

-- What taking a free block for `size` bytes does.
pub record Takes (h h' : Heap) (b : Block) (size : ℕ) : Type 0 where
  pub taken : Block
  pub at : find_block h'.blocks b.addr ≡ some taken
  pub now_used : taken.free ≡ false
  pub fits : size ≤ taken.size
  pub others : (u : Block) → Holds u h.blocks → u.free ≡ false → Holds u h'.blocks

pub split_block_cases :
    (h : Heap) (b : Block) (size : ℕ)
    → (split_block h b size ≡ h)
      ⊎ (split_block h b size ≡ record h {
        blocks = replace b.addr (split_parts b size) h.blocks;
        used_memory = (h.used_memory + header_size) % u64_mod;
      })
unfolding split_block
split_block_cases h b size = elim (Bool-cases (leb ((size + header_size + 32) % u64_mod) b.size)) [
  | inl y ↦ inr (rw y)
  | inr n ↦ inl (rw n)
]

take_in :
    (h : Heap) (bs : List Block) (used : ℕ) (b c : Block) (size : ℕ)
    → find_block bs b.addr ≡ some c
    → c.addr ≡ b.addr
    → c.free ≡ true
    → size ≤ c.size
    → ((u : Block) → Holds u h.blocks → u.free ≡ false → Holds u bs)
    → Takes h (record h { blocks = set_free b.addr false bs; used_memory = used }) b size
take_in h bs used b c size found same free fits keep = record {
  taken = record c { free = false };
  at = rw (set_free_found b.addr false bs found) (find_block-replace b.addr bs [] found same);
  now_used = refl;
  fits = fits;
  others = λ u held is_used.
      rw (set_free_found b.addr false bs found)
        (Holds-replace b.addr bs _ u found (λ e. cc) (keep u held is_used));
}

pub take_block-Takes :
    (h : Heap) (b : Block) (size : ℕ)
    → find_block h.blocks b.addr ≡ some b
    → b.free ≡ true
    → size ≤ b.size
    → Takes h (take_block h b size) b size
unfolding take_block
take_block-Takes h b size found free fits = elim (split_block_cases h b size) [
  | inl e ↦ rw e (take_in h h.blocks _ b b size found refl free fits (λ u held _. held))
  | inr e ↦ rw e (
      take_in h (replace b.addr (split_parts b size) h.blocks) _ b (record b { size = size }) size
        (find_block-replace b.addr h.blocks _ found refl) refl free (omega arith)
        (λ u held is_used. Holds-replace b.addr h.blocks _ u found (λ e. cc) held))
]

pub take_block-IsTiled :
    (start : ℕ) (h : Heap) (b : Block) (size : ℕ)
    → IsTiled start h
    → find_block h.blocks b.addr ≡ some b
    → size ≤ b.size
    → IsTiled start (take_block h b size)
unfolding take_block
take_block-IsTiled start h b size v found fits =
    let (w, same) = split_block-IsTiled start h b size v found fits in
    record { tiles = Tiles-set_free start _ b.addr false _ w.tiles; in_memory = w.in_memory }
