-- ===== src/Memory/Heap/Merge.antt =====
-- `merge_free_blocks` of kernel/src/memory/heap.cpp: the tiling, the used blocks, and what the free ones reach over.
use pocky.Common.{
  ℕ, ◌+◌, ◌<◌, ◌≤◌, ◌≡◌, refl, subst, inl, inr, Bool, true, false, ◌&&◌, List, [], ◌∷◌, arith,
  u64_mod, Bool-cases,
}
use pocky.Memory.Heap.{Block, join, header_size, merge_from, merge_free_blocks, free}
use pocky.Memory.Heap.Tiling.{Tiles, Tiles-le}
use pocky.Memory.Heap.Allocate.{Holds}

Tiles-merge_from :
    (s e used : ℕ) (b : Block) (bs : List Block)
    → e < u64_mod
    → Tiles s (b ∷ bs) e
    → Tiles s (merge_from b bs used).0 e
unfolding merge_from
Tiles-merge_from s e used b [] room t = t
Tiles-merge_from s e used b (c ∷ rest) room t = elim (Bool-cases (b.free && c.free)) [
  | inl y ↦
      let past = Tiles-le (s + header_size + b.size + header_size + c.size) e rest t.1.1 in
      rw y (
        Tiles-merge_from s e _ (join b c) rest room
          (t.0, subst (λ k. Tiles k rest e) (omega arith) t.1.1))
  | inr n ↦ rw n (t.0, Tiles-merge_from (s + header_size + b.size) e used c rest room t.1)
]

-- The flag of the first block.
abbrev head_free : List Block → Bool
head_free [] = false
head_free (b ∷ bs) = b.free

-- No free block is followed by a free block.
abbrev pub IsMerged : List Block → Type 0
IsMerged [] = Unit {0}
IsMerged (b ∷ bs) = ((b.free && head_free bs) ≡ false) × IsMerged bs

head_free-merge_from :
    (b : Block) (bs : List Block) (used : ℕ) → head_free (merge_from b bs used).0 ≡ b.free
unfolding merge_from
head_free-merge_from b [] used = refl
head_free-merge_from b (c ∷ rest) used = elim (Bool-cases (b.free && c.free)) [
  | inl y ↦ rw y (head_free-merge_from (join b c) rest _)
  | inr n ↦ rw n
]

merge_from-IsMerged : (b : Block) (bs : List Block) (used : ℕ) → IsMerged (merge_from b bs used).0
unfolding merge_from
merge_from-IsMerged b [] used = (ground arith, tt)
merge_from-IsMerged b (c ∷ rest) used = elim (Bool-cases (b.free && c.free)) [
  | inl y ↦ rw y (merge_from-IsMerged (join b c) rest _)
  | inr n ↦ rw n (rw (head_free-merge_from c rest used) n, merge_from-IsMerged c rest used)
]

Holds-join :
    (u b c : Block) (rest : List Block)
    → u.free ≡ false
    → (b.free && c.free) ≡ true
    → Holds u (b ∷ c ∷ rest)
    → Holds u (join b c ∷ rest)
Holds-join u b c rest d y (inl e) = absurd (ground arith)
Holds-join u b c rest d y (inr (inl e)) = absurd (ground arith)
Holds-join u b c rest d y (inr (inr h)) = inr h

Holds-merge_from :
    (u b : Block) (bs : List Block) (used : ℕ)
    → u.free ≡ false
    → Holds u (b ∷ bs)
    → Holds u (merge_from b bs used).0
unfolding merge_from
Holds-merge_from u b [] used d h = h
Holds-merge_from u b (c ∷ rest) used d h = elim (Bool-cases (b.free && c.free)) [
  | inl y ↦ rw y (Holds-merge_from u (join b c) rest _ d (Holds-join u b c rest d y h))
  | inr n ↦
      let later = λ (k : Holds u (c ∷ rest)). Holds-merge_from u c rest used d k in
      rw n (elim h [ inl e ↦ inl e | inr k ↦ inr (later k) ])
]

-- A free block of the chain reaches over the addresses from one to before another.
abbrev pub FreeOver : ℕ → ℕ → List Block → Type 0
FreeOver low high bs =
    (c : Block) × Holds c bs
    × (c.free ≡ true)
    × (c.addr ≤ low)
    × (high ≤ c.addr + header_size + c.size)

FreeOver-later :
    (low high : ℕ) (b : Block) (bs : List Block) → FreeOver low high bs → FreeOver low high (b ∷ bs)
FreeOver-later low high b bs (c, held, free, below, above) = (c, inr held, free, below, above)

FreeOver-join :
    (s e low high : ℕ) (b c : Block) (rest : List Block)
    → e < u64_mod
    → Tiles s (b ∷ c ∷ rest) e
    → (b.free && c.free) ≡ true
    → FreeOver low high (b ∷ c ∷ rest)
    → FreeOver low high (join b c ∷ rest)
FreeOver-join s e low high b c rest room t y (u, inr (inr held), free, below, above) =
    (u, inr held, free, below, above)
FreeOver-join s e low high b c rest room t y (u, inl same, free, below, above) =
    let past = Tiles-le (s + header_size + b.size + header_size + c.size) e rest t.1.1 in
    (join b c, inl refl, ground arith, ground arith, ground arith)
FreeOver-join s e low high b c rest room t y (u, inr (inl same), free, below, above) =
    let past = Tiles-le (s + header_size + b.size + header_size + c.size) e rest t.1.1 in
    (join b c, inl refl, ground arith, ground arith, ground arith)

FreeOver-merge_from :
    (s e used low high : ℕ) (b : Block) (bs : List Block)
    → e < u64_mod
    → Tiles s (b ∷ bs) e
    → FreeOver low high (b ∷ bs)
    → FreeOver low high (merge_from b bs used).0
unfolding merge_from
FreeOver-merge_from s e used low high b [] room t over = over
FreeOver-merge_from s e used low high b (c ∷ rest) room t over =
    elim (Bool-cases (b.free && c.free)) [
      | inl y ↦
          let past = Tiles-le (s + header_size + b.size + header_size + c.size) e rest t.1.1 in
          rw y (
            FreeOver-merge_from s e _ low high (join b c) rest room
              (t.0, subst (λ k. Tiles k rest e) (omega arith) t.1.1)
              (FreeOver-join s e low high b c rest room t y over))
      | inr n ↦
          let (u, held, free, below, above) = over in
          rw n (elim held [
            | inl same ↦ (u, inl same, free, below, above)
            | inr later ↦ FreeOver-later low high b _ (
                FreeOver-merge_from (s + header_size + b.size) e used low high c rest room t.1
                  (u, later, free, below, above))
          ])
    ]

-- What `merge_free_blocks` keeps, and what it brings about.
pub record Merges (s e : ℕ) (bs bs' : List Block) : Type 0 where
  pub tiles : Tiles s bs' e
  pub merged : IsMerged bs'
  pub others : (u : Block) → Holds u bs → u.free ≡ false → Holds u bs'
  pub covers : (low high : ℕ) → FreeOver low high bs → FreeOver low high bs'

pub merge_free_blocks-Merges :
    (s e used : ℕ) (bs : List Block)
    → e < u64_mod
    → Tiles s bs e
    → Merges s e bs (merge_free_blocks bs used).0
unfolding merge_free_blocks
merge_free_blocks-Merges s e used [] room t = record {
  tiles = t;
  merged = tt;
  others = λ u h d. h;
  covers = λ low high over. over;
}
merge_free_blocks-Merges s e used (b ∷ bs) room t = record {
  tiles = Tiles-merge_from s e used b bs room t;
  merged = merge_from-IsMerged b bs used;
  others = λ u h d. Holds-merge_from u b bs used d h;
  covers = λ low high over. FreeOver-merge_from s e used low high b bs room t over;
}
