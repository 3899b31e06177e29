-- ===== src/Memory/Virtual/Mapping.antt =====
-- `map_page`, `unmap_page` and `get_physical_address` on a tree of page tables.
use pocky.Common.{
  ℕ, suc, ◌^◌, ◌<◌, ◌≡◌, refl, ap, sym, ◌∙◌, Bool, true, false, not, ◌&&◌, bit_and, bit_or,
  if◌then◌else◌, ◌==◌, arith, Bool-cases, inl, inr, ◌⊎◌,
}
use pocky.Common.Bits.{bit-lt-two, bit-bit_and, bit-bit_or}
use pocky.Memory.Virtual.Entry.{present, huge_page, small_mask, address}
use pocky.Memory.Virtual.Digits.{
  bit_and-below, bit_and-below_left, bit_or-below, bit_ext, bit-small_mask, bit-low_mask,
  bit-page_mask,
}
use pocky.Memory.Virtual.Tables.{IsEntry, store_same, store_other}
use pocky.Memory.Virtual.Tree.{IsTree, entry_apart}
use pocky.Memory.Virtual.{Vmm, entry_at, store, page_mask, pt_index, walk, get_physical_address}

-- `virtual_addr & PAGE_MASK`
abbrev pub page : ℕ → ℕ
page a = bit_and a page_mask

-- Is there an entry that is present at the end of the walk?
unfoldable pub is_mapped : Vmm → ℕ → Bool
is_mapped s virtual_addr =
    let pt = walk s (page virtual_addr) false in
    not (pt.1 == 0) && present (pt.0.words (entry_at pt.1 (pt_index (page virtual_addr))))

-- What an entry contributes to the answer of `get_physical_address`.
abbrev pub answer : ℕ → ℕ → ℕ
answer e addr = if present e then bit_or (bit_and (address e) page_mask) (bit_and addr 0xFFF) else 0

pub get_found :
    (s : Vmm) (va pt : ℕ)
    → walk s (page va) false ≡ (s, pt)
    → (pt == 0) ≡ false
    → get_physical_address s va ≡ answer (s.words (entry_at pt (pt_index (page va)))) (page va)
unfolding get_physical_address
get_found s va pt found z = rw (found, z) refl

pub mapped_found :
    (s : Vmm) (va pt : ℕ)
    → walk s (page va) false ≡ (s, pt)
    → (pt == 0) ≡ false
    → is_mapped s va ≡ present (s.words (entry_at pt (pt_index (page va))))
unfolding is_mapped
mapped_found s va pt found z = rw (found, z) refl

pub mapped_stops : (s : Vmm) (va : ℕ) → walk s (page va) false ≡ (s, 0) → is_mapped s va ≡ false
unfolding is_mapped
mapped_stops s va stops = rw stops refl

pub below_small : (n : ℕ) → bit_and n small_mask < 2 ^ 48
below_small n = bit_and-below 48 n small_mask (omega arith)

-- The page's own offset has been masked away before it is added.
pub answer_filled :
    (e va pa : ℕ)
    → IsEntry e (bit_and (page pa) small_mask)
    → answer e (page va) ≡ bit_and pa small_mask
answer_filled e va pa filled =
    let target = bit_and (page pa) small_mask in
    let offset : bit_and (page va) 0xFFF < 2 ^ 48 =
      omega (arith, bit_and-below 12 (page va) 0xFFF (omega arith)) in
    let small : bit_and target page_mask < 2 ^ 48 =
      bit_and-below_left 48 target page_mask (below_small (page pa)) in
    rw (filled.here, filled.target)
      (bit_ext 48 _ _ (bit_or-below 48 _ _ small offset) (below_small pa) (λ j lt. ground (
        arith,
        bit-bit_or (bit_and target page_mask) (bit_and (page va) 0xFFF) j,
        bit-bit_and target page_mask j,
        bit-bit_and (page pa) small_mask j,
        bit-bit_and pa page_mask j,
        bit-bit_and (page va) 0xFFF j,
        bit-bit_and va page_mask j,
        bit-bit_and pa small_mask j,
        bit-page_mask j (omega arith),
        bit-small_mask j lt,
        bit-low_mask j (omega arith),
        bit-lt-two pa j,
        bit-lt-two va j,
      )))

module _ (level : ℕ → ℕ) (s : Vmm) (tree : IsTree level s) (pt i v : ℕ) where
  -- Writing to an entry of a table of pages leaves the tables above.
  pub write_below :
      (t j : ℕ)
      → level pt ≡ 1
      → i < 512
      → 1 < level t
      → j < 512
      → store (entry_at pt i) v s.words (entry_at t j) ≡ s.words (entry_at t j)
  write_below t j leaf hi ht hj = elim (Bool-cases (entry_at t j == entry_at pt i)) [
    | inr other ↦ store_other _ v _ s.words other
    | inl same ↦
        let (_, at, _) = tree.frame pt (omega (arith, leaf)) in
        let (q, _) =
          entry_apart level s t pt j i tree (omega (arith, ht)) (omega (arith, tree.pool.whole)) hj
            hi (ground arith) in
        absurd (omega (arith, leaf, ht, ap level q))
  ]

  -- What is written there is a present entry, or nothing: the tables are a tree still.
  pub write-IsTree :
      level pt ≡ 1
      → i < 512
      → (present v ≡ true) ⊎ (v ≡ 0)
      → IsTree level (record s { words = store (entry_at pt i) v s.words })
  write-IsTree leaf hi fits = record {
    pool = tree.pool;
    root = tree.root;
    nonzero = tree.nonzero;
    frame = tree.frame;
    blank = λ t j ht hj gone. elim (Bool-cases (entry_at t j == entry_at pt i)) [
      | inr other ↦
          let same = store_other _ v _ s.words other in
          same ∙ tree.blank t j ht hj (ap present (sym same) ∙ gone)
      | inl e ↦
          let q : entry_at t j ≡ entry_at pt i = ground arith in
          let word = ap (store (entry_at pt i) v s.words) q ∙ store_same _ v s.words in
          elim fits [
            | inl here ↦ absurd (ground (arith, ap present word, here, gone))
            | inr zero_word ↦ word ∙ zero_word
          ]
    ];
    upper = λ t j ht hj here.
        let same = write_below t j leaf hi (omega arith) hj in
        ap huge_page same ∙ tree.upper t j ht hj (ap present (sym same) ∙ here);
    below = λ t j ht hj here small.
        let same = write_below t j leaf hi ht hj in
        ap (λ w. suc (level (address w))) same
        ∙ tree.below t j ht hj (ap present (sym same) ∙ here) (ap huge_page (sym same) ∙ small);
  }
