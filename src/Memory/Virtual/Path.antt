-- ===== src/Memory/Virtual/Path.antt =====
-- The walk that only reads, and the entries along it.
use pocky.Common.{
  ℕ, suc, ◌<◌, ◌≡◌, refl, sym, ◌∙◌, true, false, ◌==◌, arith, Bool-cases, inl, inr, ◌⊎◌,
}
use pocky.Memory.Virtual.Entry.{present, huge_page, address}
use pocky.Memory.Virtual.Tables.{IsEntry}
use pocky.Memory.Virtual.Tree.{IsTree}
use pocky.Memory.Virtual.{Vmm, entry_at, walk, pml4_index, pdpt_index, pd_index}
use pocky.Memory.Virtual.Walk.{
  index_below, is_huge, IsPath, nonzero_table, upper_small, walk_stops_at_pml4, walk_stops_at_pdpt,
  walk_stops_at_pd,
}
use pocky.Memory.Virtual.Descent.{is_huge_found}

-- A path stays one when the entries of the upper tables stay.
pub IsPath-kept :
    (level : ℕ → ℕ) (s s' : Vmm) (a pdpt pd pt : ℕ)
    → IsTree level s
    → s'.pml4 ≡ s.pml4
    → ((t i : ℕ)
        → 1 < level t
        → i < 512
        → present (s.words (entry_at t i)) ≡ true
        → s'.words (entry_at t i) ≡ s.words (entry_at t i))
    → IsPath level s a pdpt pd pt
    → IsPath level s' a pdpt pd pt
IsPath-kept level s s' a pdpt pd pt tree root kept p = record {
  top =
      rw (root, kept s.pml4 (pml4_index a) (omega (arith, tree.root)) (index_below _) p.top.here)
        p.top;
  middle =
      rw (kept pdpt (pdpt_index a) (omega (arith, p.level_pdpt)) (index_below _) p.middle.here)
        p.middle;
  bottom =
      rw (kept pd (pd_index a) (omega (arith, p.level_pd)) (index_below _) p.bottom.here) p.bottom;
  pdpt_nonzero = p.pdpt_nonzero;
  pd_nonzero = p.pd_nonzero;
  pt_nonzero = p.pt_nonzero;
  level_pdpt = p.level_pdpt;
  level_pd = p.level_pd;
  level_pt = p.level_pt;
}

module _ (level : ℕ → ℕ) (s : Vmm) (tree : IsTree level s) where
  -- What one entry of an upper table leads to.
  follow :
      (t i : ℕ)
      → 1 < level t
      → i < 512
      → present (s.words (entry_at t i)) ≡ true
      → huge_page (s.words (entry_at t i)) ≡ false
      → (t' : ℕ) × IsEntry (s.words (entry_at t i)) t'
        × (suc (level t') ≡ level t)
        × ((t' == 0) ≡ false)
  follow t i h hi here small =
      let below = tree.below t i h hi here small in
      (
        address (s.words (entry_at t i)),
        record { here = here; small = small; target = refl },
        below,
        nonzero_table level s (address (s.words (entry_at t i))) tree (omega (arith, below)),
      )

  abbrev Reads : ℕ → Type 0
  Reads a =
      (walk s a false ≡ (s, 0)) ⊎ ((pdpt : ℕ) × (pd : ℕ) × (pt : ℕ) × IsPath level s a pdpt pd pt)

  read_from_pd :
      (a pdpt pd : ℕ)
      → is_huge s a ≡ false
      → IsEntry (s.words (entry_at s.pml4 (pml4_index a))) pdpt
      → (pdpt == 0) ≡ false
      → level pdpt ≡ 3
      → IsEntry (s.words (entry_at pdpt (pdpt_index a))) pd
      → (pd == 0) ≡ false
      → level pd ≡ 2
      → Reads a
  read_from_pd a pdpt pd flat e3 z3 l3 e2 z2 l2 =
      elim (Bool-cases (present (s.words (entry_at pd (pd_index a))))) [
        | inr absent ↦ inl (walk_stops_at_pd s a pdpt pd e3 z3 e2 z2 absent)
        | inl here ↦
            let small = sym (is_huge_found s a pdpt pd e3 z3 e2 z2 here) ∙ flat in
            let (pt, e1, l1, z1) =
              follow pd (pd_index a) (omega (arith, l2)) (index_below _) here small in
            inr (
              pdpt,
              pd,
              pt,
              record {
                top = e3;
                middle = e2;
                bottom = e1;
                pdpt_nonzero = z3;
                pd_nonzero = z2;
                pt_nonzero = z1;
                level_pdpt = l3;
                level_pd = l2;
                level_pt = omega (arith, l1, l2);
              },
            )
      ]

  read_from_pdpt :
      (a pdpt : ℕ)
      → is_huge s a ≡ false
      → IsEntry (s.words (entry_at s.pml4 (pml4_index a))) pdpt
      → (pdpt == 0) ≡ false
      → level pdpt ≡ 3
      → Reads a
  read_from_pdpt a pdpt flat e3 z3 l3 =
      elim (Bool-cases (present (s.words (entry_at pdpt (pdpt_index a))))) [
        | inr absent ↦ inl (walk_stops_at_pdpt s a pdpt e3 z3 absent)
        | inl here ↦
            let small =
              upper_small level s pdpt (pdpt_index a) tree (omega (arith, l3)) (index_below _) in
            let (pd, e2, l2, z2) =
              follow pdpt (pdpt_index a) (omega (arith, l3)) (index_below _) here small in
            read_from_pd a pdpt pd flat e3 z3 l3 e2 z2 (omega (arith, l2, l3))
      ]

  -- The walk stops at an absent entry, or there is a path.
  pub read : (a : ℕ) → is_huge s a ≡ false → Reads a
  read a flat = elim (Bool-cases (present (s.words (entry_at s.pml4 (pml4_index a))))) [
    | inr absent ↦ inl (walk_stops_at_pml4 s a absent)
    | inl here ↦
        let top = tree.root in
        let small =
          upper_small level s s.pml4 (pml4_index a) tree (omega (arith, top)) (index_below _) in
        let (pdpt, e3, l3, z3) =
          follow s.pml4 (pml4_index a) (omega (arith, top)) (index_below _) here small in
        read_from_pdpt a pdpt flat e3 z3 (omega (arith, l3, top))
  ]
