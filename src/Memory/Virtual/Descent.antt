-- ===== src/Memory/Virtual/Descent.antt =====
-- The whole walk that creates tables, from the root to the table of the page's entry.
use pocky.Common.{
  ℕ, ◌≤◌, ◌≡◌, refl, ap, sym, subst, ◌∙◌, true, false, ◌==◌, arith, Bool-cases, inl, inr, ◌⊎◌,
}
use pocky.Memory.Virtual.Entry.{present, huge_page}
use pocky.Memory.Virtual.Tables.{IsEntry}
use pocky.Memory.Virtual.Tree.{IsTree, Grows, Grows-trans, Descends}
use pocky.Memory.Virtual.Link.{get_next_level_found, descend, zero_small, zero_absent}
use pocky.Memory.Virtual.{
  Vmm, entry_at, get_next_level, walk, pml4_index, pdpt_index, pd_index, pt_index,
}
use pocky.Memory.Virtual.Walk.{
  index_below, is_huge, IsPath, Walks, nonzero_table, absent_small, upper_small, walk_stops_at_pml4,
  walk_stops_at_pdpt, walk_stops_at_pd,
}

pub is_huge_found :
    (s : Vmm) (a pdpt pd : ℕ)
    → IsEntry (s.words (entry_at s.pml4 (pml4_index a))) pdpt
    → (pdpt == 0) ≡ false
    → IsEntry (s.words (entry_at pdpt (pdpt_index a))) pd
    → (pd == 0) ≡ false
    → present (s.words (entry_at pd (pd_index a))) ≡ true
    → is_huge s a ≡ huge_page (s.words (entry_at pd (pd_index a)))
unfolding is_huge
is_huge_found s a pdpt pd e3 z3 e2 z2 here =
    rw
      (
        get_next_level_found s s.pml4 (pml4_index a) pdpt false e3,
        z3,
        get_next_level_found s pdpt (pdpt_index a) pd false e2,
        z2,
        here,
      )
      refl

module _ (level : ℕ → ℕ) (s : Vmm) (a : ℕ) (tree : IsTree level s) (free : 3 ≤ s.pmm.free_frames)
    (flat : is_huge s a ≡ false) where
  abbrev r3 : Vmm × ℕ
  r3 = get_next_level s s.pml4 (pml4_index a) true

  d3 : Descends level s s.pml4 (pml4_index a) r3
  d3 =
      descend level s s.pml4 (pml4_index a) tree (omega (arith, tree.root)) (index_below _)
        (upper_small level s s.pml4 (pml4_index a) tree (omega (arith, tree.root)) (index_below _))
        (omega arith)

  level3 : d3.levels r3.1 ≡ 3
  level3 = omega (arith, d3.child, tree.root)

  nonzero3 : (r3.1 == 0) ≡ false
  nonzero3 = nonzero_table d3.levels r3.0 r3.1 d3.tree (omega (arith, level3))

  abbrev r2 : Vmm × ℕ
  r2 = get_next_level r3.0 r3.1 (pdpt_index a) true

  d2 : Descends d3.levels r3.0 r3.1 (pdpt_index a) r2
  d2 =
      descend d3.levels r3.0 r3.1 (pdpt_index a) d3.tree (omega (arith, level3)) (index_below _)
        (upper_small d3.levels r3.0 r3.1 (pdpt_index a) d3.tree (omega (arith, level3))
          (index_below _))
        (omega (arith, d3.frames))

  level2 : d2.levels r2.1 ≡ 2
  level2 = omega (arith, d2.child, level3)

  nonzero2 : (r2.1 == 0) ≡ false
  nonzero2 = nonzero_table d2.levels r2.0 r2.1 d2.tree (omega (arith, level2))

  -- The root's entry is still there after the second step.
  entry3 : IsEntry (r2.0.words (entry_at s.pml4 (pml4_index a))) r3.1
  entry3 =
      rw
        (d2.grows.entries s.pml4 (pml4_index a)
          (omega (arith, d3.grows.kept s.pml4 (omega (arith, tree.root)), tree.root))
          (index_below _) d3.entry.here)
        d3.entry

  root2 : r2.0.pml4 ≡ s.pml4
  root2 = d2.grows.same_root ∙ d3.grows.same_root

  -- When the second step finds its entry, so does the first.
  both_found : r2.0 ≡ r3.0 → present (r3.0.words (entry_at r3.1 (pdpt_index a))) ≡ true → r2.0 ≡ s
  both_found same here = elim d3.kind [
    | inl (same3, _) ↦ same ∙ same3
    | inr (_, empty) ↦
        absurd
          (ground (arith, here, zero_absent, ap present (empty (pdpt_index a) (index_below _))))
  ]

  pd_small : huge_page (r2.0.words (entry_at r2.1 (pd_index a))) ≡ false
  pd_small = elim (Bool-cases (present (r2.0.words (entry_at r2.1 (pd_index a))))) [
    | inr absent ↦
        absent_small d2.levels r2.0 r2.1 (pd_index a) d2.tree (omega (arith, level2))
          (index_below _) absent
    | inl here ↦ elim d2.kind [
      | inr (_, empty) ↦ ap huge_page (empty (pd_index a) (index_below _)) ∙ zero_small
      | inl (same, found) ↦
          let q = both_found same found in
          let huge =
            is_huge_found r2.0 a r3.1 r2.1 (rw root2 entry3) nonzero3 d2.entry nonzero2 here in
          sym huge ∙ (ap (λ x. is_huge x a) q ∙ flat)
    ]
  ]

  abbrev r1 : Vmm × ℕ
  r1 = get_next_level r2.0 r2.1 (pd_index a) true

  d1 : Descends d2.levels r2.0 r2.1 (pd_index a) r1
  d1 =
      descend d2.levels r2.0 r2.1 (pd_index a) d2.tree (omega (arith, level2)) (index_below _)
        pd_small (omega (arith, d3.frames, d2.frames))

  walk_end : walk s a true ≡ r1
  unfolding walk
  walk_end = rw (nonzero3, nonzero2) refl

  stops : present (r2.0.words (entry_at r2.1 (pd_index a))) ≡ false → walk s a false ≡ (s, 0)
  stops absent = elim d3.kind [
    | inr (gone, _) ↦ walk_stops_at_pml4 s a gone
    | inl (same3, _) ↦
        let at_s = ap (λ x. x.words (entry_at s.pml4 (pml4_index a))) same3 in
        elim d2.kind [
          | inr (gone, _) ↦
              walk_stops_at_pdpt s a r3.1 (rw at_s at d3.entry) nonzero3
                (ap (λ x. present (x.words (entry_at r3.1 (pdpt_index a)))) (sym same3) ∙ gone)
          | inl (same2, _) ↦
              let q = same2 ∙ same3 in
              walk_stops_at_pd s a r3.1 r2.1 (rw at_s at d3.entry) nonzero3
                (subst (λ x. IsEntry (x.words (entry_at r3.1 (pdpt_index a))) r2.1) q d2.entry)
                nonzero2 (ap (λ x. present (x.words (entry_at r2.1 (pd_index a)))) (sym q) ∙ absent)
        ]
  ]

  grows2 : Grows level d2.levels s r2.0
  grows2 = Grows-trans d3.grows d2.grows

  kept3 : d1.levels r3.1 ≡ d3.levels r3.1
  kept3 =
      d1.grows.kept r3.1 (omega (arith, d2.grows.kept r3.1 (omega (arith, level3)), level3))
      ∙ d2.grows.kept r3.1 (omega (arith, level3))

  last3 : IsEntry (r1.0.words (entry_at s.pml4 (pml4_index a))) r3.1
  last3 =
      rw
        (d1.grows.entries s.pml4 (pml4_index a)
          (omega (arith, grows2.kept s.pml4 (omega (arith, tree.root)), tree.root)) (index_below _)
          entry3.here)
        entry3

  last2 : IsEntry (r1.0.words (entry_at r3.1 (pdpt_index a))) r2.1
  last2 =
      rw
        (d1.grows.entries r3.1 (pdpt_index a)
          (omega (arith, d2.grows.kept r3.1 (omega (arith, level3)), level3)) (index_below _)
          d2.entry.here)
        d2.entry

  level1 : d1.levels r1.1 ≡ 1
  level1 = omega (arith, d1.child, level2)

  path : IsPath d1.levels r1.0 a r3.1 r2.1 r1.1
  path = record {
    top = rw (d1.grows.same_root ∙ root2) last3;
    middle = last2;
    bottom = d1.entry;
    pdpt_nonzero = nonzero3;
    pd_nonzero = nonzero2;
    pt_nonzero = nonzero_table d1.levels r1.0 r1.1 d1.tree (omega (arith, level1));
    level_pdpt = kept3 ∙ level3;
    level_pd = d1.grows.kept r2.1 (omega (arith, level2)) ∙ level2;
    level_pt = level1;
  }

  walk_kind :
      (r1.0 ≡ s) ⊎ ((walk s a false ≡ (s, 0)) × (r1.0.words (entry_at r1.1 (pt_index a)) ≡ 0))
  walk_kind = elim d1.kind [
    | inl (same1, found1) ↦ elim d2.kind [
      | inl (same2, found2) ↦ inl (same1 ∙ both_found same2 found2)
      | inr (_, empty) ↦
          absurd
            (ground (arith, found1, zero_absent, ap present (empty (pd_index a) (index_below _))))
    ]
    | inr (absent1, empty1) ↦ inr (stops absent1, empty1 (pt_index a) (index_below _))
  ]

  -- The walk from `s` ends where the first table was missing.
  pub walk-Walks : Walks level s a (walk s a true)
  walk-Walks = rw walk_end (record {
    levels = d1.levels;
    tree = d1.tree;
    grows = Grows-trans grows2 d1.grows;
    pdpt = r3.1;
    pd = r2.1;
    path = path;
    kind = walk_kind;
  })
