-- ===== src/Memory/Virtual/Translation.antt =====
-- What `map_page` and `unmap_page` do to the answers of `get_physical_address`.
use pocky.Common.{
  ℕ, ◌<◌, ◌≤◌, ◌≡◌, refl, ap, sym, subst, ◌∙◌, Bool, true, false, bit_and, if◌then◌else◌, ◌==◌,
  arith, Bool-cases, inl, inr,
}
use pocky.Memory.Virtual.Entry.{present, huge_page, small_mask}
use pocky.Memory.Virtual.Tables.{IsEntry, fill_entry-IsEntry, store_same, store_other}
use pocky.Memory.Virtual.Tree.{IsTree}
use pocky.Memory.Virtual.Walk.{index_below, is_huge, IsPath, walk-IsPath, Walks}
use pocky.Memory.Virtual.Descent.{walk-Walks}
use pocky.Memory.Virtual.Path.{IsPath-kept, read}
use pocky.Memory.Virtual.Link.{zero_small, zero_absent}
use pocky.Memory.Virtual.Mapping.{
  page, is_mapped, answer, get_found, mapped_found, mapped_stops, answer_filled, write_below,
  write-IsTree,
}
use pocky.Memory.Virtual.{
  Vmm, entry_at, store, pt_index, walk, fill_entry, write_entry, map_entry, map_page, unmap_page,
  get_physical_address,
}

module _ (level : ℕ → ℕ) (s : Vmm) (va : ℕ) (tree : IsTree level s) (free : 3 ≤ s.pmm.free_frames)
    (flat : is_huge s (page va) ≡ false) where
  walked : Walks level s (page va) (walk s (page va) true)
  walked = walk-Walks level s (page va) tree free flat

  abbrev r : Vmm × ℕ
  r = walk s (page va) true

  abbrev leaf : ℕ
  leaf = entry_at r.1 (pt_index (page va))

  map_page_end :
      (pa : ℕ) (writable : Bool) → map_page s va pa writable ≡ map_entry r.0 leaf (page pa) writable
  unfolding map_page
  map_page_end pa writable = rw (walked.path.pt_nonzero) refl

  walk_again : (create : Bool) → walk r.0 (page va) create ≡ (r.0, r.1)
  walk_again create =
      walk-IsPath walked.levels r.0 (page va) walked.pdpt walked.pd r.1 create walked.path

  -- A page that the walk finds mapped was mapped before, and nothing changes.
  map_page-present :
      (pa : ℕ) (writable : Bool)
      → present (r.0.words leaf) ≡ true
      → (map_page s va pa writable ≡ s) × (is_mapped s va ≡ true)
  unfolding map_entry
  map_page-present pa writable here = elim walked.kind [
    | inl same ↦
        let found = subst (λ x. walk x (page va) false ≡ (x, r.1)) same (walk_again false) in
        (
          map_page_end pa writable ∙ rw here same,
          mapped_found s va r.1 found walked.path.pt_nonzero
              ∙ (ap (λ x. present (x.words leaf)) (sym same) ∙ here),
        )
    | inr (_, empty) ↦ absurd (ground (arith, here, zero_absent, ap present empty))
  ]

  -- Otherwise it was not, and its entry is filled.
  map_page-absent :
      (pa : ℕ) (writable : Bool)
      → present (r.0.words leaf) ≡ false
      → (map_page s va pa writable ≡ write_entry leaf (page pa) writable r.0)
        × (is_mapped s va ≡ false)
  unfolding map_entry
  map_page-absent pa writable gone = (
    map_page_end pa writable ∙ rw gone refl,
    elim walked.kind [
      | inl same ↦
          let found = subst (λ x. walk x (page va) false ≡ (x, r.1)) same (walk_again false) in
          mapped_found s va r.1 found walked.path.pt_nonzero
          ∙ (ap (λ x. present (x.words leaf)) (sym same) ∙ gone)
      | inr (stops, _) ↦ mapped_stops s va stops
    ],
  )

  filled :
      (pa : ℕ) (writable : Bool)
      → present (r.0.words leaf) ≡ false
      → IsEntry (fill_entry (page pa) writable (r.0.words leaf)) (bit_and (page pa) small_mask)
  filled pa writable gone =
      let blank =
        walked.tree.blank r.1 (pt_index (page va)) (omega (arith, walked.path.level_pt))
          (index_below _) gone in
      fill_entry-IsEntry (page pa) (r.0.words leaf) writable (ap huge_page blank ∙ zero_small)

  -- Where the tables are a tree, three frames are free and the walk meets no huge page, the tables
  -- after `map_page` are a tree again.
  pub map_page-IsTree :
      (pa : ℕ) (writable : Bool) → (level' : ℕ → ℕ) × IsTree level' (map_page s va pa writable)
  unfolding write_entry
  map_page-IsTree pa writable = elim (Bool-cases (present (r.0.words leaf))) [
    | inl here ↦ rw ((map_page-present pa writable here).0) (level, tree)
    | inr gone ↦ rw ((map_page-absent pa writable gone).0) (
      walked.levels,
      write-IsTree walked.levels r.0 walked.tree r.1 (pt_index (page va)) _ walked.path.level_pt
          (index_below _) (inl (filled pa writable gone).here),
    )
  ]

  -- Where the tables are a tree, three frames are free and the walk meets no huge page: after
  -- `map_page`, an address whose page was not mapped is translated to the start of the physical
  -- page, cut to 48 bits, and one whose page was mapped is translated as before.
  pub get-map_page :
      (pa : ℕ) (writable : Bool)
      → get_physical_address (map_page s va pa writable) va
        ≡ (if is_mapped s va then get_physical_address s va else bit_and pa small_mask)
  unfolding write_entry
  get-map_page pa writable = elim (Bool-cases (present (r.0.words leaf))) [
    | inl here ↦ let (same, mapped) = map_page-present pa writable here in rw (same, mapped) refl
    | inr gone ↦
        let (made, unmapped) = map_page-absent pa writable gone in
        let word = fill_entry (page pa) writable (r.0.words leaf) in
        let path =
          IsPath-kept walked.levels r.0 (write_entry leaf (page pa) writable r.0) (page va)
            walked.pdpt walked.pd r.1 walked.tree refl
            (λ t j ht hj _.
              write_below walked.levels r.0 walked.tree r.1 (pt_index (page va)) word t j
                walked.path.level_pt (index_below _) ht hj)
            walked.path in
        rw (made, unmapped)
          (get_found (write_entry leaf (page pa) writable r.0) va r.1
              (walk-IsPath walked.levels _ (page va) walked.pdpt walked.pd r.1 false path)
              walked.path.pt_nonzero
            ∙ (ap (λ e. answer e (page va)) (store_same leaf word r.0.words)
                ∙ answer_filled word va pa (filled pa writable gone)))
  ]

  -- Every entry that was present is still there.
  present_kept :
      (pa : ℕ) (writable : Bool) (t i : ℕ)
      → present (r.0.words leaf) ≡ false
      → 0 < level t
      → i < 512
      → present (s.words (entry_at t i)) ≡ true
      → (write_entry leaf (page pa) writable r.0).words (entry_at t i) ≡ s.words (entry_at t i)
  unfolding write_entry
  present_kept pa writable t i gone ht hi here =
      let kept = walked.grows.entries t i ht hi here in
      elim (Bool-cases (entry_at t i == leaf)) [
        | inr other ↦ store_other leaf _ (entry_at t i) r.0.words other ∙ kept
        | inl e ↦
            let q : entry_at t i ≡ leaf = ground arith in
            absurd (ground (arith, gone, here, ap present kept, ap (λ a. present (r.0.words a)) q))
      ]

-- The answers agree where the paths and the entries at their ends do.
path_translated :
    (level : ℕ → ℕ) (s s' : Vmm) (vb pdpt pd pt : ℕ)
    → IsPath level s (page vb) pdpt pd pt
    → IsPath level s' (page vb) pdpt pd pt
    → s'.words (entry_at pt (pt_index (page vb))) ≡ s.words (entry_at pt (pt_index (page vb)))
    → get_physical_address s' vb ≡ get_physical_address s vb
path_translated level s s' vb pdpt pd pt p q same =
    get_found s' vb pt (walk-IsPath level s' (page vb) pdpt pd pt false q) q.pt_nonzero
    ∙ (ap (λ e. answer e (page vb)) same
        ∙ sym (get_found s vb pt (walk-IsPath level s (page vb) pdpt pd pt false p) p.pt_nonzero))

-- Where the tables are a tree, three frames are free and neither walk meets a huge page, mapping
-- the page of one address leaves the translation of any address whose page is mapped.
pub get-map_page_mapped :
    (level : ℕ → ℕ) (s : Vmm) (va vb pa : ℕ) (writable : Bool)
    → IsTree level s
    → 3 ≤ s.pmm.free_frames
    → is_huge s (page va) ≡ false
    → is_huge s (page vb) ≡ false
    → is_mapped s vb ≡ true
    → get_physical_address (map_page s va pa writable) vb ≡ get_physical_address s vb
unfolding write_entry
get-map_page_mapped level s va vb pa writable tree free flat flat_b mapped =
    elim (read level s tree (page vb) flat_b) [
      | inl stops ↦ absurd (ground (arith, mapped, mapped_stops s vb stops))
      | inr (pdpt, pd, pt, path) ↦
          let here =
            sym (
              mapped_found s vb pt (walk-IsPath level s (page vb) pdpt pd pt false path)
                path.pt_nonzero)
            ∙ mapped in
          elim (Bool-cases
            (present ((r level s va tree free flat).0.words (leaf level s va tree free flat)))) [
              | inl old ↦
                  ap (λ x. get_physical_address x vb)
                    (map_page-present level s va tree free flat pa writable old).0
              | inr gone ↦
                  let made = (map_page-absent level s va tree free flat pa writable gone).0 in
                  let kept = present_kept level s va tree free flat pa writable in
                  let root = (walked level s va tree free flat).grows.same_root in
                  rw made (
                    path_translated level s _ vb pdpt pd pt path
                      (IsPath-kept level s _ (page vb) pdpt pd pt tree root
                        (λ t i ht hi there. kept t i gone (omega arith) hi there) path)
                      (kept pt (pt_index (page vb)) gone (omega (arith, path.level_pt))
                        (index_below _) here))
            ]
    ]

get_stops : (s : Vmm) (va : ℕ) → walk s (page va) false ≡ (s, 0) → get_physical_address s va ≡ 0
unfolding get_physical_address
get_stops s va stops = rw stops refl

-- Where the tables are a tree and the walk meets no huge page, an address has no translation after
-- `unmap_page`.
pub get-unmap_page :
    (level : ℕ → ℕ) (s : Vmm) (va : ℕ)
    → IsTree level s
    → is_huge s (page va) ≡ false
    → get_physical_address (unmap_page s va) va ≡ 0
unfolding unmap_page
get-unmap_page level s va tree flat = elim (read level s tree (page va) flat) [
  | inl stops ↦ rw stops (get_stops s va stops)
  | inr (pdpt, pd, pt, path) ↦
      let found = walk-IsPath level s (page va) pdpt pd pt false path in
      let i = pt_index (page va) in
      let s' : Vmm = record s { words = store (entry_at pt i) 0 s.words } in
      let path' =
        IsPath-kept level s s' (page va) pdpt pd pt tree refl
          (λ t j ht hj _. write_below level s tree pt i 0 t j path.level_pt (index_below _) ht hj)
          path in
      rw (found, path.pt_nonzero)
        (get_found s' va pt (walk-IsPath level s' (page va) pdpt pd pt false path') path.pt_nonzero
          ∙ rw (store_same (entry_at pt i) 0 s.words, zero_absent) refl)
]
