-- ===== src/Memory/Virtual/Link.antt =====
-- One call of `get_next_level`: the state it leaves is a tree again, and the entry it has read is
-- there for the next walk.
use pocky.Common.{
  ℕ, ◌+◌, ◌-◌, ◌*◌, ◌%◌, ◌<◌, ◌≡◌, refl, ap, subst, ◌∙◌, Bool, true, false, if◌then◌else◌, ◌==◌,
  arith, Bool-cases, inl, inr, ◌⊎◌,
}
use pocky.Memory.Physical.{Pmm, allocate_frame}
use pocky.Memory.Physical.Frames.{used}
use pocky.Memory.Virtual.Pool.{Takes, allocate_frame-Takes}
use pocky.Memory.Virtual.Entry.{has_flag, present, huge_page, address}
use pocky.Memory.Virtual.Flags.{aligned_small}
use pocky.Memory.Virtual.Tables.{
  IsEntry, fill_entry-IsEntry, store_same, store_other, clear_table_inside, clear_table_outside,
}
use pocky.Memory.Virtual.{
  Vmm, Words, entry_at, clear_table, create_page_table, fill_entry, write_entry, link_table,
  next_of, get_next_level,
}
use pocky.Memory.Virtual.Tree.{IsTree, Grows, Descends, entry_apart}

-- A table that is taken from the pool is none of the tables there are.
fresh_level :
    (level : ℕ → ℕ) (s : Vmm) (q : Pmm) (t : ℕ) → IsTree level s → Takes s.pmm q t → level t ≡ 0
fresh_level level s q t tree new = elim (Bool-cases (level t == 0)) [
  | inl e ↦ ground arith
  | inr e ↦
      let (k, at, taken) = tree.frame t (ground arith) in
      let same : k ≡ new.index = omega (arith, new.at) in
      absurd (ground (arith, new.was_free, ap (used s.pmm) same))
]

pub zero_small : huge_page 0 ≡ false
unfolding has_flag
zero_small = refl

pub zero_absent : present 0 ≡ false
unfolding has_flag
zero_absent = refl

grown : (ℕ → ℕ) → ℕ → ℕ → (ℕ → ℕ)
grown level t n u = if u == t then n else level u

-- The words of memory once a new table has been linked to an entry.
record IsLinked (level : ℕ → ℕ) (s : Vmm) (t i t' : ℕ) (w : Words) : Type 0 where
  linked : IsEntry (w (entry_at t i)) t'
  others :
      (u j : ℕ)
      → 0 < level u
      → j < 512
      → (entry_at u j == entry_at t i) ≡ false
      → w (entry_at u j) ≡ s.words (entry_at u j)
  empty : (j : ℕ) → j < 512 → w (entry_at t' j) ≡ 0

module _ (level : ℕ → ℕ) (s : Vmm) (t i : ℕ) (tree : IsTree level s) (h : 1 < level t)
    (hi : i < 512) (absent : present (s.words (entry_at t i)) ≡ false)
    (free : 0 < s.pmm.free_frames) where
  abbrev table : ℕ
  table = (allocate_frame s.pmm).1

  new : Takes s.pmm (allocate_frame s.pmm).0 table
  new = allocate_frame-Takes s.pmm tree.pool free

  table_whole : table % 4096 ≡ 0
  table_whole = omega (arith, new.at, tree.pool.whole)

  table_level : level table ≡ 0
  table_level = fresh_level level s (allocate_frame s.pmm).0 table tree new

  table_apart :
      (u j k : ℕ) → 0 < level u → j < 512 → k < 512 → (entry_at u j == entry_at table k) ≡ false
  table_apart u j k hu hj hk = elim (Bool-cases (entry_at u j == entry_at table k)) [
    | inl e ↦
        let (same, _) = entry_apart level s u table j k tree hu table_whole hj hk (ground arith) in
        absurd (omega (arith, table_level, ap level same))
    | inr e ↦ e
  ]

  cleared_same :
      (u j : ℕ)
      → 0 < level u
      → j < 512
      → clear_table table s.words (entry_at u j) ≡ s.words (entry_at u j)
  cleared_same u j hu hj =
      clear_table_outside table (entry_at u j) s.words (λ k hk. table_apart u j k hu hj hk)

  link_words : IsLinked level s t i table (link_table s (entry_at t i)).words
  unfolding link_table create_page_table write_entry has_flag
  link_words = record {
    linked =
        let word = cleared_same t i (omega arith) hi ∙ tree.blank t i (omega arith) hi absent in
        let e = clear_table table s.words (entry_at t i) in
        let kept = aligned_small table table_whole new.low in
        rw (store_same (entry_at t i) (fill_entry table true e) (clear_table table s.words)) (
          subst (λ a. IsEntry (fill_entry table true e) a) kept
            (fill_entry-IsEntry table e true (rw word refl)));
    others = λ u j hu hj other. store_other _ _ (entry_at u j) _ other ∙ cleared_same u j hu hj;
    empty = λ j hj.
        store_other _ _ (entry_at table j) _ (ground (arith, table_apart t i j (omega arith) hi hj))
        ∙ clear_table_inside table j s.words hj;
  }

  abbrev after : Vmm
  after = link_table s (entry_at t i)

  abbrev levels_after : ℕ → ℕ
  levels_after = grown level table (level t - 1)

  level_table : levels_after table ≡ level t - 1
  unfolding grown
  level_table = ground arith

  level_kept : (u : ℕ) → 0 < level u → levels_after u ≡ level u
  unfolding grown
  level_kept u hu = elim (Bool-cases (u == table)) [
    | inl e ↦ let q : u ≡ table = ground arith in absurd (omega (arith, table_level, ap level q))
    | inr e ↦ rw e refl
  ]

  -- An entry of a table is one of the new table, the one that was linked, or an old one.
  which_entry :
      (u j : ℕ)
      → 0 < levels_after u
      → j < 512
      → (after.words (entry_at u j) ≡ 0)
        ⊎ (((u ≡ t) × IsEntry (after.words (entry_at u j)) table)
            ⊎ ((0 < level u)
                × (levels_after u ≡ level u)
                × (after.words (entry_at u j) ≡ s.words (entry_at u j))))
  unfolding grown
  which_entry u j hu hj = elim (Bool-cases (u == table)) [
    | inl e ↦ let q : u ≡ table = ground arith in inl (rw q (link_words.empty j hj))
    | inr e ↦
        let old : 0 < level u = ground arith in
        elim (Bool-cases (entry_at u j == entry_at t i)) [
          | inl same ↦
              let (k, at, _) = tree.frame t (omega arith) in
              let (q, r) =
                entry_apart level s u t j i tree old (omega (arith, tree.pool.whole)) hj hi
                  (ground arith) in
              inr (inl (q, rw (q, r) link_words.linked))
          | inr other ↦ inr (inr (old, level_kept u old, link_words.others u j old hj other))
        ]
  ]

  after_pool : Takes s.pmm after.pmm table
  unfolding link_table create_page_table write_entry
  after_pool = new

  taken_after : used after.pmm new.index ≡ true
  unfolding link_table create_page_table write_entry
  taken_after = new.now_used

  after_root : after.pml4 ≡ s.pml4
  unfolding link_table create_page_table write_entry
  after_root = refl

  zero_level : 0 ≡ levels_after 0
  unfolding grown
  zero_level = ground (arith, new.nonzero, tree.nonzero)

  after_frame :
      (u : ℕ)
      → 0 < levels_after u
      → (k : ℕ) × (u ≡ after.pmm.memory_start + k * 4096) × (used after.pmm k ≡ true)
  unfolding grown
  after_frame u hu = elim (Bool-cases (u == table)) [
    | inl e ↦ (new.index, ground (arith, new.at, after_pool.same_start), taken_after)
    | inr e ↦
        let (k, at, taken) = tree.frame u (ground arith) in
        (k, ground (arith, after_pool.same_start), after_pool.still_used k taken)
  ]

  link_table-IsTree : IsTree levels_after after
  link_table-IsTree = record {
    pool = after_pool.pool;
    root = rw after_root (level_kept s.pml4 (omega (arith, tree.root)) ∙ tree.root);
    nonzero = zero_level;
    frame = after_frame;
    blank = λ u j hu hj gone. elim (which_entry u j hu hj) [
      | inl zero_word ↦ zero_word
      | inr (inl (_, e)) ↦ absurd (ground (arith, e.here))
      | inr (inr (old, _, same)) ↦ same ∙ tree.blank u j old hj (rw same at gone)
    ];
    upper = λ u j hu hj here. elim (which_entry u j (omega arith) hj) [
      | inl zero_word ↦ ap huge_page zero_word ∙ zero_small
      | inr (inl (_, e)) ↦ e.small
      | inr (inr (old, lv, same)) ↦
          rw same (tree.upper u j (omega (arith, lv)) hj (rw same at here))
    ];
    below = λ u j hu hj here small. elim (which_entry u j (omega arith) hj) [
      | inl zero_word ↦ absurd (ground (arith, here, ap present zero_word, zero_absent))
      | inr (inl (q, e)) ↦ omega (
        arith,
        ap levels_after e.target,
        level_table,
        ap levels_after q,
        level_kept t (omega arith),
      )
      | inr (inr (old, lv, same)) ↦
          let b = tree.below u j (omega (arith, lv)) hj (rw same at here) (rw same at small) in
          let child = level_kept (address (s.words (entry_at u j))) (omega (arith, b, lv, hu)) in
          rw same (omega (arith, b, lv, child))
    ];
  }

  link_table-Grows : Grows level levels_after s after
  link_table-Grows = record {
    same_root = after_root;
    kept = level_kept;
    entries = λ u j hu hj here. elim (Bool-cases (entry_at u j == entry_at t i)) [
      | inl e ↦
          let q : entry_at u j ≡ entry_at t i = ground arith in
          absurd (ground (arith, absent, here, ap (λ a. present (s.words a)) q))
      | inr other ↦ link_words.others u j hu hj other
    ];
  }

-- A present entry is followed, and nothing changes.
pub get_next_level_found :
    (s : Vmm) (t i t' : ℕ) (create : Bool)
    → IsEntry (s.words (entry_at t i)) t'
    → get_next_level s t i create ≡ (s, t')
unfolding get_next_level next_of
get_next_level_found s t i t' create e = rw (e.here, e.target) refl

-- An absent entry is not followed.
pub get_next_level_absent :
    (s : Vmm) (t i : ℕ)
    → present (s.words (entry_at t i)) ≡ false
    → get_next_level s t i false ≡ (s, 0)
unfolding get_next_level next_of
get_next_level_absent s t i absent = rw absent refl

module _ (level : ℕ → ℕ) (s : Vmm) (t i : ℕ) (tree : IsTree level s) (h : 1 < level t)
    (hi : i < 512) where
  descend_absent :
      present (s.words (entry_at t i)) ≡ false
      → 0 < s.pmm.free_frames
      → Descends level s t i (get_next_level s t i true)
  unfolding get_next_level next_of
  descend_absent absent free =
      let made = link_words level s t i tree h hi absent free in
      rw (absent, made.linked.here, made.linked.target)
        (record {
          levels = levels_after level s t i tree h hi absent free;
          tree = link_table-IsTree level s t i tree h hi absent free;
          grows = link_table-Grows level s t i tree h hi absent free;
          entry = made.linked;
          child = omega (arith, level_table level s t i tree h hi absent free, h);
          frames = omega (arith, (after_pool level s t i tree h hi absent free).one_less);
          kind = inr (absent, made.empty);
        })

  -- One step down, whether the table is there or is made.
  pub descend :
      huge_page (s.words (entry_at t i)) ≡ false
      → 0 < s.pmm.free_frames
      → Descends level s t i (get_next_level s t i true)
  descend small free = elim (Bool-cases (present (s.words (entry_at t i)))) [
    | inl here ↦
        let e : IsEntry (s.words (entry_at t i)) (address (s.words (entry_at t i))) = record {
          here = here;
          small = small;
          target = refl;
        } in
        rw (get_next_level_found s t i (address (s.words (entry_at t i))) true e) (record {
          levels = level;
          tree = tree;
          grows = record {
            same_root = refl;
            kept = λ u hu. refl;
            entries = λ u j hu hj here. refl;
          };
          entry = e;
          child = tree.below t i h hi here small;
          frames = omega arith;
          kind = inl (refl, here);
        })
    | inr absent ↦ descend_absent absent free
  ]
