-- ===== src/Memory/Virtual/Tree.antt =====
-- The page tables as a tree of four levels, whatever else is in memory: `level` gives each table's
-- level, 4 for the root and 1 for the tables whose entries are pages, and 0 to what is no table.
use pocky.Common.{ℕ, suc, ◌+◌, ◌*◌, ◌%◌, ◌<◌, ◌≤◌, ◌≡◌, ap, ◌∙◌, true, false, arith, ◌⊎◌}
use pocky.Memory.Physical.Frames.{used}
use pocky.Memory.Virtual.Pool.{IsPool}
use pocky.Memory.Virtual.Entry.{present, huge_page, address}
use pocky.Memory.Virtual.Tables.{IsEntry}
use pocky.Memory.Virtual.{Vmm, entry_at}

pub record IsTree (level : ℕ → ℕ) (s : Vmm) : Type 0 where
  pub pool : IsPool s.pmm
  pub root : level s.pml4 ≡ 4
  pub nonzero : 0 ≡ level 0
  pub frame :
      (t : ℕ) → 0 < level t → (k : ℕ) × (t ≡ s.pmm.memory_start + k * 4096) × (used s.pmm k ≡ true)
  pub blank :
      (t i : ℕ)
      → 0 < level t
      → i < 512
      → present (s.words (entry_at t i)) ≡ false
      → s.words (entry_at t i) ≡ 0
  pub upper :
      (t i : ℕ)
      → 2 < level t
      → i < 512
      → present (s.words (entry_at t i)) ≡ true
      → huge_page (s.words (entry_at t i)) ≡ false
  pub below :
      (t i : ℕ)
      → 1 < level t
      → i < 512
      → present (s.words (entry_at t i)) ≡ true
      → huge_page (s.words (entry_at t i)) ≡ false
      → suc (level (address (s.words (entry_at t i)))) ≡ level t

-- What a walk that creates tables leaves as it was: the tables there were, and their entries.
pub record Grows (level level' : ℕ → ℕ) (s s' : Vmm) : Type 0 where
  pub same_root : s'.pml4 ≡ s.pml4
  pub kept : (t : ℕ) → 0 < level t → level' t ≡ level t
  pub entries :
      (t i : ℕ)
      → 0 < level t
      → i < 512
      → present (s.words (entry_at t i)) ≡ true
      → s'.words (entry_at t i) ≡ s.words (entry_at t i)

pub Grows-trans :
    {l0 l1 l2 : ℕ → ℕ} {s0 s1 s2 : Vmm} → Grows l0 l1 s0 s1 → Grows l1 l2 s1 s2 → Grows l0 l2 s0 s2
Grows-trans g h = record {
  same_root = h.same_root ∙ g.same_root;
  kept = λ t pos. h.kept t (omega (arith, g.kept t pos)) ∙ g.kept t pos;
  entries = λ t i pos lt here.
      let first = g.entries t i pos lt here in
      h.entries t i (omega (arith, g.kept t pos)) lt (ap present first ∙ here) ∙ first;
}

-- One step down, from entry i of table t: the state and the table that `r` gives.
pub record Descends (level : ℕ → ℕ) (s : Vmm) (t i : ℕ) (r : Vmm × ℕ) : Type 0 where
  pub levels : ℕ → ℕ
  pub tree : IsTree levels r.0
  pub grows : Grows level levels s r.0
  pub entry : IsEntry (r.0.words (entry_at t i)) r.1
  pub child : suc (levels r.1) ≡ level t
  pub frames : s.pmm.free_frames ≤ r.0.pmm.free_frames + 1
  pub kind :
      ((r.0 ≡ s) × (present (s.words (entry_at t i)) ≡ true))
      ⊎ ((present (s.words (entry_at t i)) ≡ false)
          × ((j : ℕ) → j < 512 → r.0.words (entry_at r.1 j) ≡ 0))

-- A word is an entry of one table only.
pub entry_apart :
    (level : ℕ → ℕ) (s : Vmm) (t u i j : ℕ)
    → IsTree level s
    → 0 < level t
    → u % 4096 ≡ 0
    → i < 512
    → j < 512
    → entry_at t i ≡ entry_at u j
    → (t ≡ u) × (i ≡ j)
entry_apart level s t u i j tree h whole hi hj e =
    let (k, at, taken) = tree.frame t h in omega (arith, tree.pool.whole)
