-- ===== src/Memory/Virtual/Walk.antt =====
-- The three steps down that each operation starts with.
use pocky.Common.{
  ℕ, ◌<◌, ◌≡◌, refl, ap, ◌∙◌, Bool, false, not, ◌&&◌, bit_and, ◌==◌, arith, Bool-cases, inl, inr,
  ◌⊎◌,
}
use pocky.Memory.Virtual.Entry.{present, huge_page}
use pocky.Memory.Virtual.Digits.{bit_and-below}
use pocky.Memory.Virtual.Tables.{IsEntry}
use pocky.Memory.Virtual.Tree.{IsTree, Grows}
use pocky.Memory.Virtual.Link.{get_next_level_found, get_next_level_absent, zero_small}
use pocky.Memory.Virtual.{
  Vmm, entry_at, get_next_level, walk, pml4_index, pdpt_index, pd_index, pt_index,
}

pub index_below : (n : ℕ) → bit_and n 0x1FF < 512
index_below n = bit_and-below 9 n 0x1FF (omega arith)

-- Does the walk meet a huge page at its third level?
unfoldable pub is_huge : Vmm → ℕ → Bool
is_huge s a =
    let pdpt = get_next_level s s.pml4 (pml4_index a) false in
    let pd = get_next_level s pdpt.1 (pdpt_index a) false in
    not (pdpt.1 == 0)
    && (not (pd.1 == 0)
        && (present (s.words (entry_at pd.1 (pd_index a)))
            && huge_page (s.words (entry_at pd.1 (pd_index a)))))

pub nonzero_table :
    (level : ℕ → ℕ) (s : Vmm) (t : ℕ) → IsTree level s → 0 < level t → (t == 0) ≡ false
nonzero_table level s t tree h = elim (Bool-cases (t == 0)) [
  | inl e ↦ let q : t ≡ 0 = ground arith in absurd (omega (arith, tree.nonzero, ap level q))
  | inr e ↦ e
]

pub absent_small :
    (level : ℕ → ℕ) (s : Vmm) (t i : ℕ)
    → IsTree level s
    → 0 < level t
    → i < 512
    → present (s.words (entry_at t i)) ≡ false
    → huge_page (s.words (entry_at t i)) ≡ false
absent_small level s t i tree h hi absent = ap huge_page (tree.blank t i h hi absent) ∙ zero_small

-- Above the third level every entry can be followed.
pub upper_small :
    (level : ℕ → ℕ) (s : Vmm) (t i : ℕ)
    → IsTree level s
    → 2 < level t
    → i < 512
    → huge_page (s.words (entry_at t i)) ≡ false
upper_small level s t i tree h hi = elim (Bool-cases (present (s.words (entry_at t i)))) [
  | inl here ↦ tree.upper t i h hi here
  | inr absent ↦ absent_small level s t i tree (omega arith) hi absent
]

-- The walk along three entries that are there.
pub walk_found :
    (s : Vmm) (a pdpt pd pt : ℕ) (create : Bool)
    → IsEntry (s.words (entry_at s.pml4 (pml4_index a))) pdpt
    → (pdpt == 0) ≡ false
    → IsEntry (s.words (entry_at pdpt (pdpt_index a))) pd
    → (pd == 0) ≡ false
    → IsEntry (s.words (entry_at pd (pd_index a))) pt
    → walk s a create ≡ (s, pt)
unfolding walk
walk_found s a pdpt pd pt create e3 z3 e2 z2 e1 =
    rw
      (
        get_next_level_found s s.pml4 (pml4_index a) pdpt create e3,
        z3,
        get_next_level_found s pdpt (pdpt_index a) pd create e2,
        z2,
      )
      (get_next_level_found s pd (pd_index a) pt create e1)

-- The three entries above the entry of a page, and the levels of the tables they lead to.
pub record IsPath (level : ℕ → ℕ) (s : Vmm) (a pdpt pd pt : ℕ) : Type 0 where
  pub top : IsEntry (s.words (entry_at s.pml4 (pml4_index a))) pdpt
  pub middle : IsEntry (s.words (entry_at pdpt (pdpt_index a))) pd
  pub bottom : IsEntry (s.words (entry_at pd (pd_index a))) pt
  pub pdpt_nonzero : (pdpt == 0) ≡ false
  pub pd_nonzero : (pd == 0) ≡ false
  pub pt_nonzero : (pt == 0) ≡ false
  pub level_pdpt : level pdpt ≡ 3
  pub level_pd : level pd ≡ 2
  pub level_pt : level pt ≡ 1

pub walk-IsPath :
    (level : ℕ → ℕ) (s : Vmm) (a pdpt pd pt : ℕ) (create : Bool)
    → IsPath level s a pdpt pd pt
    → walk s a create ≡ (s, pt)
walk-IsPath level s a pdpt pd pt create p =
    walk_found s a pdpt pd pt create p.top p.pdpt_nonzero p.middle p.pd_nonzero p.bottom

-- The walk from `s`, and what it finds at its end.
pub record Walks (level : ℕ → ℕ) (s : Vmm) (a : ℕ) (r : Vmm × ℕ) : Type 0 where
  pub levels : ℕ → ℕ
  pub tree : IsTree levels r.0
  pub grows : Grows level levels s r.0
  pub pdpt : ℕ
  pub pd : ℕ
  pub path : IsPath levels r.0 a pdpt pd r.1
  pub kind : (r.0 ≡ s) ⊎ ((walk s a false ≡ (s, 0)) × (r.0.words (entry_at r.1 (pt_index a)) ≡ 0))

-- The walk that stops at its second or third entry.
pub walk_stops_at_pdpt :
    (s : Vmm) (a pdpt : ℕ)
    → IsEntry (s.words (entry_at s.pml4 (pml4_index a))) pdpt
    → (pdpt == 0) ≡ false
    → present (s.words (entry_at pdpt (pdpt_index a))) ≡ false
    → walk s a false ≡ (s, 0)
unfolding walk
walk_stops_at_pdpt s a pdpt e3 z3 absent =
    rw
      (
        get_next_level_found s s.pml4 (pml4_index a) pdpt false e3,
        z3,
        get_next_level_absent s pdpt (pdpt_index a) absent,
      )
      refl

pub walk_stops_at_pml4 :
    (s : Vmm) (a : ℕ)
    → present (s.words (entry_at s.pml4 (pml4_index a))) ≡ false
    → walk s a false ≡ (s, 0)
unfolding walk
walk_stops_at_pml4 s a absent = rw (get_next_level_absent s s.pml4 (pml4_index a) absent) refl

pub walk_stops_at_pd :
    (s : Vmm) (a pdpt pd : ℕ)
    → IsEntry (s.words (entry_at s.pml4 (pml4_index a))) pdpt
    → (pdpt == 0) ≡ false
    → IsEntry (s.words (entry_at pdpt (pdpt_index a))) pd
    → (pd == 0) ≡ false
    → present (s.words (entry_at pd (pd_index a))) ≡ false
    → walk s a false ≡ (s, 0)
unfolding walk
walk_stops_at_pd s a pdpt pd e3 z3 e2 z2 absent =
    rw
      (
        get_next_level_found s s.pml4 (pml4_index a) pdpt false e3,
        z3,
        get_next_level_found s pdpt (pdpt_index a) pd false e2,
        z2,
      )
      (get_next_level_absent s pd (pd_index a) absent)
