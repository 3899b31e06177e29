-- ===== src/Memory/Virtual/Tests.antt =====
-- The page tables on an empty root table, in the second of eight frames.
use pocky.Common.{
  ℕ, ◌≡◌, refl, true, false, [], ◌∷◌, if◌then◌else◌, ◌==◌, arith, Bool-cases, inl, inr,
}
use pocky.Common.Loop.{for_range}
use pocky.Memory.Physical.{Pmm, is_used, scan, allocate_frame, reserve, mark}
use pocky.Memory.Physical.Bitmap.{free_below}
use pocky.Memory.Physical.Frames.{used}
use pocky.Memory.Virtual.Entry.{has_flag, set_flag, address, set_address}
use pocky.Memory.Virtual.Pool.{IsPool}
use pocky.Memory.Virtual.Tree.{IsTree}
use pocky.Memory.Virtual.Walk.{is_huge}
use pocky.Memory.Virtual.Mapping.{page, is_mapped}
use pocky.Memory.Virtual.Translation.{
  map_page-IsTree, get-map_page, get-map_page_mapped, get-unmap_page,
}
use pocky.Memory.Virtual.{
  Vmm, initialize, finish_initialize, identity_entry, pdpt_entry, store, clear_table,
  create_page_table, fill_entry, write_entry, link_table, next_of, get_next_level, walk, map_entry,
  map_page, unmap_page, get_physical_address,
}

abbrev frames : Pmm
frames = record { bitmap = 3 ∷ []; total_frames = 8; free_frames = 6; memory_start = 0 }

abbrev empty : Vmm
empty = record { pml4 = 4096; words = λ a. 0; pmm = frames }

abbrev empty_frames : Vmm
empty_frames = record { pml4 = 0; words = λ a. 0; pmm = frames }

only_root : ℕ → ℕ
only_root t = if t == 4096 then 4 else 0

first_frame : (i : ℕ) → i ≡ 0 → used frames i ≡ true
unfolding is_used
first_frame i h = rw h refl

frames-IsPool : IsPool frames
unfolding free_below is_used
frames-IsPool = record {
  valid = record { covered = omega arith; counted = refl; reachable = omega arith };
  whole = refl;
  small = omega arith;
  null_used = λ i h. first_frame i (omega arith);
}

empty-IsTree : IsTree only_root empty
unfolding only_root has_flag is_used
empty-IsTree = record {
  pool = frames-IsPool;
  root = refl;
  nonzero = refl;
  frame = λ t h. elim (Bool-cases (t == 4096)) [
    | inl e ↦ (1, ground arith, refl)
    | inr e ↦ absurd (ground arith)
  ];
  blank = λ t i h hi gone. refl;
  upper = λ t i h hi here. absurd (ground arith);
  below = λ t i h hi here small. absurd (ground arith);
}

abbrev one_page : Vmm
one_page = map_page empty 0x12345678 0x7ABC true

maps_one_page : get_physical_address one_page 0x12345678 ≡ 0x7000
unfolding map_page walk get_next_level next_of link_table create_page_table clear_table for_range
    store write_entry map_entry fill_entry set_flag has_flag set_address address allocate_frame scan
    is_used reserve mark get_physical_address
maps_one_page = refl

empty_flat : (va : ℕ) → is_huge empty (page va) ≡ false
unfolding is_huge get_next_level next_of has_flag
empty_flat va = refl

map_page-IsTree_example : (level' : ℕ → ℕ) × IsTree level' (map_page empty 0x12345678 0x7ABC true)
map_page-IsTree_example =
    map_page-IsTree only_root empty 0x12345678 empty-IsTree (omega arith) (empty_flat 0x12345678)
      0x7ABC true

get-map_page_example :
    get_physical_address one_page 0x12345678
    ≡ (if is_mapped empty 0x12345678 then get_physical_address empty 0x12345678 else 0x7000)
get-map_page_example =
    get-map_page only_root empty 0x12345678 empty-IsTree (omega arith) (empty_flat 0x12345678)
      0x7ABC true

abbrev levels : ℕ → ℕ
levels = map_page-IsTree_example.0

one_page_free : one_page.pmm.free_frames ≡ 3
unfolding map_page walk get_next_level next_of link_table create_page_table clear_table for_range
    store write_entry map_entry fill_entry set_flag has_flag set_address address allocate_frame scan
    is_used reserve mark
one_page_free = refl

one_page_flat : is_huge one_page (page 0x12345678) ≡ false
unfolding map_page walk get_next_level next_of link_table create_page_table clear_table for_range
    store write_entry map_entry fill_entry set_flag has_flag set_address address allocate_frame scan
    is_used reserve mark is_huge
one_page_flat = refl

next_page_flat : is_huge one_page (page 0x12346000) ≡ false
unfolding map_page walk get_next_level next_of link_table create_page_table clear_table for_range
    store write_entry map_entry fill_entry set_flag has_flag set_address address allocate_frame scan
    is_used reserve mark is_huge
next_page_flat = refl

one_page_mapped : is_mapped one_page 0x12345678 ≡ true
unfolding map_page walk get_next_level next_of link_table create_page_table clear_table for_range
    store write_entry map_entry fill_entry set_flag has_flag set_address address allocate_frame scan
    is_used reserve mark is_mapped
one_page_mapped = refl

get-map_page_mapped_example :
    get_physical_address (map_page one_page 0x12346000 0x8000 false) 0x12345678
    ≡ get_physical_address one_page 0x12345678
get-map_page_mapped_example =
    get-map_page_mapped levels one_page 0x12346000 0x12345678 0x8000 false map_page-IsTree_example.1
      (omega (arith, one_page_free)) next_page_flat one_page_flat one_page_mapped

get-unmap_page_example : get_physical_address (unmap_page one_page 0x12345678) 0x12345678 ≡ 0
get-unmap_page_example =
    get-unmap_page levels one_page 0x12345678 map_page-IsTree_example.1 one_page_flat

-- After `initialize` the screen's address is under a huge page, whose first word is taken for a
-- table: the call of `map_page` finds the null pointer there, and maps nothing.
screen_lost : get_physical_address (initialize empty_frames) 0xB8000 ≡ 0
unfolding map_page walk get_next_level next_of link_table create_page_table clear_table for_range
    store write_entry map_entry fill_entry set_flag has_flag set_address address allocate_frame scan
    is_used reserve mark initialize finish_initialize identity_entry pdpt_entry get_physical_address
screen_lost = refl
