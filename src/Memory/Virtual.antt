-- ===== src/Memory/Virtual.antt =====
-- kernel/src/memory/virtual_memory.cpp and .hpp: four levels of page tables in physical memory.
-- The debug text that `initialize` writes to the screen is left out.
pub mod Entry
pub mod Digits
pub mod Flags
pub mod Tables
pub mod Pool
pub mod Tree
pub mod Link
pub mod Walk
pub mod Descent
pub mod Path
pub mod Mapping
pub mod Translation
mod Tests
use pocky.Common.{
  ℕ, ◌+◌, ◌-◌, ◌*◌, ◌/◌, ◌^◌, bit_and, bit_or, Bool, true, false, not, ◌&&◌, if◌then◌else◌, ◌==◌,
}
use pocky.Common.Loop.{for_range}
use pocky.Memory.Physical.{Pmm, allocate_frame}
use pocky.Memory.Virtual.Entry.{
  present, huge_page, address, set_present, set_writable, set_user, set_pwt, set_pcd, set_accessed,
  set_huge_page, set_address,
}

abbrev pub entries_per_table : ℕ
entries_per_table = 512

abbrev pub page_mask : ℕ
page_mask = 0xFFFFFFFFFFFFF000

-- The words of physical memory, each of 64 bits, by their address.
abbrev pub Words : Type 0
Words = ℕ → ℕ

-- The member `m_pml4`, and what the manager works on.
pub record Vmm : Type 0 where
  pub pml4 : ℕ
  pub words : Words
  pub pmm : Pmm

-- `&table[index]`
abbrev pub entry_at : ℕ → ℕ → ℕ
entry_at table index = table + 8 * index

unfoldable pub store : ℕ → ℕ → Words → Words
store a v m b = if b == a then v else m b

-- `for (size_t i = 0; i < ENTRIES_PER_TABLE; i++) table[i].value = 0;`
unfoldable pub clear_table : ℕ → Words → Words
clear_table table = for_range entries_per_table 0 (λ i. store (entry_at table i) 0)

-- The null pointer is 0, and is cleared like every other table.
unfoldable pub create_page_table : Vmm → Vmm × ℕ
create_page_table s =
    let r = allocate_frame s.pmm in (record s { pmm = r.0; words = clear_table r.1 s.words }, r.1)

-- The four setters that follow one another in `get_next_level` and in `map_page`.
unfoldable pub fill_entry : ℕ → Bool → ℕ → ℕ
fill_entry addr writable e =
    set_user false (set_writable writable (set_present true (set_address addr e)))

unfoldable pub write_entry : ℕ → ℕ → Bool → Vmm → Vmm
write_entry at addr writable s = record s {
  words = store at (fill_entry addr writable (s.words at)) s.words;
}

-- The branch of `get_next_level` that creates the table.
unfoldable pub link_table : Vmm → ℕ → Vmm
link_table s at = let r = create_page_table s in write_entry at r.1 true r.0

unfoldable pub next_of : Vmm → ℕ → Vmm × ℕ
next_of s at = if present (s.words at) then (s, address (s.words at)) else (s, 0)

unfoldable pub get_next_level : Vmm → ℕ → ℕ → Bool → Vmm × ℕ
get_next_level s table index create =
    let at = entry_at table index in
    if not (present (s.words at)) && create then next_of (link_table s at) at else next_of s at

-- `(virtual_addr >> 39) & 0x1FF` and the three like it.
abbrev pub pml4_index : ℕ → ℕ
pml4_index a = bit_and (a / 2 ^ 39) 0x1FF

abbrev pub pdpt_index : ℕ → ℕ
pdpt_index a = bit_and (a / 2 ^ 30) 0x1FF

abbrev pub pd_index : ℕ → ℕ
pd_index a = bit_and (a / 2 ^ 21) 0x1FF

abbrev pub pt_index : ℕ → ℕ
pt_index a = bit_and (a / 2 ^ 12) 0x1FF

-- The three calls of `get_next_level` in a row, each after the test of the pointer before it, with
-- the state they leave and the table of the last level, or the null pointer.
unfoldable pub walk : Vmm → ℕ → Bool → Vmm × ℕ
walk s addr create =
    let pdpt = get_next_level s s.pml4 (pml4_index addr) create in
    if pdpt.1 == 0
    then pdpt
    else (let pd = get_next_level pdpt.0 pdpt.1 (pdpt_index addr) create in
        if pd.1 == 0 then pd else get_next_level pd.0 pd.1 (pd_index addr) create)

-- What `map_page` does with the entry it has found.
unfoldable pub map_entry : Vmm → ℕ → ℕ → Bool → Vmm
map_entry s at physical_addr writable =
    if present (s.words at) then s else write_entry at physical_addr writable s

unfoldable pub map_page : Vmm → ℕ → ℕ → Bool → Vmm
map_page s virtual_addr physical_addr writable =
    let addr = bit_and virtual_addr page_mask in
    let pt = walk s addr true in
    if pt.1 == 0
    then pt.0
    else map_entry pt.0 (entry_at pt.1 (pt_index addr)) (bit_and physical_addr page_mask) writable

unfoldable pub unmap_page : Vmm → ℕ → Vmm
unmap_page s virtual_addr =
    let addr = bit_and virtual_addr page_mask in
    let pt = walk s addr false in
    if pt.1 == 0
    then pt.0
    else record (pt.0) { words = store (entry_at pt.1 (pt_index addr)) 0 pt.0.words }

unfoldable pub get_physical_address : Vmm → ℕ → ℕ
get_physical_address s virtual_addr =
    let addr = bit_and virtual_addr page_mask in
    let pt = walk s addr false in
    let e = pt.0.words (entry_at pt.1 (pt_index addr)) in
    if pt.1 == 0
    then 0
    else if present e
    then bit_or (bit_and (address e) page_mask) (bit_and addr 0xFFF)
    else 0

-- `pd[i].value = 0` and the setters after it, for one huge page of 2 MiB.
unfoldable pub identity_entry : ℕ → ℕ
identity_entry i =
    set_user false
      (set_writable true (set_present true (set_address (i * 0x200000) (set_huge_page true 0))))

-- The entry of `pdpt[0]`: here the address is set last.
unfoldable pub pdpt_entry : ℕ → ℕ
pdpt_entry pd = set_address pd (
    set_accessed false
      (set_pcd false (set_pwt false (set_user false (set_writable true (set_present true 0))))))

-- The part of `initialize` once the three tables of the low memory are there.
unfoldable pub finish_initialize : Vmm → ℕ → Vmm
finish_initialize s pd =
    let low = record s {
      words = for_range 8 0 (λ i. store (entry_at pd i) (identity_entry i)) s.words;
    } in
    let kernel_pdpt = create_page_table low in
    if kernel_pdpt.1 == 0
    then kernel_pdpt.0
    else map_page (write_entry (entry_at s.pml4 511) kernel_pdpt.1 true kernel_pdpt.0) 0xB8000
        0xB8000 true

unfoldable pub initialize : Vmm → Vmm
initialize s =
    let top = allocate_frame s.pmm in
    if top.1 == 0
    then record s { pml4 = 0; pmm = top.0 }
    else (let s0 : Vmm = record { pml4 = top.1; pmm = top.0; words = clear_table top.1 s.words } in
        let pdpt = create_page_table s0 in
        if pdpt.1 == 0
        then pdpt.0
        else (let s1 = record (pdpt.0) {
          words = store top.1 (fill_entry pdpt.1 true 0) pdpt.0.words;
        } in
            let pd = create_page_table s1 in
            if pd.1 == 0
            then pd.0
            else finish_initialize
                (record (pd.0) { words = store pdpt.1 (pdpt_entry pd.1) pd.0.words }) pd.1))
