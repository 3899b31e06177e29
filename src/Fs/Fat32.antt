-- ===== src/Fs/Fat32.antt =====
-- kernel/src/fs/fat32.cpp and .hpp: the parameters of the volume, the file allocation table and the
-- clusters of a file. The sectors are those of an interface, which kernel/src/drivers/ata.cpp fills by port
-- input and output. The messages are left out.
pub mod Disk
pub mod Table
pub mod Words
pub mod Entries
pub mod Allocation
pub mod Content
pub mod Stack
mod Tests
use pocky.Common.{
  ℕ, zero, suc, ◌+◌, ◌-◌, ◌*◌, ◌/◌, ◌%◌, ◌^◌, Bool, true, false, not, ◌&&◌, ◌||◌, Option, none,
  some, if◌then◌else◌, ltb, leb, ◌==◌, bit_and, u32_mod,
}
use pocky.Fs.Fat32.Disk.{Drive, Bytes, disk_read, disk_write}

-- The members of `SFat32BPB` that the code reads.
pub record Bpb : Type 0 where
  pub bytes_per_sector : ℕ
  pub sectors_per_cluster : ℕ
  pub reserved_sector_count : ℕ
  pub table_count : ℕ
  pub root_entry_count : ℕ
  pub total_sectors16 : ℕ
  pub table_size16 : ℕ
  pub total_sectors32 : ℕ
  pub table_size32 : ℕ
  pub boot_signature : ℕ

-- The members of the class that are computed from them.
pub record Volume : Type 0 where
  pub bpb : Bpb
  pub first_fat_sector : ℕ
  pub first_data_sector : ℕ
  pub data_sectors : ℕ
  pub total_clusters : ℕ

-- Arithmetic on `uint32_t`.
abbrev pub u32 : ℕ → ℕ
u32 n = n % u32_mod

-- `x == 0 || (x & (x - 1))`
abbrev no_power_of_two : ℕ → Bool
no_power_of_two x = (x == 0) || not (bit_and x (x - 1) == 0)

-- `m_tableSize16 ? m_tableSize16 : m_tableSize32`
abbrev pub fat_size : Bpb → ℕ
fat_size b = if b.table_size16 == 0 then b.table_size32 else b.table_size16

unfoldable pub validate_boot_sector : Bpb → Bool
validate_boot_sector b =
    if no_power_of_two b.bytes_per_sector
    then false
    else if no_power_of_two b.sectors_per_cluster
    then false
    else if b.reserved_sector_count == 0
    then false
    else if b.table_count == 0
    then false
    else if fat_size b == 0
    then false
    else (b.boot_signature == 0x28) || (b.boot_signature == 0x29)

unfoldable pub initialize : Volume → Bpb → Volume × Bool
initialize v b =
    let root_dir_sectors =
      (b.root_entry_count * 32 + (b.bytes_per_sector - 1)) / b.bytes_per_sector in
    let total_sectors = if b.total_sectors16 == 0 then b.total_sectors32 else b.total_sectors16 in
    let first_data =
      u32 (b.reserved_sector_count + b.table_count * fat_size b + root_dir_sectors) in
    let sectors = u32 (total_sectors + u32_mod - first_data) in
    if validate_boot_sector b
    then (
      record {
        bpb = b;
        first_fat_sector = b.reserved_sector_count;
        first_data_sector = first_data;
        data_sectors = sectors;
        total_clusters = sectors / b.sectors_per_cluster;
      },
      true,
    )
    else (record v { bpb = b }, false)

abbrev pub bad_cluster : ℕ
bad_cluster = 0x0FFFFFF7

abbrev pub end_of_chain : ℕ
end_of_chain = 0x0FFFFFF8

abbrev pub entry_mask : ℕ
entry_mask = 0x0FFFFFFF

-- The sector and the offset of a cluster's entry.
unfoldable pub fat_sector : Volume → ℕ → ℕ
fat_sector v cluster = u32 (v.first_fat_sector + u32 (cluster * 4) / v.bpb.bytes_per_sector)

unfoldable pub ent_offset : Volume → ℕ → ℕ
ent_offset v cluster = u32 (cluster * 4) % v.bpb.bytes_per_sector

-- `*reinterpret_cast<uint32_t*>(&data[at])`
unfoldable pub load32 : Bytes → ℕ → ℕ
load32 bytes at =
    bytes at + 256 * bytes (at + 1) + 65536 * bytes (at + 2) + 16777216 * bytes (at + 3)

-- The write through the same pointer.
unfoldable pub store32 : Bytes → ℕ → ℕ → Bytes
store32 bytes at value i =
    if i == at
    then value % 256
    else if i == at + 1
    then value / 256 % 256
    else if i == at + 2
    then value / 65536 % 256
    else if i == at + 3
    then value / 16777216 % 256
    else bytes i

module _ {D : Type 0} (drive : Drive D) (v : Volume) where
  unfoldable pub read_sector : D → ℕ → Option Bytes
  read_sector d sector =
      if v.bpb.bytes_per_sector == 0 then none else disk_read drive d sector v.bpb.bytes_per_sector

  unfoldable pub read_fat_entry : D → ℕ → ℕ
  read_fat_entry d cluster =
      if v.bpb.bytes_per_sector == 0
      then bad_cluster
      else (elim (read_sector d (fat_sector v cluster)) [
        | none ↦ bad_cluster
        | some bytes ↦ bit_and (load32 bytes (ent_offset v cluster)) entry_mask
      ])

  -- The loop of `updateFatEntry` over the copies of the table, from copy `i` on.
  unfoldable pub write_copies : ℕ → ℕ → D → ℕ → Bytes → D × Bool
  write_copies zero i d sector bytes = (d, true)
  write_copies (suc n) i d sector bytes =
      let written =
        disk_write drive d (u32 (sector + i * v.bpb.table_size32)) bytes v.bpb.bytes_per_sector in
      let rest = write_copies n (i + 1) written.0 sector bytes in
      if written.1 then rest else (written.0, false)

  unfoldable pub update_fat_entry : D → ℕ → ℕ → D × Bool
  update_fat_entry d cluster value = elim (read_sector d (fat_sector v cluster)) [
    | none ↦ (d, false)
    | some bytes ↦
        write_copies v.bpb.table_count 0 d (fat_sector v cluster)
          (store32 bytes (ent_offset v cluster) (bit_and value entry_mask))
  ]

  -- The loop of `allocateCluster`, with the clusters from `cluster` on, `n` of them.
  unfoldable pub allocate_from : ℕ → D → ℕ → D × ℕ
  allocate_from zero d cluster = (d, 0)
  allocate_from (suc n) d cluster =
      let rest = allocate_from n d (cluster + 1) in
      if read_fat_entry d cluster == 0
      then ((update_fat_entry d cluster end_of_chain).0, cluster)
      else rest

  unfoldable pub allocate_cluster : D → D × ℕ
  allocate_cluster d = allocate_from (v.total_clusters - 2) d 2

  unfoldable pub free_cluster : D → ℕ → D
  free_cluster d cluster =
      if ltb cluster 2 || leb v.total_clusters cluster then d else (update_fat_entry d cluster 0).0
