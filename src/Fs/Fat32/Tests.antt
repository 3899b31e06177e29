-- ===== src/Fs/Fat32/Tests.antt =====
-- The table on a drive that is its bytes and never fails: a volume with two copies of a table of one sector.
use mathlib.Core.Path.{fun_ext}
use pocky.Common.{
  ℕ, ◌+◌, ◌-◌, ◌*◌, ◌<◌, ◌≤◌, ◌≡◌, refl, ap, Bool, true, false, ◌&&◌, some, List, [], ◌∷◌, length,
  if◌then◌else◌, ltb, leb, bit_and, arith, Bool-cases, inl, inr, ◌⊎◌,
}
use pocky.Fs.Fat32.Disk.{Drive, Bytes, lba, disk_read, disk_write}
use pocky.Fs.Fat32.Table.{IsVolume, IsAddressable, IsListed}
use pocky.Fs.Fat32.Entries.{read-update_fat_entry, read-update_fat_entry_other}
use pocky.Fs.Fat32.Allocation.{Allocated, allocate_cluster-Allocated}
use pocky.Fs.Fat32.Content.{read_file}
use pocky.Fs.Fat32.Content.Ends.{read_file_ends}
use pocky.Fs.Fat32.Stack.{start, push_directory, pop_directory, Directories}
use pocky.Fs.Fat32.{
  Volume, Bpb, entry_mask, read_sector, read_fat_entry, write_copies, update_fat_entry,
  allocate_cluster, initialize, validate_boot_sector,
}

read_bytes : Bytes → ℕ → ℕ → Bytes
read_bytes d sector n i = if ltb i (512 * n) then d (512 * sector + i) else 0

write_bytes : Bytes → ℕ → ℕ → Bytes → Bytes
write_bytes d sector n bytes a =
    if leb (512 * sector) a && ltb a (512 * sector + 512 * n) then bytes (a - 512 * sector) else d a

written_back :
    (d : Bytes) (sector n : ℕ) (bytes : Bytes) (i : ℕ)
    → i < 512 * n
    → read_bytes (write_bytes d sector n bytes) sector n i ≡ bytes i
unfolding read_bytes write_bytes
written_back d sector n bytes i lt =
    let inside : ltb i (512 * n) ≡ true = ground arith in
    let there : leb (512 * sector) (512 * sector + i)
          && ltb (512 * sector + i) (512 * sector + 512 * n)
        ≡ true =
      ground arith in
    let at : 512 * sector + i - 512 * sector ≡ i = omega arith in rw (inside, there, at) refl

left_alone :
    (d : Bytes) (sector n other m : ℕ) (bytes : Bytes)
    → (other + m ≤ sector) ⊎ (sector + n ≤ other)
    → read_bytes (write_bytes d sector n bytes) other m ≡ read_bytes d other m
unfolding read_bytes write_bytes
left_alone d sector n other m bytes apart = fun_ext (λ i. elim (Bool-cases (ltb i (512 * m))) [
  | inr h ↦ rw h refl
  | inl h ↦
      let away : leb (512 * sector) (512 * other + i)
            && ltb (512 * other + i) (512 * sector + 512 * n)
          ≡ false =
        ground arith in
      rw (h, away) refl
])

abbrev ram : Drive Bytes
ram = record {
  initialize = λ d. true;
  read_sectors = λ d sector n. some (read_bytes d (lba sector) n);
  write_sectors = λ d sector n bytes. (write_bytes d (lba sector) n bytes, true);
  read_sectors-lba = λ d sector n.
      let once : lba (lba sector) ≡ lba sector = omega arith in
      ap (λ s. some (read_bytes d s n)) once;
  initialize-write_sectors = λ d sector n bytes. refl;
  read_sectors-write_sectors = λ d sector n bytes some_sectors inside done. (
    read_bytes (write_bytes d (lba sector) n bytes) (lba sector) n,
    refl,
    written_back d (lba sector) n bytes,
  );
  read_sectors-write_sectors_apart =
      λ d sector n other m bytes some_written some_read inside within done apart.
        ap some (left_alone d (lba sector) n (lba other) m bytes apart);
}

abbrev boot_sector : Bpb
boot_sector = record {
  bytes_per_sector = 512;
  sectors_per_cluster = 1;
  reserved_sector_count = 1;
  table_count = 2;
  root_entry_count = 0;
  total_sectors16 = 20;
  table_size16 = 0;
  total_sectors32 = 0;
  table_size32 = 1;
  boot_signature = 0x29;
}

abbrev volume : Volume
volume = record {
  bpb = boot_sector;
  first_fat_sector = 1;
  first_data_sector = 3;
  data_sectors = 17;
  total_clusters = 17;
}

initializes : (old : Volume) → initialize old boot_sector ≡ (volume, true)
unfolding initialize validate_boot_sector
initializes old = refl

volume-IsVolume : IsVolume volume
volume-IsVolume = record { sector_size = refl; some_copy = omega arith; tables_fit = omega arith }

volume-IsAddressable : IsAddressable volume
volume-IsAddressable = record { tables_near = omega arith }

abbrev blank : Bytes
blank i = 0

listed : (cluster : ℕ) → cluster < 128 → IsListed volume cluster
listed cluster h = record { small = omega arith; listed = omega arith }

update_works :
    (d : Bytes) (cluster value : ℕ) → (update_fat_entry ram volume d cluster value).1 ≡ true
unfolding update_fat_entry read_sector disk_read disk_write write_copies
update_works d cluster value = refl

read-update_fat_entry_example :
    read_fat_entry ram volume (update_fat_entry ram volume blank 5 0x12345678).0 5
    ≡ bit_and 0x12345678 entry_mask
read-update_fat_entry_example =
    read-update_fat_entry ram volume volume-IsVolume blank 5 0x12345678 (listed 5 (omega arith))
      (update_works blank 5 0x12345678)

read-update_fat_entry_other_example :
    read_fat_entry ram volume (update_fat_entry ram volume blank 5 0x12345678).0 6
    ≡ read_fat_entry ram volume blank 6
read-update_fat_entry_other_example =
    read-update_fat_entry_other ram volume volume-IsVolume blank 5 6 0x12345678 volume-IsAddressable
      (listed 5 (omega arith)) (listed 6 (omega arith)) (λ e. omega (arith, e))
      (update_works blank 5 0x12345678)

allocate_cluster-Allocated_example :
    Allocated ram volume volume-IsVolume blank 2 17 (allocate_cluster ram volume blank)
allocate_cluster-Allocated_example =
    allocate_cluster-Allocated ram volume volume-IsVolume blank (λ c lt. listed c (omega arith))

read_file_ends_example :
    (out : List ℕ) × (read_file ram volume 601 blank 2 600 ≡ some out) × (length out ≤ 600)
read_file_ends_example = read_file_ends ram volume blank 2 600

abbrev entered : Directories × Bool
entered = push_directory start (b'd' ∷ []) (b'/' ∷ b'd' ∷ []) 7

enters_and_leaves : pop_directory entered.0 ≡ (start, true)
unfolding push_directory pop_directory
enters_and_leaves = refl
