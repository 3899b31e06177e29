-- ===== src/Fs/Fat32/Disk.antt =====
-- The drive under the file system, and `diskRead` and `diskWrite` of kernel/src/fs/fat32.cpp.
use pocky.Common.{
  ℕ, ◌+◌, ◌*◌, ◌/◌, ◌%◌, ◌<◌, ◌≤◌, ◌≡◌, ◌⊎◌, Bool, true, false, Option, none, some, if◌then◌else◌,
  ◌==◌,
}

-- A buffer: its bytes by their offset.
abbrev pub Bytes : Type 0
Bytes = ℕ → ℕ

-- The bits of a sector number that kernel/src/drivers/ata.cpp sends to the drive.
abbrev pub lba : ℕ → ℕ
lba sector = sector % 268435456

-- The calls that the file system makes of the driver, on a drive whose state is `D`, with sectors of 512
-- bytes. A number stands for the sector of its lowest 28 bits. Where a call stays on the drive, a
-- write that succeeds is read back, and leaves the other sectors and the drive's readiness.
pub record Drive (D : Type 0) : Type 0 where
  pub initialize : D → Bool
  pub read_sectors : D → ℕ → ℕ → Option Bytes
  pub write_sectors : D → ℕ → ℕ → Bytes → D × Bool
  pub read_sectors-lba :
      (d : D) (sector n : ℕ) → read_sectors d (lba sector) n ≡ read_sectors d sector n
  pub initialize-write_sectors :
      (d : D) (sector n : ℕ) (bytes : Bytes)
      → initialize (write_sectors d sector n bytes).0 ≡ initialize d
  pub read_sectors-write_sectors :
      (d : D) (sector n : ℕ) (bytes : Bytes)
      → 0 < n
      → lba sector + n ≤ 268435456
      → (write_sectors d sector n bytes).1 ≡ true
      → (back : Bytes) × (read_sectors (write_sectors d sector n bytes).0 sector n ≡ some back)
        × ((i : ℕ) → i < 512 * n → back i ≡ bytes i)
  pub read_sectors-write_sectors_apart :
      (d : D) (sector n other m : ℕ) (bytes : Bytes)
      → 0 < n
      → 0 < m
      → lba sector + n ≤ 268435456
      → lba other + m ≤ 268435456
      → (write_sectors d sector n bytes).1 ≡ true
      → (lba other + m ≤ lba sector) ⊎ (lba sector + n ≤ lba other)
      → read_sectors (write_sectors d sector n bytes).0 other m ≡ read_sectors d other m

-- `uint8_t sectors = (size + 511) / 512; if (sectors == 0) sectors = 1;`
unfoldable pub sectors_for : ℕ → ℕ
sectors_for size = let n = (size + 511) / 512 % 256 in if n == 0 then 1 else n

module _ {D : Type 0} (drive : Drive D) where
  unfoldable pub disk_read : D → ℕ → ℕ → Option Bytes
  disk_read d sector size =
      if size == 0
      then none
      else if drive.initialize d
      then drive.read_sectors d sector (sectors_for size)
      else none

  unfoldable pub disk_write : D → ℕ → Bytes → ℕ → D × Bool
  disk_write d sector bytes size =
      let written = drive.write_sectors d sector (sectors_for size) bytes in
      if size == 0 then (d, false) else if drive.initialize d then written else (d, false)
