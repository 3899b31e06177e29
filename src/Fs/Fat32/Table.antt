-- ===== src/Fs/Fat32/Table.antt =====
-- The file allocation table: reading back what was written, and the search for a free cluster.
use pocky.Common.{
  ℕ, zero, suc, ◌+◌, ◌*◌, ◌/◌, ◌%◌, ◌<◌, ◌≤◌, ◌≡◌, refl, ap, sym, ◌∙◌, true, false, Option, none,
  some, if◌then◌else◌, ◌==◌, arith, Bool-cases, inl, inr, ◌⊎◌, u32_mod, ==_iff,
}
use pocky.Fs.Fat32.Disk.{Drive, Bytes, lba, sectors_for, disk_read, disk_write}
use pocky.Fs.Fat32.{Volume, u32, fat_sector, ent_offset, read_sector, write_copies}
use pocky.Fs.Fat32.Words.{apart_sides, scaled}

-- A volume with sectors of 512 bytes, whose copies of the table end below sector 2 ^ 32.
pub record IsVolume (v : Volume) : Type 0 where
  pub sector_size : v.bpb.bytes_per_sector ≡ 512
  pub some_copy : 0 < v.bpb.table_count
  pub tables_fit : v.first_fat_sector + v.bpb.table_count * v.bpb.table_size32 < u32_mod

-- The copies of the table end below sector 2 ^ 28, so that the drive tells their sectors apart.
pub record IsAddressable (v : Volume) : Type 0 where
  pub tables_near : v.first_fat_sector + v.bpb.table_count * v.bpb.table_size32 < 268435456

-- Is the cluster's entry in the table?
pub record IsListed (v : Volume) (cluster : ℕ) : Type 0 where
  pub small : cluster * 4 < u32_mod
  pub listed : cluster * 4 / 512 < v.bpb.table_size32

-- In some state, the drive is not ready, or refuses to read or to write some sector.
abbrev pub Refuses : {D : Type 0} → Drive D → Type 0
Refuses {D} drive =
    (d : D) × (sector : ℕ) × ((drive.initialize d ≡ false)
      ⊎ ((drive.read_sectors d sector 1 ≡ none)
          ⊎ ((bytes : Bytes) × ((drive.write_sectors d sector 1 bytes).1 ≡ false))))

module _ {D : Type 0} (drive : Drive D) (v : Volume) (ok : IsVolume v) where
  -- A sector as the code reads it: 512 bytes, if the drive is ready.
  pub read_one : D → ℕ → Option Bytes
  read_one d sector = if drive.initialize d then drive.read_sectors d sector 1 else none

  pub read_sector_one : (d : D) (sector : ℕ) → read_sector drive v d sector ≡ read_one d sector
  unfolding read_sector disk_read sectors_for read_one
  read_sector_one d sector = rw (ok.sector_size) refl

  disk_write_one :
      (d : D) (sector : ℕ) (bytes : Bytes)
      → disk_write drive d sector bytes v.bpb.bytes_per_sector
        ≡ (if drive.initialize d then drive.write_sectors d sector 1 bytes else (d, false))
  unfolding disk_write sectors_for
  disk_write_one d sector bytes = rw (ok.sector_size) refl

  disk_write_refused :
      (d : D) (sector : ℕ) (bytes : Bytes)
      → (disk_write drive d sector bytes v.bpb.bytes_per_sector).1 ≡ false
      → Refuses drive
  disk_write_refused d sector bytes failed = elim (Bool-cases (drive.initialize d)) [
    | inr off ↦ (d, sector, inl off)
    | inl on ↦ (d, sector, inr (inr (bytes, rw (disk_write_one d sector bytes, on) at failed)))
  ]

  pub write_copies_refused :
      (n i : ℕ) (d : D) (base : ℕ) (bytes : Bytes)
      → (write_copies drive v n i d base bytes).1 ≡ false
      → Refuses drive
  unfolding write_copies
  write_copies_refused zero i d base bytes failed = absurd (ground (arith, failed))
  write_copies_refused (suc n) i d base bytes failed =
      let sector = u32 (base + i * v.bpb.table_size32) in
      let written = disk_write drive d sector bytes v.bpb.bytes_per_sector in
      elim (Bool-cases written.1) [
        | inr refused ↦ disk_write_refused d sector bytes refused
        | inl good ↦ write_copies_refused n (i + 1) written.0 base bytes (rw good at failed)
      ]

  pub read_one_refused : (d : D) (sector : ℕ) → read_one d sector ≡ none → Refuses drive
  unfolding read_one
  read_one_refused d sector failed = elim (Bool-cases (drive.initialize d)) [
    | inr off ↦ (d, sector, inl off)
    | inl on ↦ (d, sector, inr (inl (rw on at failed)))
  ]

  -- A write that succeeds, as the code makes it.
  record IsWritten (d : D) (sector : ℕ) (bytes : Bytes) (d' : D) : Type 0 where
    back : Bytes
    reads : read_one d' sector ≡ some back
    same : (i : ℕ) → i < 512 → back i ≡ bytes i
    others : (other : ℕ) → (lba other == lba sector) ≡ false → read_one d' other ≡ read_one d other

  -- Two numbers of one sector read alike.
  read_one_alias : (d : D) (a b : ℕ) → (lba a == lba b) ≡ true → read_one d a ≡ read_one d b
  unfolding read_one
  read_one_alias d a b h =
      let same : lba a ≡ lba b = (==_iff (lba a) (lba b)).0 h in
      let reads : drive.read_sectors d a 1 ≡ drive.read_sectors d b 1 =
        sym (drive.read_sectors-lba d a 1)
        ∙ (ap (λ s. drive.read_sectors d s 1) same ∙ drive.read_sectors-lba d b 1) in
      ap (λ r. if drive.initialize d then r else none) reads

  disk_write-IsWritten :
      (d : D) (sector : ℕ) (bytes : Bytes)
      → (disk_write drive d sector bytes v.bpb.bytes_per_sector).1 ≡ true
      → IsWritten d sector bytes (disk_write drive d sector bytes v.bpb.bytes_per_sector).0
  unfolding read_one
  disk_write-IsWritten d sector bytes done = elim (Bool-cases (drive.initialize d)) [
    | inr off ↦
        let bad : false ≡ true = rw (disk_write_one d sector bytes, off) at done in
        absurd (ground arith)
    | inl on ↦
        let written : (drive.write_sectors d sector 1 bytes).1 ≡ true =
          rw (disk_write_one d sector bytes, on) at done in
        let still = drive.initialize-write_sectors d sector 1 bytes ∙ on in
        let (back, reads, same) =
          drive.read_sectors-write_sectors d sector 1 bytes (omega arith) (omega arith) written in
        rw (disk_write_one d sector bytes, on)
          (record {
            back = back;
            reads = rw still reads;
            same = λ i lt. same i (omega arith);
            others = λ other apart.
                rw (still, on)
                  (drive.read_sectors-write_sectors_apart d sector 1 other 1 bytes (omega arith)
                    (omega arith) (omega arith) (omega arith) written
                    (apart_sides (lba other) (lba sector) apart));
          })
  ]

  -- The copies that are written leave every other sector.
  pub copies_keep :
      (n i : ℕ) (d : D) (base : ℕ) (bytes : Bytes) (other : ℕ)
      → ((j : ℕ)
          → i ≤ j
          → j < i + n
          → (lba other == lba (u32 (base + j * v.bpb.table_size32))) ≡ false)
      → (write_copies drive v n i d base bytes).1 ≡ true
      → read_one (write_copies drive v n i d base bytes).0 other ≡ read_one d other
  unfolding write_copies
  copies_keep zero i d base bytes other away done = refl
  copies_keep (suc n) i d base bytes other away done =
      let sector = u32 (base + i * v.bpb.table_size32) in
      let written = disk_write drive d sector bytes v.bpb.bytes_per_sector in
      elim (Bool-cases written.1) [
        | inr failed ↦ let bad : false ≡ true = rw failed at done in absurd (ground arith)
        | inl good ↦
            let first = disk_write-IsWritten d sector bytes good in
            let rest : (write_copies drive v n (i + 1) written.0 base bytes).1 ≡ true =
              rw good at done in
            rw good (
              copies_keep n (i + 1) written.0 base bytes other
                (λ j low high. away j (omega arith) (omega arith)) rest
              ∙ first.others other (away i (omega arith) (omega arith)))
      ]

  pub sector_of :
      (cluster : ℕ)
      → IsListed v cluster
      → (fat_sector v cluster ≡ v.first_fat_sector + cluster * 4 / 512)
        × (ent_offset v cluster ≡ cluster * 4 % 512)
  unfolding fat_sector ent_offset
  sector_of cluster l =
      let first_copy = scaled v.bpb.table_size32 0 v.bpb.table_count ok.some_copy in
      rw (ok.sector_size)
        (omega (arith, l.small, l.listed, ok.tables_fit, first_copy), omega (arith, l.small))

  -- Sector `base` reads as these bytes.
  abbrev Reads : D → ℕ → Bytes → Type 0
  Reads d base bytes =
      (back : Bytes) × (read_one d base ≡ some back) × ((i : ℕ) → i < 512 → back i ≡ bytes i)

  written-Reads :
      (d : D) (sector base : ℕ) (bytes : Bytes) (d' : D)
      → IsWritten d sector bytes d'
      → (lba base == lba sector) ≡ true
      → Reads d' base bytes
  written-Reads d sector base bytes d' w same =
      (w.back, read_one_alias d' base sector same ∙ w.reads, w.same)

  -- A copy leaves a sector that holds the bytes already, or writes them there again.
  copies_hold :
      (n i : ℕ) (d : D) (base first : ℕ) (bytes : Bytes)
      → Reads d base bytes
      → (write_copies drive v n i d first bytes).1 ≡ true
      → Reads (write_copies drive v n i d first bytes).0 base bytes
  unfolding write_copies
  copies_hold zero i d base first bytes held done = held
  copies_hold (suc n) i d base first bytes held done =
      let sector = u32 (first + i * v.bpb.table_size32) in
      let written = disk_write drive d sector bytes v.bpb.bytes_per_sector in
      elim (Bool-cases written.1) [
        | inr failed ↦ let bad : false ≡ true = rw failed at done in absurd (ground arith)
        | inl good ↦
            let w = disk_write-IsWritten d sector bytes good in
            let rest : (write_copies drive v n (i + 1) written.0 first bytes).1 ≡ true =
              rw good at done in
            let still : Reads written.0 base bytes = elim (Bool-cases (lba base == lba sector)) [
              | inl same ↦ written-Reads d sector base bytes written.0 w same
              | inr apart ↦ (held.0, w.others base apart ∙ held.1, held.2)
            ] in
            rw good (copies_hold n (i + 1) written.0 base first bytes still rest)
      ]

  -- The first copy is read back, whatever sectors the later ones are.
  pub copies_first :
      (n : ℕ) (d : D) (base : ℕ) (bytes : Bytes)
      → base < u32_mod
      → (write_copies drive v (suc n) 0 d base bytes).1 ≡ true
      → Reads (write_copies drive v (suc n) 0 d base bytes).0 base bytes
  unfolding write_copies
  copies_first n d base bytes small done =
      let sector = u32 (base + 0 * v.bpb.table_size32) in
      let here : sector ≡ base = omega (arith, small) in
      let written = disk_write drive d sector bytes v.bpb.bytes_per_sector in
      elim (Bool-cases written.1) [
        | inr failed ↦ let bad : false ≡ true = rw failed at done in absurd (ground arith)
        | inl good ↦
            let w = disk_write-IsWritten d sector bytes good in
            let rest : (write_copies drive v n (0 + 1) written.0 base bytes).1 ≡ true =
              rw good at done in
            let first = written-Reads d sector base bytes written.0 w (ground (arith, here)) in
            rw good (copies_hold n (0 + 1) written.0 base base bytes first rest)
      ]
