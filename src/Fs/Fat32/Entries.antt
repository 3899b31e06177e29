-- ===== src/Fs/Fat32/Entries.antt =====
-- The entries of the file allocation table under `updateFatEntry` and `allocateCluster`.
use pocky.Common.{
  ℕ, zero, suc, ◌+◌, ◌*◌, ◌/◌, ◌^◌, ◌<◌, ◌≤◌, ◌≡◌, ◌≢◌, refl, ap, sym, ◌∙◌, true, false, Option,
  none, some, ltb, ◌==◌, bit_and, arith, Bool-cases, Option-cases, inl, inr, ◌⊎◌,
}
use pocky.Memory.Virtual.Digits.{bit_and-below}
use pocky.Fs.Fat32.Disk.{Drive, Bytes, lba}
use pocky.Fs.Fat32.Table.{
  IsVolume, IsAddressable, IsListed, Refuses, read_one_refused, write_copies_refused, read_one,
  read_sector_one, copies_keep, sector_of, copies_first,
}
use pocky.Fs.Fat32.Words.{load32-store32, store32_apart, load32_same, scaled, mask_twice}
use pocky.Fs.Fat32.{
  Volume, u32, entry_mask, bad_cluster, fat_sector, ent_offset, load32, store32, read_fat_entry,
  write_copies, update_fat_entry,
}

module _ {D : Type 0} (drive : Drive D) (v : Volume) (ok : IsVolume v) where
  -- The entry in a sector that was read.
  abbrev entry_in : Option Bytes → ℕ → ℕ
  entry_in none at = bad_cluster
  entry_in (some bytes) at = bit_and (load32 bytes at) entry_mask

  read_entry :
      (d : D) (cluster : ℕ)
      → read_fat_entry drive v d cluster
        ≡ entry_in (read_one drive v ok d (fat_sector v cluster)) (ent_offset v cluster)
  unfolding read_fat_entry
  read_entry d cluster =
      let sized : (v.bpb.bytes_per_sector == 0) ≡ false = ground (arith, ok.sector_size) in
      let one = read_sector_one drive v ok d (fat_sector v cluster) in
      elim (Option-cases (read_one drive v ok d (fat_sector v cluster))) [
        | inl h ↦ rw (sized, one, h) refl
        | inr (bytes, h) ↦ rw (sized, one, h) refl
      ]

  -- Where a copy of a cluster's sector lies.
  copy_sector :
      (cluster j : ℕ)
      → IsListed v cluster
      → j < v.bpb.table_count
      → u32 (fat_sector v cluster + j * v.bpb.table_size32)
        ≡ v.first_fat_sector + cluster * 4 / 512 + j * v.bpb.table_size32
  copy_sector cluster j l lt = omega (
    arith,
    (sector_of drive v ok cluster l).0,
    scaled v.bpb.table_size32 j v.bpb.table_count lt,
    ok.tables_fit,
    l.listed,
  )

  -- A copy of a cluster's sector is another sector of the drive than the first copy of another's.
  copy_apart :
      (cluster other j : ℕ)
      → IsAddressable v
      → IsListed v cluster
      → IsListed v other
      → j < v.bpb.table_count
      → (fat_sector v other == fat_sector v cluster) ≡ false
      → (lba (fat_sector v other) == lba (u32 (fat_sector v cluster + j * v.bpb.table_size32)))
        ≡ false
  copy_apart cluster other zero near l m lt apart =
      let bound = (sector_of drive v ok cluster l).0 in
      let bound' = (sector_of drive v ok other m).0 in
      let first_copy = scaled v.bpb.table_size32 0 v.bpb.table_count ok.some_copy in
      let copy = copy_sector cluster 0 l lt in
      let first : lba (u32 (fat_sector v cluster + 0 * v.bpb.table_size32)) ≡ fat_sector v cluster =
        omega (arith, copy, bound, near.tables_near, l.listed) in
      let second : lba (fat_sector v other) ≡ fat_sector v other =
        omega (arith, bound', near.tables_near, m.listed) in
      rw (first, second) apart
  copy_apart cluster other (suc j) near l m lt apart =
      let bound' = (sector_of drive v ok other m).0 in
      let first_copy = scaled v.bpb.table_size32 0 v.bpb.table_count ok.some_copy in
      let copy = copy_sector cluster (suc j) l lt in
      let past = scaled v.bpb.table_size32 0 (suc j) (omega arith) in
      let inside = scaled v.bpb.table_size32 (suc j) v.bpb.table_count lt in
      let first : lba (u32 (fat_sector v cluster + suc j * v.bpb.table_size32))
          ≡ v.first_fat_sector + cluster * 4 / 512 + suc j * v.bpb.table_size32 =
        omega (arith, copy, near.tables_near, l.listed, inside) in
      let second : lba (fat_sector v other) ≡ v.first_fat_sector + other * 4 / 512 =
        omega (arith, bound', near.tables_near, m.listed) in
      rw (first, second) (ground (arith, past, m.listed))

  update_unread :
      (d : D) (cluster value : ℕ)
      → read_one drive v ok d (fat_sector v cluster) ≡ none
      → update_fat_entry drive v d cluster value ≡ (d, false)
  unfolding update_fat_entry
  update_unread d cluster value h =
      rw (update_fat_entry, read_sector_one drive v ok d (fat_sector v cluster), h) refl

  update_read :
      (d : D) (cluster value : ℕ) (bytes : Bytes)
      → read_one drive v ok d (fat_sector v cluster) ≡ some bytes
      → update_fat_entry drive v d cluster value
        ≡ write_copies drive v v.bpb.table_count 0 d
            (fat_sector v cluster)
            (store32 bytes (ent_offset v cluster) (bit_and value entry_mask))
  unfolding update_fat_entry
  update_read d cluster value bytes h =
      rw (update_fat_entry, read_sector_one drive v ok d (fat_sector v cluster), h) refl

  -- What a successful update has read before.
  update_reads :
      (d : D) (cluster value : ℕ)
      → (update_fat_entry drive v d cluster value).1 ≡ true
      → (bytes : Bytes) × (read_one drive v ok d (fat_sector v cluster) ≡ some bytes)
        × (update_fat_entry drive v d cluster value
            ≡ write_copies drive v v.bpb.table_count 0 d
                (fat_sector v cluster)
                (store32 bytes (ent_offset v cluster) (bit_and value entry_mask)))
  update_reads d cluster value done =
      elim (Option-cases (read_one drive v ok d (fat_sector v cluster))) [
        | inl h ↦ absurd (ground (arith, done, ap (λ r. r.1) (update_unread d cluster value h)))
        | inr (bytes, h) ↦ (bytes, h, update_read d cluster value bytes h)
      ]

  -- An update fails only where the drive does.
  pub update_refused :
      (d : D) (cluster value : ℕ)
      → (update_fat_entry drive v d cluster value).1 ≡ false
      → Refuses drive
  update_refused d cluster value failed =
      elim (Option-cases (read_one drive v ok d (fat_sector v cluster))) [
        | inl h ↦ read_one_refused drive v ok d (fat_sector v cluster) h
        | inr (bytes, h) ↦
            write_copies_refused drive v ok v.bpb.table_count 0 d (fat_sector v cluster)
              (store32 bytes (ent_offset v cluster) (bit_and value entry_mask))
              (ap (λ r. r.1) (sym (update_read d cluster value bytes h)) ∙ failed)
      ]

  -- The sector of the entry after the update.
  updated_sector :
      (n : ℕ) (d : D) (cluster : ℕ) (bytes : Bytes)
      → IsListed v cluster
      → 0 < n
      → n ≤ v.bpb.table_count
      → (write_copies drive v n 0 d (fat_sector v cluster) bytes).1 ≡ true
      → (back : Bytes) × (read_one drive v ok
            (write_copies drive v n 0 d (fat_sector v cluster) bytes).0
            (fat_sector v cluster)
          ≡ some back)
        × ((i : ℕ) → i < 512 → back i ≡ bytes i)
  updated_sector zero d cluster bytes l pos few done = absurd (omega arith)
  updated_sector (suc n) d cluster bytes l pos few done =
      copies_first drive v ok n d (fat_sector v cluster) bytes
        (omega (
          arith,
          (sector_of drive v ok cluster l).0,
          ok.tables_fit,
          l.listed,
          scaled v.bpb.table_size32 0 v.bpb.table_count ok.some_copy,
        ))
        done

  -- On a volume with sectors of 512 bytes and at least one copy of the table, which end below sector
  -- 2 ^ 32, for a cluster that the table lists: after an update that succeeds, the entry reads as the
  -- value that was written, without its four highest bits.
  pub read-update_fat_entry :
      (d : D) (cluster value : ℕ)
      → IsListed v cluster
      → (update_fat_entry drive v d cluster value).1 ≡ true
      → read_fat_entry drive v (update_fat_entry drive v d cluster value).0 cluster
        ≡ bit_and value entry_mask
  read-update_fat_entry d cluster value l done =
      let (bytes, h, update) = update_reads d cluster value done in
      let word = bit_and value entry_mask in
      let stored = store32 bytes (ent_offset v cluster) word in
      let few : word < 2 ^ 28 = bit_and-below 28 value entry_mask (omega arith) in
      let (back, reads, same) =
        updated_sector v.bpb.table_count d cluster stored l ok.some_copy (omega arith)
          (ap (λ r. r.1) (sym update) ∙ done) in
      let inside = (sector_of drive v ok cluster l).1 in
      let loaded =
        load32_same back stored (ent_offset v cluster)
          (λ i lt. same (ent_offset v cluster + i) (omega (arith, inside)))
        ∙ load32-store32 bytes (ent_offset v cluster) word (omega arith) in
      read_entry (update_fat_entry drive v d cluster value).0 cluster
      ∙ (ap (λ r. entry_in (read_one drive v ok r.0 (fat_sector v cluster)) (ent_offset v cluster))
            update
          ∙ (ap (λ o. entry_in o (ent_offset v cluster)) reads
              ∙ (ap (λ w. bit_and w entry_mask) loaded ∙ mask_twice value)))

  -- Two entries in one sector.
  offsets_apart :
      (cluster other : ℕ)
      → IsListed v cluster
      → IsListed v other
      → cluster ≢ other
      → fat_sector v other ≡ fat_sector v cluster
      → (ent_offset v other + 4 ≤ ent_offset v cluster)
        ⊎ (ent_offset v cluster + 4 ≤ ent_offset v other)
  offsets_apart cluster other l m differ q =
      let at = sector_of drive v ok cluster l in
      let at' = sector_of drive v ok other m in
      elim (Bool-cases (ltb other cluster)) [
        | inl lt ↦
            let less : other < cluster = ground arith in
            inl (omega (arith, less, q, at.0, at.1, at'.0, at'.1))
        | inr ge ↦
            let less : cluster < other = ground (arith, differ) in
            inr (omega (arith, less, q, at.0, at.1, at'.0, at'.1))
      ]

  -- On a volume with sectors of 512 bytes and at least one copy of the table, which end below sector
  -- 2 ^ 28, where the driver's sector numbers end, for two different clusters that the table lists: an
  -- update of the one that succeeds leaves the entry of the other.
  pub read-update_fat_entry_other :
      (d : D) (cluster other value : ℕ)
      → IsAddressable v
      → IsListed v cluster
      → IsListed v other
      → cluster ≢ other
      → (update_fat_entry drive v d cluster value).1 ≡ true
      → read_fat_entry drive v (update_fat_entry drive v d cluster value).0 other
        ≡ read_fat_entry drive v d other
  read-update_fat_entry_other d cluster other value near l m differ done =
      let (bytes, h, update) = update_reads d cluster value done in
      let word = bit_and value entry_mask in
      let stored = store32 bytes (ent_offset v cluster) word in
      let copied : (write_copies drive v v.bpb.table_count 0 d (fat_sector v cluster) stored).1
          ≡ true =
        ap (λ r. r.1) (sym update) ∙ done in
      let at = sector_of drive v ok cluster l in
      let at' = sector_of drive v ok other m in
      read_entry (update_fat_entry drive v d cluster value).0 other
      ∙ (ap (λ r. entry_in (read_one drive v ok r.0 (fat_sector v other)) (ent_offset v other))
            update
          ∙ (elim (Bool-cases (fat_sector v other == fat_sector v cluster)) [
            | inr apart ↦
                ap (λ o. entry_in o (ent_offset v other))
                  (copies_keep drive v ok v.bpb.table_count 0 d (fat_sector v cluster) stored
                    (fat_sector v other)
                    (λ j low high. copy_apart cluster other j near l m (omega arith) apart) copied)
            | inl shared ↦
                let q : fat_sector v other ≡ fat_sector v cluster = ground arith in
                let (back, reads, same) =
                  updated_sector v.bpb.table_count d cluster stored l ok.some_copy (omega arith)
                    copied in
                let sides = offsets_apart cluster other l m differ q in
                let loaded = load32_same back bytes (ent_offset v other) (λ i lt.
                  same (ent_offset v other + i) (omega (arith, at'.1))
                  ∙ store32_apart bytes (ent_offset v cluster) word (ent_offset v other) i sides
                      lt) in
                let off = ent_offset v other in
                let after =
                  (write_copies drive v v.bpb.table_count 0 d (fat_sector v cluster) stored).0 in
                ap (λ x. entry_in (read_one drive v ok after x) off) q
                ∙ (ap (λ o. entry_in o off) reads
                    ∙ (ap (λ w. bit_and w entry_mask) loaded
                        ∙ sym (
                            ap (λ x. entry_in (read_one drive v ok d x) off) q
                            ∙ ap (λ o. entry_in o off) h)))
          ]
              ∙ sym (read_entry d other)))
