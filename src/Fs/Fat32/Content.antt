-- ===== src/Fs/Fat32/Content.antt =====
-- kernel/src/fs/fat32.cpp: `readFile` and `writeFile`, which follow the clusters of a file. The fuel
-- counts the clusters; `none` means that it ran out.
pub mod Ends
use pocky.Common.{
  ℕ, zero, suc, ◌+◌, ◌-◌, ◌*◌, Bool, true, false, not, ◌||◌, Option, none, some, List, [], ◌∷◌,
  ◌++◌, length, if◌then◌else◌, ltb, leb, ◌==◌, u32_mod,
}
use pocky.Fs.Fat32.Disk.{Drive, Bytes, disk_write}
use pocky.Fs.Fat32.{
  Volume, u32, bad_cluster, end_of_chain, read_sector, read_fat_entry, update_fat_entry,
  allocate_cluster,
}

-- `(cluster - 2) * m_sectorsPerCluster + m_firstDataSector`
abbrev pub cluster_sector : Volume → ℕ → ℕ
cluster_sector v cluster =
    u32 ((cluster + u32_mod - 2) * v.bpb.sectors_per_cluster + v.first_data_sector)

-- The bytes of a buffer from an offset on.
unfoldable pub bytes_from : ℕ → ℕ → Bytes → List ℕ
bytes_from zero at bytes = []
bytes_from (suc n) at bytes = bytes at ∷ bytes_from n (at + 1) bytes

-- The same buffer, from an offset on: `&data[at]`.
abbrev pub behind : ℕ → Bytes → Bytes
behind at bytes i = bytes (at + i)

module _ {D : Type 0} (drive : Drive D) (v : Volume) where
  -- `bytesToCopy`
  abbrev pub to_copy : ℕ → ℕ
  to_copy left = if ltb v.bpb.bytes_per_sector left then v.bpb.bytes_per_sector else left

  -- The inner loop of `readFile`, `n` rounds at most: the bytes read so far, and whether every sector
  -- could be read.
  unfoldable pub read_cluster : ℕ → D → ℕ → ℕ → List ℕ → List ℕ × Bool
  read_cluster zero d sector size done = (done, true)
  read_cluster (suc n) d sector size done =
      if leb size (length done) then (done, true) else (elim (read_sector drive v d sector) [
        | none ↦ (done, false)
        | some bytes ↦
            read_cluster n d (u32 (sector + 1)) size
              (done ++ bytes_from (to_copy (size - length done)) 0 bytes)
      ])

  -- The outer loop: the bytes that the buffer holds when `readFile` returns.
  unfoldable pub read_chain : ℕ → D → ℕ → ℕ → List ℕ → Option (List ℕ)
  read_chain zero d cluster size done = none
  read_chain (suc fuel) d cluster size done =
      let r = read_cluster v.bpb.sectors_per_cluster d (cluster_sector v cluster) size done in
      let next = read_fat_entry drive v d cluster in
      let rest = read_chain fuel d next size r.0 in
      if leb size (length done)
      then some done
      else if not r.1
      then some (r.0)
      else if leb size (length r.0)
      then some (r.0)
      else if leb end_of_chain next || (next == bad_cluster)
      then some (r.0)
      else rest

  unfoldable pub read_file : ℕ → D → ℕ → ℕ → Option (List ℕ)
  read_file fuel d start_cluster size =
      let result = read_chain fuel d start_cluster size [] in
      if (v.bpb.sectors_per_cluster == 0) || (v.bpb.bytes_per_sector == 0) then some [] else result

  -- The inner loop of `writeFile`: the drive, the bytes written, and whether all writes succeeded.
  unfoldable pub write_cluster : ℕ → D → ℕ → Bytes → ℕ → ℕ → D × ℕ × Bool
  write_cluster zero d sector bytes size written = (d, written, true)
  write_cluster (suc n) d sector bytes size written =
      let one = disk_write drive d sector (behind written bytes) v.bpb.bytes_per_sector in
      let rest =
        write_cluster n one.0 (u32 (sector + 1)) bytes size (written + v.bpb.bytes_per_sector) in
      if leb size written
      then (d, written, true)
      else if one.1
      then rest
      else (one.0, written, false)

  -- The last step of `writeFile`.
  abbrev pub finish : D → ℕ → D × Bool
  finish d cluster = update_fat_entry drive v d cluster end_of_chain

  -- What a round of `writeFile` decides once its cluster is written: to go on with a cluster, to finish,
  -- or to fail.
  pub data Step : Type 0 where
    go_on : D → ℕ → Step
    stop : D → ℕ → Step
    fail : D → Step

  -- A new cluster for the rest of the file.
  unfoldable pub extend : D → ℕ → Step
  extend d cluster =
      let new = allocate_cluster drive v d in
      let linked = update_fat_entry drive v new.0 cluster new.1 in
      if new.1 == 0
      then fail (new.0)
      else if linked.1
      then go_on (linked.0) new.1
      else fail (linked.0)

  unfoldable pub after_cluster : D → ℕ → ℕ → ℕ → Step
  after_cluster d cluster size written =
      let next = read_fat_entry drive v d cluster in
      let longer = extend d cluster in
      if leb end_of_chain next
      then (if ltb written size then longer else stop d cluster)
      else if next == bad_cluster
      then fail d
      else go_on d next

  unfoldable pub write_chain : ℕ → D → ℕ → Bytes → ℕ → ℕ → Option (D × Bool)
  write_chain zero d cluster bytes size written = none
  write_chain (suc fuel) d cluster bytes size written =
      let r =
        write_cluster v.bpb.sectors_per_cluster d (cluster_sector v cluster) bytes size written in
      if leb size written
      then some (finish d cluster)
      else if not r.2
      then some (r.0, false)
      else (elim (after_cluster r.0 cluster size r.1) [
        | go_on d' next ↦ write_chain fuel d' next bytes size r.1
        | stop d' last ↦ some (finish d' last)
        | fail d' ↦ some (d', false)
      ])

  unfoldable pub write_file : ℕ → D → ℕ → Bytes → ℕ → Option (D × Bool)
  write_file fuel d start_cluster bytes size =
      let result = write_chain fuel d start_cluster bytes size 0 in
      if (v.bpb.sectors_per_cluster == 0) || (v.bpb.bytes_per_sector == 0)
      then some (d, false)
      else result
