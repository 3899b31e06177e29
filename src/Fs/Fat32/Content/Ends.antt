-- ===== src/Fs/Fat32/Content/Ends.antt =====
-- `readFile` and `writeFile` return whatever the table says, also when a chain goes round in circles:
-- every round moves at least one byte.
use pocky.Common.{
  ℕ, zero, suc, ◌+◌, ◌-◌, ◌<◌, ◌≤◌, ◌≡◌, refl, ap, ◌∙◌, Bool, true, false, ◌||◌, some, List, [],
  ◌++◌, length, length-append, leb, ◌==◌, arith, Bool-cases, Option-cases, inl, inr,
}
use pocky.Fs.Fat32.Disk.{Drive, Bytes, disk_write}
use pocky.Fs.Fat32.Content.{
  cluster_sector, bytes_from, behind, to_copy, read_cluster, read_chain, read_file, write_cluster,
  finish, Step, go_on, stop, fail, after_cluster, write_chain, write_file,
}
use pocky.Fs.Fat32.{Volume, u32, bad_cluster, end_of_chain, read_sector, read_fat_entry}

length-bytes_from : (n at : ℕ) (bytes : Bytes) → length (bytes_from n at bytes) ≡ n
unfolding bytes_from
length-bytes_from zero at bytes = refl
length-bytes_from (suc n) at bytes = ap suc (length-bytes_from n (at + 1) bytes)

module _ {D : Type 0} (drive : Drive D) (v : Volume) (sized : 0 < v.bpb.bytes_per_sector) where
  -- A read of one cluster does not pass the size wanted, and moves on when it succeeds.
  record MovesOn (rounds before after size : ℕ) (good : Bool) : Type 0 where
    grows : before ≤ after
    bounded : after ≤ size
    moves : 0 < rounds → before < size → good ≡ true → before < after

  read_cluster-MovesOn :
      (n : ℕ) (d : D) (sector size : ℕ) (done : List ℕ)
      → length done ≤ size
      → MovesOn n
          (length done)
          (length (read_cluster drive v n d sector size done).0)
          size
          (read_cluster drive v n d sector size done).1
  unfolding read_cluster
  read_cluster-MovesOn zero d sector size done h = record {
    grows = omega arith;
    bounded = h;
    moves = λ some_rounds. absurd (omega arith);
  }
  read_cluster-MovesOn (suc n) d sector size done h = elim (Bool-cases (leb size (length done))) [
    | inl full ↦ rw full (record {
      grows = omega arith;
      bounded = h;
      moves = λ some_rounds short. absurd (ground arith);
    })
    | inr room ↦ elim (Option-cases (read_sector drive v d sector)) [
      | inl e ↦
          rw (read_cluster, room, e)
            (record {
              grows = omega arith;
              bounded = h;
              moves = λ some_rounds short good. absurd (ground arith);
            })
      | inr (bytes, e) ↦
          let count = to_copy drive v (size - length done) in
          let more = done ++ bytes_from count 0 bytes in
          let size' : length more ≡ length done + count =
            length-append done (bytes_from count 0 bytes)
            ∙ ap (λ k. length done + k) (length-bytes_from count 0 bytes) in
          let some_count : 0 < count = ground (arith, sized) in
          let few : count ≤ size - length done = ground arith in
          let next =
            read_cluster-MovesOn n d (u32 (sector + 1)) size more (omega (arith, size', few)) in
          rw (read_cluster, room, e)
            (record {
              grows = omega (arith, next.grows, size');
              bounded = next.bounded;
              moves = λ some_rounds short good. omega (arith, next.grows, size', some_count);
            })
    ]
  ]

  module _ (spread : 0 < v.bpb.sectors_per_cluster) where
    read_chain_ends :
        (fuel : ℕ) (d : D) (cluster size : ℕ) (done : List ℕ)
        → length done ≤ size
        → size < fuel + length done
        → (out : List ℕ) × (read_chain drive v fuel d cluster size done ≡ some out)
          × (length out ≤ size)
    unfolding read_chain
    read_chain_ends zero d cluster size done h enough = absurd (omega arith)
    read_chain_ends (suc fuel) d cluster size done h enough =
        let n = v.bpb.sectors_per_cluster in
        let r = read_cluster drive v n d (cluster_sector v cluster) size done in
        let next = read_fat_entry drive v d cluster in
        let m = read_cluster-MovesOn n d (cluster_sector v cluster) size done h in
        elim (Bool-cases (leb size (length done))) [
          | inl full ↦ rw full (done, refl, h)
          | inr room ↦ elim (Bool-cases r.1) [
            | inr failed ↦ rw (room, failed) (r.0, refl, m.bounded)
            | inl good ↦ elim (Bool-cases (leb size (length r.0))) [
              | inl full ↦ rw (room, good, full) (r.0, refl, m.bounded)
              | inr left ↦ elim (Bool-cases (leb end_of_chain next || (next == bad_cluster))) [
                | inl last ↦ rw (room, good, left, last) (r.0, refl, m.bounded)
                | inr more ↦
                    let moved = m.moves spread (ground arith) good in
                    rw (room, good, left, more)
                      (read_chain_ends fuel d next size r.0 m.bounded (omega (arith, moved)))
              ]
            ]
          ]
        ]

  write_cluster_moves :
      (n : ℕ) (d : D) (sector : ℕ) (bytes : Bytes) (size written : ℕ)
      → (written ≤ (write_cluster drive v n d sector bytes size written).1)
        × (0 < n
            → written < size
            → (write_cluster drive v n d sector bytes size written).2 ≡ true
            → written < (write_cluster drive v n d sector bytes size written).1)
  unfolding write_cluster
  write_cluster_moves zero d sector bytes size written =
      (omega arith, λ some_rounds. absurd (omega arith))
  write_cluster_moves (suc n) d sector bytes size written =
      let one = disk_write drive d sector (behind written bytes) v.bpb.bytes_per_sector in
      let next =
        write_cluster_moves n one.0 (u32 (sector + 1)) bytes size
          (written + v.bpb.bytes_per_sector) in
      elim (Bool-cases (leb size written)) [
        | inl full ↦ rw full (omega arith, λ some_rounds short. absurd (ground arith))
        | inr room ↦ elim (Bool-cases one.1) [
          | inr failed ↦
              rw (room, failed) (omega arith, λ some_rounds short good. absurd (ground arith))
          | inl good ↦
              rw (room, good)
                (omega (arith, next.0), λ some_rounds short fine. omega (arith, next.0, sized))
        ]
      ]

  -- However a round ends, the rest of the file is written in the rounds that are left.
  by_step :
      (step : Step drive v) (fuel : ℕ) (bytes : Bytes) (size written : ℕ)
      → ((d' : D) (next : ℕ)
          → (out : D × Bool) × (write_chain drive v fuel d' next bytes size written ≡ some out))
      → (out : D × Bool) × ((elim step [
        | go_on d' next ↦ write_chain drive v fuel d' next bytes size written
        | stop d' last ↦ some (finish drive v d' last)
        | fail d' ↦ some (d', false)
      ])
          ≡ some out)
  by_step (go_on d' next) fuel bytes size written rest = rest d' next
  by_step (stop d' last) fuel bytes size written rest = (finish drive v d' last, refl)
  by_step (fail d') fuel bytes size written rest = ((d', false), refl)

  module _ (spread : 0 < v.bpb.sectors_per_cluster) where
    write_chain_ends :
        (fuel : ℕ) (d : D) (cluster : ℕ) (bytes : Bytes) (size written : ℕ)
        → size - written < fuel
        → (out : D × Bool) × (write_chain drive v fuel d cluster bytes size written ≡ some out)
    unfolding write_chain
    write_chain_ends zero d cluster bytes size written enough = absurd (omega arith)
    write_chain_ends (suc fuel) d cluster bytes size written enough =
        let n = v.bpb.sectors_per_cluster in
        let sector = cluster_sector v cluster in
        let r = write_cluster drive v n d sector bytes size written in
        elim (Bool-cases (leb size written)) [
          | inl full ↦ rw full (finish drive v d cluster, refl)
          | inr room ↦ elim (Bool-cases r.2) [
            | inr failed ↦ rw (room, failed) ((r.0, false), refl)
            | inl good ↦
                let moved =
                  (write_cluster_moves n d sector bytes size written).1 spread (ground arith)
                    good in
                let rest = λ (d' : D) (next : ℕ).
                  write_chain_ends fuel d' next bytes size r.1 (ground (arith, moved)) in
                rw (room, good)
                  (by_step (after_cluster drive v r.0 cluster size r.1) fuel bytes size r.1 rest)
          ]
        ]

-- On any table, also one whose chains go round in circles, `readFile` returns: as many rounds as the
-- buffer has bytes, and one more, are enough, and it fills no more than the buffer.
pub read_file_ends :
    {D : Type 0} (drive : Drive D) (v : Volume) (d : D) (start_cluster size : ℕ)
    → (out : List ℕ) × (read_file drive v (suc size) d start_cluster size ≡ some out)
      × (length out ≤ size)
unfolding read_file
read_file_ends drive v d start_cluster size =
    let spc = v.bpb.sectors_per_cluster in
    let bps = v.bpb.bytes_per_sector in
    elim (Bool-cases ((spc == 0) || (bps == 0))) [
      | inl bad ↦ rw bad ([], refl, omega arith)
      | inr good ↦ rw good (
          read_chain_ends drive v (ground arith) (ground arith) (suc size) d start_cluster size []
            (omega arith) (omega arith))
    ]

-- `writeFile` returns on any table and on any drive: as many rounds as there are bytes to write, and
-- one more, are enough.
pub write_file_ends :
    {D : Type 0} (drive : Drive D) (v : Volume) (d : D) (start_cluster : ℕ) (bytes : Bytes)
    (size : ℕ)
    → (out : D × Bool) × (write_file drive v (suc size) d start_cluster bytes size ≡ some out)
unfolding write_file
write_file_ends drive v d start_cluster bytes size =
    let spc = v.bpb.sectors_per_cluster in
    let bps = v.bpb.bytes_per_sector in
    elim (Bool-cases ((spc == 0) || (bps == 0))) [
      | inl bad ↦ rw bad ((d, false), refl)
      | inr good ↦ rw good (
          write_chain_ends drive v (ground arith) (ground arith) (suc size) d start_cluster bytes
            size 0 (omega arith))
    ]
