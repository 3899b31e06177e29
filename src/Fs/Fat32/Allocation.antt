-- ===== src/Fs/Fat32/Allocation.antt =====
-- `allocateCluster` takes the first cluster whose entry is 0.
use pocky.Common.{
  ℕ, zero, suc, ◌+◌, ◌-◌, ◌<◌, ◌≤◌, ◌≡◌, ◌≢◌, refl, false, ◌==◌, arith, Bool-cases, inl, inr, ◌⊎◌,
}
use pocky.Fs.Fat32.Disk.{Drive}
use pocky.Fs.Fat32.Table.{IsVolume, IsListed, Refuses}
use pocky.Fs.Fat32.Entries.{read-update_fat_entry, update_refused}
use pocky.Fs.Fat32.{
  Volume, end_of_chain, read_fat_entry, update_fat_entry, allocate_from, allocate_cluster,
}

module _ {D : Type 0} (drive : Drive D) (v : Volume) (ok : IsVolume v) (d : D) where
  -- The clusters from one to before another are all in use.
  abbrev pub AreUsed : ℕ → ℕ → Type 0
  AreUsed from to = (c : ℕ) → from ≤ c → c < to → read_fat_entry drive v d c ≢ 0

  -- Cluster `c` is the first free one from `from` on. It then reads as the end of a chain, or the update
  -- of its entry failed, as the drive can.
  pub record TakesFirst (from to c : ℕ) (d' : D) : Type 0 where
    pub low : from ≤ c
    pub high : c < to
    pub was_free : read_fat_entry drive v d c ≡ 0
    pub first : AreUsed from c
    pub marked :
        (read_fat_entry drive v d' c ≡ end_of_chain)
        ⊎ (((update_fat_entry drive v d c end_of_chain).1 ≡ false) × Refuses drive)

  abbrev pub Allocated : ℕ → ℕ → D × ℕ → Type 0
  Allocated from to r = TakesFirst from to r.1 r.0 ⊎ ((r.1 ≡ 0) × (r.0 ≡ d) × AreUsed from to)

  skip_used :
      (from to : ℕ) (r : D × ℕ)
      → read_fat_entry drive v d from ≢ 0
      → Allocated (from + 1) to r
      → Allocated from to r
  skip_used from to r used found = elim found [
    | inl t ↦ inl (record {
      low = omega (arith, t.low);
      high = t.high;
      was_free = t.was_free;
      first = λ c low lt. elim (Bool-cases (c == from)) [
        | inl e ↦ ground (arith, used)
        | inr e ↦ t.first c (ground arith) lt
      ];
      marked = t.marked;
    })
    | inr (none_free, same, all) ↦ inr (
      none_free,
      same,
      λ c low lt. elim (Bool-cases (c == from)) [
        | inl e ↦ ground (arith, used)
        | inr e ↦ all c (ground arith) lt
      ],
    )
  ]

  marks :
      (c : ℕ)
      → IsListed v c
      → (read_fat_entry drive v (update_fat_entry drive v d c end_of_chain).0 c ≡ end_of_chain)
        ⊎ (((update_fat_entry drive v d c end_of_chain).1 ≡ false) × Refuses drive)
  marks c l = elim (Bool-cases (update_fat_entry drive v d c end_of_chain).1) [
    | inl done ↦ inl (read-update_fat_entry drive v ok d c end_of_chain l done)
    | inr failed ↦ inr (failed, update_refused drive v ok d c end_of_chain failed)
  ]

  allocate_from-Allocated :
      (n from : ℕ)
      → ((c : ℕ) → from ≤ c → c < from + n → IsListed v c)
      → Allocated from (from + n) (allocate_from drive v n d from)
  unfolding allocate_from
  allocate_from-Allocated zero from listed = inr (refl, refl, λ c low lt. absurd (omega arith))
  allocate_from-Allocated (suc n) from listed =
      elim (Bool-cases (read_fat_entry drive v d from == 0)) [
        | inl e ↦ rw e (
            inl (record {
              low = omega arith;
              high = omega arith;
              was_free = ground arith;
              first = λ c low lt. absurd (omega arith);
              marked = marks from (listed from (omega arith) (omega arith));
            }))
        | inr e ↦
            let ends : from + suc n ≡ from + 1 + n = omega arith in
            rw (e, ends)
              (skip_used from (from + 1 + n) _ (ground arith) (
                allocate_from-Allocated n (from + 1)
                  (λ c low high. listed c (omega arith) (omega arith))))
      ]

  -- On a volume with sectors of 512 bytes and at least one copy of the table, which end below sector
  -- 2 ^ 32, and with every cluster below `m_totalClusters` in the table: `allocateCluster` gives the
  -- first cluster from 2 to before `m_totalClusters` whose entry is 0, and afterwards the entry reads as
  -- the end of a chain, unless `updateFatEntry` failed because the drive can refuse a call, which the code does not
  -- ask; it gives 0, and
  -- changes nothing, when there is no such cluster.
  pub allocate_cluster-Allocated :
      ((c : ℕ) → c < v.total_clusters → IsListed v c)
      → Allocated 2 (2 + (v.total_clusters - 2)) (allocate_cluster drive v d)
  unfolding allocate_cluster
  allocate_cluster-Allocated listed =
      allocate_from-Allocated (v.total_clusters - 2) 2 (λ c low high. listed c (omega arith))
