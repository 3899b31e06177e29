-- ===== src/Memory/Virtual/Tables.antt =====
-- The words of memory under the writes of the page tables, and the entry that `fill_entry` makes.
use pocky.Common.{
  ℕ, zero, suc, ◌+◌, ◌<◌, ◌≤◌, ◌≡◌, refl, ◌∙◌, Bool, true, false, bit_and, ◌==◌, arith, Bool-cases,
  inl, inr,
}
use pocky.Common.Loop.{for_range}
use pocky.Memory.Virtual.Entry.{
  present, huge_page, small_mask, address, set_present, set_writable, set_address,
}
use pocky.Memory.Virtual.Flags.{
  has_flag-set_flag, address-set_flag, has_flag-set_address, address-set_address,
}
use pocky.Memory.Virtual.{Words, entry_at, store, clear_table, fill_entry}

-- Of an entry that is not huge.
pub record IsEntry (e addr : ℕ) : Type 0 where
  pub here : present e ≡ true
  pub small : huge_page e ≡ false
  pub target : address e ≡ addr

pub fill_entry-IsEntry :
    (addr e : ℕ) (writable : Bool)
    → huge_page e ≡ false
    → IsEntry (fill_entry addr writable e) (bit_and addr small_mask)
unfolding fill_entry
fill_entry-IsEntry addr e writable small =
    let e0 = set_address addr e in
    let e1 = set_present true e0 in
    let e2 = set_writable writable e1 in
    let small0 : huge_page e0 ≡ false = has_flag-set_address 7 addr e small (omega arith) ∙ small in
    let small1 : huge_page e1 ≡ false =
      has_flag-set_flag 0 7 e0 true (omega arith) (omega arith) ∙ small0 in
    let small2 : huge_page e2 ≡ false =
      has_flag-set_flag 1 7 e1 writable (omega arith) (omega arith) ∙ small1 in
    record {
      here =
          has_flag-set_flag 2 0 e2 false (omega arith) (omega arith)
          ∙ (has_flag-set_flag 1 0 e1 writable (omega arith) (omega arith)
              ∙ has_flag-set_flag 0 0 e0 true (omega arith) (omega arith));
      small = has_flag-set_flag 2 7 e2 false (omega arith) (omega arith) ∙ small2;
      target =
          address-set_flag 2 e2 false (omega arith) small2
          ∙ (address-set_flag 1 e1 writable (omega arith) small1
              ∙ (address-set_flag 0 e0 true (omega arith) small0
                  ∙ address-set_address addr e small));
    }

pub store_same : (a v : ℕ) (m : Words) → store a v m a ≡ v
unfolding store
store_same a v m = ground arith

pub store_other : (a v b : ℕ) (m : Words) → (b == a) ≡ false → store a v m b ≡ m b
unfolding store
store_other a v b m other = rw other refl

abbrev clear_from : ℕ → ℕ → ℕ → Words → Words
clear_from table n from = for_range n from (λ i. store (entry_at table i) 0)

clear_outside :
    (table n from b : ℕ) (m : Words)
    → ((j : ℕ) → j < from + n → (b == entry_at table j) ≡ false)
    → clear_from table n from m b ≡ m b
unfolding for_range
clear_outside table zero from b m away = refl
clear_outside table (suc n) from b m away =
    clear_outside table n (from + 1) b _ (λ j lt. away j (omega arith))
    ∙ store_other _ _ b m (away from (omega arith))

module _ (table j : ℕ) where
  clear_stays :
      (n from : ℕ) (m : Words)
      → m (entry_at table j) ≡ 0
      → clear_from table n from m (entry_at table j) ≡ 0
  unfolding for_range
  clear_stays zero from m h = h
  clear_stays (suc n) from m h =
      clear_stays n (from + 1) _ (elim (Bool-cases (entry_at table j == entry_at table from)) [
        | inl e ↦ ground (arith, store_same (entry_at table from) 0 m)
        | inr e ↦ store_other _ _ _ m e ∙ h
      ])

  clear_inside :
      (n from : ℕ) (m : Words)
      → from ≤ j
      → j < from + n
      → clear_from table n from m (entry_at table j) ≡ 0
  unfolding for_range
  clear_inside zero from m low lt = absurd (omega arith)
  clear_inside (suc n) from m low lt = elim (Bool-cases (j == from)) [
    | inl e ↦
        let q : j ≡ from = ground arith in
        clear_stays n (from + 1) _ (rw (← q) (store_same (entry_at table j) 0 m))
    | inr e ↦ clear_inside n (from + 1) _ (ground arith) (omega arith)
  ]

-- Every entry of the table is cleared, and no other word is touched.
pub clear_table_inside :
    (table i : ℕ) (m : Words) → i < 512 → clear_table table m (entry_at table i) ≡ 0
unfolding clear_table
clear_table_inside table i m lt = clear_inside table i 512 0 m (omega arith) (omega arith)

pub clear_table_outside :
    (table b : ℕ) (m : Words)
    → ((j : ℕ) → j < 512 → (b == entry_at table j) ≡ false)
    → clear_table table m b ≡ m b
unfolding clear_table
clear_table_outside table b m away = clear_outside table 512 0 b m (λ j lt. away j (omega arith))
