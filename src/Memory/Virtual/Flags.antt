-- ===== src/Memory/Virtual/Flags.antt =====
-- What the setters of `PageTableEntry` do to the flags and to the address.
use pocky.Common.{
  ℕ, ◌%◌, ◌^◌, ◌<◌, ◌≡◌, refl, ◌∙◌, Bool, false, ◌&&◌, bit_and, if◌then◌else◌, ltb, ◌==◌, arith,
  Bool-cases, inl, inr,
}
use pocky.Common.Bits.{bit, bit-lt-two, bit_and-pow, bit-bit_and, bit-bit_or, bit-pow, bit-zero}
use pocky.Memory.Physical.Bitmap.{digit_test, pow_pos}
use pocky.Memory.Virtual.Entry.{
  has_flag, not_pow64, set_flag, huge_page, small_mask, address, set_address,
}
use pocky.Memory.Virtual.Digits.{
  bit_and-below, bit_ext, bit-aligned, bit-small_mask, bit-not_pow64, bit-low_mask, bit-page_mask,
}

pub has_flag-bit : (k value : ℕ) → has_flag k value ≡ (bit value k == 1)
unfolding has_flag
has_flag-bit k value = rw (bit_and-pow value k) (digit_test _ _ (bit-lt-two value k) (pow_pos k))

chosen : (x : Bool) (k j : ℕ) → bit (if x then 2 ^ k else 0) j ≡ (if x && (k == j) then 1 else 0)
chosen x k j = elim (Bool-cases x) [ inl e ↦ rw e (bit-pow k j) | inr e ↦ rw e (bit-zero j) ]

-- One setter changes its own digit only.
pub bit-set_flag :
    (k j value : ℕ) (x : Bool)
    → k < 12
    → j < 64
    → bit (set_flag k x value) j ≡ (if k == j then (if x then 1 else 0) else bit value j)
unfolding set_flag
bit-set_flag k j value x hk hj = ground (
  arith,
  bit-bit_or (bit_and value (not_pow64 k)) (if x then 2 ^ k else 0) j,
  bit-bit_and value (not_pow64 k) j,
  bit-not_pow64 k j hk hj,
  bit-lt-two value j,
  chosen x k j,
)

one_digit : (x : Bool) → ((if x then 1 else 0) == 1) ≡ x
one_digit x = elim (Bool-cases x) [ inl e ↦ rw e refl | inr e ↦ rw e refl ]

-- A setter sets its own flag and leaves the others.
pub has_flag-set_flag :
    (k j value : ℕ) (x : Bool)
    → k < 12
    → j < 64
    → has_flag j (set_flag k x value) ≡ (if k == j then x else has_flag j value)
has_flag-set_flag k j value x hk hj = elim (Bool-cases (k == j)) [
  | inl e ↦
      rw (has_flag-bit j (set_flag k x value), bit-set_flag k j value x hk hj, e) (one_digit x)
  | inr e ↦
      rw
        (
          has_flag-bit j (set_flag k x value),
          has_flag-bit j value,
          bit-set_flag k j value x hk hj,
          e,
        )
        refl
]

small_below : (value : ℕ) → bit_and value small_mask < 2 ^ 48
small_below value = bit_and-below 48 value small_mask (omega arith)

-- The setters of the low flags, but for the one of huge pages, leave a small page's address.
pub address-set_flag :
    (k value : ℕ) (x : Bool)
    → k < 7
    → huge_page value ≡ false
    → address (set_flag k x value) ≡ address value
unfolding address
address-set_flag k value x hk small =
    let other : (k == 7) ≡ false = ground arith in
    let still : huge_page (set_flag k x value) ≡ false =
      rw (has_flag-set_flag k 7 value x (omega arith) (omega arith), other) small in
    rw (small, still)
      (bit_ext 48 _ _ (small_below _) (small_below _) (λ j lt. ground (
        arith,
        bit-bit_and (set_flag k x value) small_mask j,
        bit-bit_and value small_mask j,
        bit-small_mask j lt,
        bit-lt-two value j,
        bit-set_flag k j value x (omega arith) (omega arith),
      )))

bit-set_address :
    (addr value j : ℕ)
    → huge_page value ≡ false
    → j < 64
    → bit (set_address addr value) j ≡ bit (if ltb j 12 then value else addr) j
unfolding set_address
bit-set_address addr value j small lt = rw small (
    ground (
      arith,
      bit-bit_or (bit_and value 0xFFF) (bit_and addr 0xFFFFFFFFFFFFF000) j,
      bit-bit_and value 0xFFF j,
      bit-bit_and addr 0xFFFFFFFFFFFFF000 j,
      bit-low_mask j lt,
      bit-page_mask j lt,
      bit-lt-two value j,
      bit-lt-two addr j,
    ))

pub has_flag-set_address :
    (k addr value : ℕ)
    → huge_page value ≡ false
    → k < 12
    → has_flag k (set_address addr value) ≡ has_flag k value
has_flag-set_address k addr value small lt =
    rw
      (
        has_flag-bit k (set_address addr value),
        has_flag-bit k value,
        bit-set_address addr value k small (omega arith),
      )
      (ground arith)

-- The address of a small page is read back, cut to 48 bits and to whole pages.
pub address-set_address :
    (addr value : ℕ)
    → huge_page value ≡ false
    → address (set_address addr value) ≡ bit_and addr small_mask
unfolding address
address-set_address addr value small =
    let still : huge_page (set_address addr value) ≡ false =
      has_flag-set_address 7 addr value small (omega arith) ∙ small in
    rw still (
      bit_ext 48 _ _ (small_below _) (small_below _) (λ j lt. ground (
        arith,
        bit-bit_and (set_address addr value) small_mask j,
        bit-bit_and addr small_mask j,
        bit-small_mask j lt,
        bit-lt-two addr j,
        bit-set_address addr value j small (omega arith),
      )))

-- A page address below 2 ^ 48 survives the mask.
pub aligned_small : (addr : ℕ) → addr % 4096 ≡ 0 → addr < 2 ^ 48 → bit_and addr small_mask ≡ addr
aligned_small addr whole lt = bit_ext 48 _ _ (small_below addr) lt (λ j h. ground (
  arith,
  bit-bit_and addr small_mask j,
  bit-small_mask j h,
  bit-lt-two addr j,
  bit-aligned addr j whole,
))
