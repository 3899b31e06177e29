-- ===== src/Memory/Virtual/Digits.antt =====
-- A number below a power of two is known by its digits. The digits of the masks of
-- kernel/src/memory/virtual_memory.cpp and .hpp.
use Prim.Native.Nat.{bit_and-bitwise}
use native.Mathlib.Nat.{pow-suc}
use pocky.Common.{
  ℕ, zero, suc, ◌*◌, ◌/◌, ◌%◌, ◌^◌, ◌<◌, ◌≡◌, refl, ap, ◌∙◌, Bool, true, bit_and, bit_or,
  if◌then◌else◌, not, ltb, ◌==◌, ==_iff, arith,
}
use pocky.Common.Bits.{
  bit, bit_and-zero_below, bit_and-lowest, bit_or-lowest, holds_below, holds_below_at,
}
use pocky.Memory.Virtual.Entry.{not_pow64, small_mask}

pub bit_and-below : (n a b : ℕ) → b < 2 ^ n → bit_and a b < 2 ^ n
bit_and-below zero a b h =
    let p : b ≡ 0 = omega (arith, h) in rw p (omega (arith, bit_and-zero_below a a (omega arith)))
bit_and-below (suc n) a b h = omega (
  arith,
  bit_and-lowest a b,
  pow-suc 2 n,
  h,
  bit_and-below n (a / 2) (b / 2) (omega (arith, pow-suc 2 n, h)),
)

pub bit_and-below_left : (n a b : ℕ) → a < 2 ^ n → bit_and a b < 2 ^ n
bit_and-below_left zero a b h =
    let p : a ≡ 0 = omega (arith, h) in rw p (omega (arith, bit_and-bitwise 0 b))
bit_and-below_left (suc n) a b h = omega (
  arith,
  bit_and-lowest a b,
  pow-suc 2 n,
  h,
  bit_and-below_left n (a / 2) (b / 2) (omega (arith, pow-suc 2 n, h)),
)

pub bit_or-below : (n a b : ℕ) → a < 2 ^ n → b < 2 ^ n → bit_or a b < 2 ^ n
bit_or-below zero a b h k =
    let p : a ≡ 0 = omega (arith, h) in let q : b ≡ 0 = omega (arith, k) in rw (p, q) (omega arith)
bit_or-below (suc n) a b h k = omega (
  arith,
  bit_or-lowest a b,
  pow-suc 2 n,
  bit_or-below n (a / 2) (b / 2) (omega (arith, pow-suc 2 n, h)) (omega (arith, pow-suc 2 n, k)),
)

-- Two numbers below a power of two with the same digits are the same.
pub bit_ext : (n a b : ℕ) → a < 2 ^ n → b < 2 ^ n → ((j : ℕ) → j < n → bit a j ≡ bit b j) → a ≡ b
unfolding bit
bit_ext zero a b h k same = omega (arith, h, k)
bit_ext (suc n) a b h k same = omega (
  arith,
  same 0 (omega arith),
  bit_ext n (a / 2) (b / 2) (omega (arith, pow-suc 2 n, h)) (omega (arith, pow-suc 2 n, k))
      (λ j lt. same (suc j) (omega arith)),
)

abbrev doubled : ℕ → ℕ → ℕ
doubled zero q = q
doubled (suc k) q = 2 * doubled k q

bit-doubled : (k q j : ℕ) → j < k → bit (doubled k q) j ≡ 0
unfolding bit
bit-doubled zero q j lt = absurd (omega arith)
bit-doubled (suc k) q zero lt = omega arith
bit-doubled (suc k) q (suc j) lt =
    let half : 2 * doubled k q / 2 ≡ doubled k q = omega arith in
    rw half (bit-doubled k q j (omega arith))

-- A multiple of 4096 has no digit below the twelfth.
pub bit-aligned : (a j : ℕ) → a % 4096 ≡ 0 → j < 12 → bit a j ≡ 0
bit-aligned a j h lt =
    let whole : a ≡ doubled 12 (a / 4096) = omega arith in
    ap (λ n. bit n j) whole ∙ bit-doubled 12 (a / 4096) j lt

-- The digits of a constant, checked one by one.
digits_are : ℕ → (ℕ → Bool) → ℕ → Bool
digits_are c wanted = holds_below (λ j. bit c j == (if wanted j then 1 else 0))

small_table : digits_are small_mask (λ j. not (ltb j 12)) 48 ≡ true
unfolding digits_are holds_below bit
small_table = refl

pub bit-small_mask : (j : ℕ) → j < 48 → bit small_mask j ≡ (if ltb j 12 then 0 else 1)
unfolding digits_are
bit-small_mask j lt = ground (
  arith,
  (==_iff _ _).0 (
      holds_below_at (λ i. bit small_mask i == (if not (ltb i 12) then 1 else 0)) 48 j lt
        small_table),
)

mask_row : ℕ → Bool
mask_row k = digits_are (not_pow64 k) (λ j. not (k == j)) 64

mask_table : holds_below mask_row 12 ≡ true
unfolding digits_are holds_below mask_row bit
mask_table = refl

pub bit-not_pow64 : (k j : ℕ) → k < 12 → j < 64 → bit (not_pow64 k) j ≡ (if k == j then 0 else 1)
unfolding mask_row digits_are
bit-not_pow64 k j hk hj = ground (
  arith,
  (==_iff _ _).0 (
      holds_below_at (λ i. bit (not_pow64 k) i == (if not (k == i) then 1 else 0)) 64 j hj
        (holds_below_at mask_row 12 k hk mask_table)),
)

low_table : digits_are 0xFFF (λ j. ltb j 12) 64 ≡ true
unfolding digits_are holds_below bit
low_table = refl

pub bit-low_mask : (j : ℕ) → j < 64 → bit 0xFFF j ≡ (if ltb j 12 then 1 else 0)
unfolding digits_are
bit-low_mask j lt =
    (==_iff _ _).0
      (holds_below_at (λ i. bit 0xFFF i == (if ltb i 12 then 1 else 0)) 64 j lt low_table)

page_table : digits_are 0xFFFFFFFFFFFFF000 (λ j. not (ltb j 12)) 64 ≡ true
unfolding digits_are holds_below bit
page_table = refl

pub bit-page_mask : (j : ℕ) → j < 64 → bit 0xFFFFFFFFFFFFF000 j ≡ (if ltb j 12 then 0 else 1)
unfolding digits_are
bit-page_mask j lt = ground (
  arith,
  (==_iff _ _).0 (
      holds_below_at (λ i. bit 0xFFFFFFFFFFFFF000 i == (if not (ltb i 12) then 1 else 0)) 64 j lt
        page_table),
)
