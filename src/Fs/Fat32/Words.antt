-- ===== src/Fs/Fat32/Words.antt =====
-- The entries of the table as words: four bytes of a sector, and the mask.
use native.Mathlib.Nat.{suc-mul}
use pocky.Common.{
  ℕ, zero, suc, ◌+◌, ◌*◌, ◌/◌, ◌%◌, ◌^◌, ◌<◌, ◌≤◌, ◌≡◌, ap, sym, ◌∙◌, false, ltb, ◌==◌, bit_and,
  arith, Bool-cases, inl, inr, ◌⊎◌,
}
use pocky.Common.Bits.{bit-bit_and}
use pocky.Memory.Virtual.Digits.{bit_and-below, bit_ext}
use pocky.Fs.Fat32.Disk.{Bytes}
use pocky.Fs.Fat32.{entry_mask, load32, store32}

pub load32-store32 :
    (bytes : Bytes) (at value : ℕ) → value < 2 ^ 32 → load32 (store32 bytes at value) at ≡ value
unfolding load32 store32
load32-store32 bytes at value h =
    let b0 : store32 bytes at value at ≡ value % 256 = ground arith in
    let b1 : store32 bytes at value (at + 1) ≡ value / 256 % 256 = ground arith in
    let b2 : store32 bytes at value (at + 2) ≡ value / 65536 % 256 = ground arith in
    let b3 : store32 bytes at value (at + 3) ≡ value / 16777216 % 256 = ground arith in
    omega (arith, b0, b1, b2, b3)

pub store32_apart :
    (bytes : Bytes) (at value other i : ℕ)
    → (other + 4 ≤ at) ⊎ (at + 4 ≤ other)
    → i < 4
    → store32 bytes at value (other + i) ≡ bytes (other + i)
unfolding store32
store32_apart bytes at value other i apart h = ground arith

-- The four bytes of an entry decide it.
pub load32_same :
    (a b : Bytes) (at : ℕ) → ((i : ℕ) → i < 4 → a (at + i) ≡ b (at + i)) → load32 a at ≡ load32 b at
unfolding load32
load32_same a b at same =
    let whole : at ≡ at + 0 = omega arith in
    let s0 : a at ≡ b at = ap a whole ∙ (same 0 (omega arith) ∙ ap b (sym whole)) in
    omega (arith, s0, same 1 (omega arith), same 2 (omega arith), same 3 (omega arith))

pub apart_sides : (a b : ℕ) → (a == b) ≡ false → (a + 1 ≤ b) ⊎ (b + 1 ≤ a)
apart_sides a b h = elim (Bool-cases (ltb a b)) [
  | inl lt ↦ inl (ground arith)
  | inr ge ↦ inr (ground arith)
]

pub scaled : (t j n : ℕ) → j < n → j * t + t ≤ n * t
scaled t j zero h = absurd (omega arith)
scaled t j (suc n) h = elim (Bool-cases (j == n)) [
  | inl e ↦ let q : j ≡ n = ground arith in rw q (omega (arith, suc-mul n t))
  | inr e ↦ omega (arith, suc-mul n t, scaled t j n (ground arith))
]

pub mask_twice :
    (value : ℕ) → bit_and (bit_and value entry_mask) entry_mask ≡ bit_and value entry_mask
mask_twice value =
    let small : (n : ℕ) → bit_and n entry_mask < 2 ^ 28 =
      λ n. bit_and-below 28 n entry_mask (omega arith) in
    bit_ext 28 _ _ (small (bit_and value entry_mask)) (small value) (λ j lt.
      omega (
        arith,
        bit-bit_and (bit_and value entry_mask) entry_mask j,
        bit-bit_and value entry_mask j,
      ))
