-- ===== src/Common/Bits.antt =====
-- The binary digits of a number, and `&` and `|` read digit by digit. The words of the program are
-- numbers below a power of two.
use Prim.Native.Nat.{
  ℕ, zero, suc, ◌+◌, ◌-◌, ◌*◌, ◌/◌, ◌%◌, ◌^◌, ◌≤◌, ◌<◌, min, max, bit_and, bit_or, digits, bitwise,
  bit_and-bitwise, bit_or-bitwise,
}
use mathlib.Core.Path.{◌≡◌, refl, ap, ◌∙◌}
use mathlib.Core.Bool.{Bool, true, ◌&&◌}
use native.Mathlib.Omega.{arith}
use native.Mathlib.Nat.{pow-suc}
use pocky.Common.Tests.{◌==◌, ==_iff, if◌then◌else◌}

-- Digit k of a number.
unfoldable pub bit : ℕ → ℕ → ℕ
bit a zero = a % 2
bit a (suc k) = bit (a / 2) k

pub bit-lt-two : (a k : ℕ) → bit a k < 2
unfolding bit
bit-lt-two a zero = omega arith
bit-lt-two a (suc k) = bit-lt-two (a / 2) k

-- The library's digit recursion does not depend on its fuel, once there is enough.
module _ (rest : ℕ → ℕ) (op : ℕ → ℕ → ℕ) where
  enough_fuel : (a b m n : ℕ) → a ≤ m → a ≤ n → digits rest op m a b ≡ digits rest op n a b
  enough_fuel zero b zero zero hm hn = refl
  enough_fuel zero b zero (suc n) hm hn = refl
  enough_fuel zero b (suc m) zero hm hn = refl
  enough_fuel zero b (suc m) (suc n) hm hn = refl
  enough_fuel (suc a) b zero n hm hn = absurd (omega arith)
  enough_fuel (suc a) b (suc m) zero hm hn = absurd (omega arith)
  enough_fuel (suc a) b (suc m) (suc n) hm hn =
      ap (λ r. r * 2 + op (suc a % 2) (b % 2))
        (enough_fuel (suc a / 2) (b / 2) m n (omega arith) (omega arith))

  lowest_digit :
      (a b : ℕ)
      → bitwise rest op (suc a) b ≡ bitwise rest op (suc a / 2) (b / 2) * 2 + op (suc a % 2) (b % 2)
  lowest_digit a b =
      ap (λ r. r * 2 + op (suc a % 2) (b % 2))
        (enough_fuel (suc a / 2) (b / 2) a (suc a / 2) (omega arith) (omega arith))

pub bit_and-lowest : (a b : ℕ) → bit_and a b ≡ bit_and (a / 2) (b / 2) * 2 + min (a % 2) (b % 2)
bit_and-lowest zero b = omega (arith, bit_and-bitwise 0 b, bit_and-bitwise 0 (b / 2))
bit_and-lowest (suc a) b = omega (
  arith,
  bit_and-bitwise (suc a) b,
  bit_and-bitwise (suc a / 2) (b / 2),
  lowest_digit (λ y. 0) min a b,
)

pub bit_or-lowest : (a b : ℕ) → bit_or a b ≡ bit_or (a / 2) (b / 2) * 2 + max (a % 2) (b % 2)
bit_or-lowest zero b = omega (arith, bit_or-bitwise 0 b, bit_or-bitwise 0 (b / 2))
bit_or-lowest (suc a) b = omega (
  arith,
  bit_or-bitwise (suc a) b,
  bit_or-bitwise (suc a / 2) (b / 2),
  lowest_digit (λ y. y) max a b,
)

-- A digit of `a & b` is the smaller of the two, and of `a | b` the greater.
pub bit-bit_and : (a b k : ℕ) → bit (bit_and a b) k ≡ min (bit a k) (bit b k)
unfolding bit
bit-bit_and a b zero = omega (arith, bit_and-lowest a b)
bit-bit_and a b (suc k) =
    ap (λ n. bit n k) (omega (arith, bit_and-lowest a b)) ∙ bit-bit_and (a / 2) (b / 2) k

pub bit-bit_or : (a b k : ℕ) → bit (bit_or a b) k ≡ max (bit a k) (bit b k)
unfolding bit
bit-bit_or a b zero = omega (arith, bit_or-lowest a b)
bit-bit_or a b (suc k) =
    ap (λ n. bit n k) (omega (arith, bit_or-lowest a b)) ∙ bit-bit_or (a / 2) (b / 2) k

pub pow_half : (k : ℕ) → (2 ^ suc k / 2 ≡ 2 ^ k) × (2 ^ suc k % 2 ≡ 0)
pow_half k = omega (arith, pow-suc 2 k)

pub bit_and-zero_below : (n a : ℕ) → a ≤ n → bit_and a 0 ≡ 0
bit_and-zero_below n zero h = refl
bit_and-zero_below zero (suc a) h = absurd (omega arith)
bit_and-zero_below (suc n) (suc a) h =
    omega (arith, bit_and-lowest (suc a) 0, bit_and-zero_below n (suc a / 2) (omega arith))

-- `a & (1 << k)` holds digit k of `a` and nothing else.
pub bit_and-pow : (a k : ℕ) → bit_and a (2 ^ k) ≡ bit a k * 2 ^ k
unfolding bit
bit_and-pow a zero =
    omega (arith, bit_and-lowest a 1, bit_and-zero_below (a / 2) (a / 2) (omega arith))
bit_and-pow a (suc k) =
    rw (bit_and-lowest a (2 ^ suc k), (pow_half k).0, bit_and-pow (a / 2) k)
      (omega (arith, pow_half k, pow-suc 2 k, ap (λ t. bit (a / 2) k * t) (pow-suc 2 k)))

pub bit-zero : (k : ℕ) → bit 0 k ≡ 0
unfolding bit
bit-zero zero = refl
bit-zero (suc k) = bit-zero k

-- The digits of `1 << k`.
pub bit-pow : (k j : ℕ) → bit (2 ^ k) j ≡ (if k == j then 1 else 0)
unfolding bit
bit-pow zero zero = refl
bit-pow zero (suc j) = bit-zero j ∙ ground arith
bit-pow (suc k) zero = ground (arith, pow_half k)
bit-pow (suc k) (suc j) = rw ((pow_half k).0) (bit-pow k j ∙ ground arith)

-- Does a test hold for every number below a bound? Small bounds are checked by evaluation.
unfoldable pub holds_below : (ℕ → Bool) → ℕ → Bool
holds_below test zero = true
holds_below test (suc bound) = holds_below test bound && test bound

pub holds_below_at :
    (test : ℕ → Bool) (bound i : ℕ) → i < bound → holds_below test bound ≡ true → test i ≡ true
unfolding holds_below
holds_below_at test zero i inside checked = absurd (omega arith)
holds_below_at test (suc bound) i inside checked = ground (arith, holds_below_at test bound i)

-- `~(1u << k)` on 32 bits.
abbrev pub not_pow32 : ℕ → ℕ
not_pow32 k = 2 ^ 32 - 1 - 2 ^ k

mask_row : ℕ → Bool
mask_row k = holds_below (λ j. bit (not_pow32 k) j == (if k == j then 0 else 1)) 32

mask_table : holds_below mask_row 32 ≡ true
unfolding holds_below mask_row bit
mask_table = refl

pub bit-not_pow32 : (k j : ℕ) → k < 32 → j < 32 → bit (not_pow32 k) j ≡ (if k == j then 0 else 1)
unfolding mask_row
bit-not_pow32 k j hk hj = (==_iff _ _).0 (
    holds_below_at (λ i. bit (not_pow32 k) i == (if k == i then 0 else 1)) 32 j hj
      (holds_below_at mask_row 32 k hk mask_table))
