-- ===== src/Text/Strings/Copy.antt =====
-- What `strncpy` writes, and what it leaves alone.
use pocky.Common.{
  ℕ, zero, suc, ◌+◌, ◌-◌, ◌<◌, ◌≤◌, ◌≡◌, ◌⊎◌, inl, inr, List, [], ◌∷◌, length, get_or, arith, ltb,
  leb, Bool-cases, ◌&&◌, ◌==◌, if◌then◌else◌,
}
use pocky.Text.Bytes.{Memory, store}
use pocky.Text.Strings.{strncpy, pad}
use pocky.Text.Strings.Held.{IsString}

-- The string at `p` and the range of `count` bytes at `d` have no byte in common.
abbrev pub Apart : ℕ → ℕ → ℕ → List ℕ → Type 0
Apart d count p xs = (p + length xs < d) ⊎ (d + count ≤ p)

IsString-store :
    (m : Memory) (d v p : ℕ) (xs : List ℕ)
    → (p + length xs < d) ⊎ (d < p)
    → IsString m p xs
    → IsString (store m d v) p xs
IsString-store m d v p [] apart h = ground arith
IsString-store m d v p (x ∷ xs) apart h =
    (ground arith, h.1, IsString-store m d v (p + 1) xs (omega arith) h.2)

pad_lem :
    (d count q : ℕ) (m : Memory)
    → pad d count m q ≡ (if leb d q && ltb q (d + count) then 0 else m q)
unfolding pad
pad_lem d zero q m = ground arith
pad_lem d (suc count) q m = ground (arith, pad_lem (d + 1) count q (store m d 0))

-- From a string that lies apart, `strncpy` fills exactly `count` bytes: the characters, cut at
-- `count`, and zeros behind them. A string of `count` characters or more gets no zero.
pub strncpy-IsString :
    (d src count q : ℕ) (m : Memory) (xs : List ℕ)
    → IsString m src xs
    → Apart d count src xs
    → strncpy d src count m q ≡ (if leb d q && ltb q (d + count) then get_or xs (q - d) 0 else m q)
unfolding strncpy
strncpy-IsString d src zero q m xs h apart = ground arith
strncpy-IsString d src (suc count) q m [] h apart = ground (arith, pad_lem d (suc count) q m)
strncpy-IsString d src (suc count) q m (x ∷ xs) h apart =
    let m' = store m d (m src) in
    let kept = IsString-store m d (m src) (src + 1) xs (omega arith) h.2 in
    let rest = strncpy-IsString (d + 1) (src + 1) count q m' xs kept (omega arith) in
    elim (Bool-cases (ltb d q)) [
      | inl later ↦
          let next : q - d ≡ suc (q - (d + 1)) = ground arith in rw next (ground (arith, rest))
      | inr at_most ↦ elim (Bool-cases (d == q)) [
        | inl here ↦ let first : q - d ≡ 0 = ground arith in rw first (ground (arith, rest))
        | inr before ↦ ground (arith, rest)
      ]
    ]
