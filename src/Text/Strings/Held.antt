-- ===== src/Text/Strings/Held.antt =====
-- What the reading routines compute of strings that memory holds.
use pocky.Common.{
  ℕ, zero, suc, ◌+◌, ◌<◌, ◌≡◌, refl, ap, ◌≢◌, ◌↔◌, ◌∙◌, inl, inr, some, List, [], ◌∷◌, length,
  arith, Bool-cases, ◌==◌,
}
use pocky.Common.Int.{ℤ, pos, sub_ℕ}
use pocky.Text.Bytes.{Memory}
use pocky.Text.Strings.{strlen, strlen_from, strcmp}

-- The characters `xs`, none of them zero, stand from address `p` on, and a zero behind them.
abbrev pub IsString : Memory → ℕ → List ℕ → Type 0
IsString m p [] = m p ≡ 0
IsString m p (x ∷ xs) = (m p ≡ x) × (x ≢ 0) × IsString m (p + 1) xs

strlen_from-IsString :
    (f : ℕ) (m : Memory) (p len : ℕ) (xs : List ℕ)
    → IsString m (p + len) xs
    → length xs < f
    → strlen_from f m p len ≡ some (len + length xs)
unfolding strlen_from
strlen_from-IsString zero m p len xs h enough = elim enough [ ]
strlen_from-IsString (suc f) m p len [] h enough = ground arith
strlen_from-IsString (suc f) m p len (x ∷ xs) h enough =
    let next : p + len + 1 ≡ p + (len + 1) = omega arith in
    let rest = strlen_from-IsString f m p (len + 1) xs (rw (← next) (h.2)) (omega arith) in
    ground (arith, rest)

-- With fuel for every character and the zero, `strlen` returns the number of characters.
pub strlen-IsString :
    (f : ℕ) (m : Memory) (p : ℕ) (xs : List ℕ)
    → IsString m p xs
    → length xs < f
    → strlen f m p ≡ some (length xs)
unfolding strlen
strlen-IsString f m p xs h enough =
    let start : p + 0 ≡ p = omega arith in
    strlen_from-IsString f m p 0 xs (rw start h) enough ∙ ap some (omega arith)

sub_ℕ-zero : (a b : ℕ) → (sub_ℕ a b ≡ pos 0) ↔ (a ≡ b)
sub_ℕ-zero a b = (λ e. ground arith, λ e. ground arith)

-- With fuel for every character of the first string and its zero, `strcmp` returns a number, and
-- returns 0 exactly on equal strings.
pub strcmp-IsString :
    (f : ℕ) (m : Memory) (p q : ℕ) (xs ys : List ℕ)
    → IsString m p xs
    → IsString m q ys
    → length xs < f
    → (r : ℤ) × (strcmp f m p q ≡ some r) × ((r ≡ pos 0) ↔ (xs ≡ ys))
unfolding strcmp
strcmp-IsString zero m p q xs ys h k enough = elim enough [ ]
strcmp-IsString (suc f) m p q [] [] h k enough =
    (sub_ℕ (m p) (m q), ground arith, (λ e. refl, λ e. ground arith))
strcmp-IsString (suc f) m p q [] (y ∷ ys) h k enough =
    (sub_ℕ (m p) (m q), ground arith, (λ e. absurd (ground arith), λ e. cc))
strcmp-IsString (suc f) m p q (x ∷ xs) [] h k enough =
    (sub_ℕ (m p) (m q), ground arith, (λ e. absurd (ground arith), λ e. cc))
strcmp-IsString (suc f) m p q (x ∷ xs) (y ∷ ys) h k enough = elim (Bool-cases (x == y)) [
  | inl e ↦
      let (r, run, iff) = strcmp-IsString f m (p + 1) (q + 1) xs ys h.2 k.2 (omega arith) in
      (r, ground arith, (λ z. let t = iff.0 z in ground arith, λ z. iff.1 (cc)))
  | inr n ↦
      (sub_ℕ (m p) (m q), ground arith, (λ e. absurd (ground arith), λ e. absurd (ground arith)))
]
