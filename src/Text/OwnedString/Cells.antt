-- ===== src/Text/OwnedString/Cells.antt =====
-- What copying into the cells of a `String` leaves in them.
use pocky.Common.{
  ℕ, zero, suc, ◌+◌, ◌≤◌, ◌≡◌, refl, ap, ◌∙◌, List, [], ◌∷◌, ◌++◌, length, take, drop,
  length-append, length-drop, arith,
}
use pocky.Text.OwnedString.{copy_in}

pub length-take : (n : ℕ) (xs : List ℕ) → n ≤ length xs → length (take n xs) ≡ n
length-take zero xs h = refl
length-take (suc n) [] h = absurd (omega arith)
length-take (suc n) (x ∷ xs) h = ap suc (length-take n xs (omega arith))

pub take_all : (xs ys : List ℕ) → take (length xs) (xs ++ ys) ≡ xs
take_all [] ys = refl
take_all (x ∷ xs) ys = ap (λ zs. x ∷ zs) (take_all xs ys)

pub take_whole : (xs : List ℕ) → take (length xs) xs ≡ xs
take_whole [] = refl
take_whole (x ∷ xs) = ap (λ zs. x ∷ zs) (take_whole xs)

take-append : (n : ℕ) (xs ys : List ℕ) → n ≤ length xs → take n (xs ++ ys) ≡ take n xs
take-append zero xs ys h = refl
take-append (suc n) [] ys h = absurd (omega arith)
take-append (suc n) (x ∷ xs) ys h = ap (λ zs. x ∷ zs) (take-append n xs ys (omega arith))

copy_in-suc :
    (at : ℕ) (from cells : List ℕ) (x : ℕ)
    → copy_in (suc at) from (x ∷ cells) ≡ x ∷ copy_in at from cells
unfolding copy_in
copy_in-suc at from cells x =
    ap (λ m. x ∷ (take at cells ++ (from ++ drop m (x ∷ cells)))) {x = suc at + length from}
      {y = suc (at + length from)} (omega arith)

pub copy_in-first :
    (n : ℕ) (from cells : List ℕ) → n ≤ length from → take n (copy_in 0 from cells) ≡ take n from
unfolding copy_in
copy_in-first n from cells k = take-append n from (drop (0 + length from) cells) k

pub take-copy_in :
    (at : ℕ) (from cells : List ℕ)
    → at ≤ length cells
    → (n : ℕ) → n ≤ length from
    → take (at + n) (copy_in at from cells) ≡ take at cells ++ take n from
take-copy_in zero from cells h n k =
    ap (λ m. take m (copy_in 0 from cells)) {x = 0 + n} {y = n} (omega arith)
    ∙ copy_in-first n from cells k
take-copy_in (suc at) from [] h n k = absurd (omega (arith, h))
take-copy_in (suc at) from (x ∷ cells) h n k =
    ap (λ m. take m (copy_in (suc at) from (x ∷ cells))) {x = suc at + n} {y = suc (at + n)}
      (omega arith)
    ∙ (ap (take (suc (at + n))) (copy_in-suc at from cells x)
        ∙ ap (λ zs. x ∷ zs) (take-copy_in at from cells (omega (arith, h)) n k))

pub length-copy_in :
    (at : ℕ) (from cells : List ℕ)
    → at + length from ≤ length cells
    → length (copy_in at from cells) ≡ length cells
unfolding copy_in
length-copy_in at from cells h = omega (
  arith,
  h,
  length-append (take at cells) (from ++ drop (at + length from) cells),
  length-append from (drop (at + length from) cells),
  length-take at cells (omega (arith, h)),
  length-drop (at + length from) cells,
)

pub take-take : (n m : ℕ) (xs : List ℕ) → n ≤ m → take n (take m xs) ≡ take n xs
take-take zero m xs h = refl
take-take (suc n) zero xs h = absurd (omega arith)
take-take (suc n) (suc m) [] h = refl
take-take (suc n) (suc m) (x ∷ xs) h = ap (λ zs. x ∷ zs) (take-take n m xs (omega arith))

pub append_nil : (xs : List ℕ) → xs ++ [] ≡ xs
append_nil [] = refl
append_nil (x ∷ xs) = ap (λ zs. x ∷ zs) (append_nil xs)

pub append_assoc : (xs ys zs : List ℕ) → (xs ++ ys) ++ zs ≡ xs ++ (ys ++ zs)
append_assoc [] ys zs = refl
append_assoc (x ∷ xs) ys zs = ap (λ l. x ∷ l) (append_assoc xs ys zs)
