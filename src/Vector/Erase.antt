-- ===== src/Vector/Erase.antt =====
-- Taking one element out by shifting those behind it.
use pocky.Common.{ℕ, zero, suc, ◌+◌, ◌<◌, ◌≡◌, refl, ap, ◌∙◌, List, [], ◌∷◌, length, arith}
use pocky.Vector.{shift_down, pop_last, erase_at}

-- The list without its element `j`.
unfoldable pub remove_at {ℓ} : {A : Type ℓ} → ℕ → List A → List A
remove_at j [] = []
remove_at zero (x ∷ xs) = xs
remove_at (suc j) (x ∷ xs) = x ∷ remove_at j xs

module _ {ℓ} {A : Type ℓ} where
  pop_last_behind : (x : A) (zs : List A) → 0 < length zs → pop_last (x ∷ zs) ≡ x ∷ pop_last zs
  unfolding pop_last
  pop_last_behind x [] h = absurd (omega arith)
  pop_last_behind x (z ∷ zs) h = refl

  drop_first : (x : A) (xs : List A) → pop_last (shift_down zero (x ∷ xs)) ≡ xs
  unfolding shift_down pop_last
  drop_first x [] = refl
  drop_first x (y ∷ []) = refl
  drop_first x (y ∷ z ∷ zs) = ap (λ t. y ∷ t) (drop_first y (z ∷ zs))

  length-shift_down : (j : ℕ) (xs : List A) → length (shift_down j xs) ≡ length xs
  unfolding shift_down
  length-shift_down zero [] = refl
  length-shift_down (suc j) [] = refl
  length-shift_down zero (x ∷ []) = refl
  length-shift_down zero (x ∷ y ∷ ys) = omega (arith, length-shift_down zero (y ∷ ys))
  length-shift_down (suc j) (x ∷ xs) = omega (arith, length-shift_down j xs)

  -- The shifting loop and the `pop_back` behind it remove exactly the element at the index.
  pub erase_at-remove_at : (j : ℕ) (xs : List A) → j < length xs → erase_at j xs ≡ remove_at j xs
  unfolding erase_at remove_at
  erase_at-remove_at j [] h = absurd (omega arith)
  erase_at-remove_at zero (x ∷ xs) h = drop_first x xs
  erase_at-remove_at (suc j) (x ∷ []) h = absurd (omega arith)
  erase_at-remove_at (suc j) (x ∷ y ∷ ys) h =
      pop_last_behind x (shift_down j (y ∷ ys)) (omega (arith, length-shift_down j (y ∷ ys)))
      ∙ ap (λ t. x ∷ t) (erase_at-remove_at j (y ∷ ys) (omega arith))

  pub length-remove_at :
      (j : ℕ) (xs : List A) → j < length xs → length (remove_at j xs) + 1 ≡ length xs
  unfolding remove_at
  length-remove_at j [] h = absurd (omega arith)
  length-remove_at zero (x ∷ xs) h = omega arith
  length-remove_at (suc j) (x ∷ xs) h = omega (arith, length-remove_at j xs (omega arith))

  pub length-erase_at :
      (j : ℕ) (xs : List A) → j < length xs → length (erase_at j xs) + 1 ≡ length xs
  length-erase_at j xs h = rw (erase_at-remove_at j xs h) (length-remove_at j xs h)
