-- ===== src/Vector/Tests.antt =====
-- A vector of kernel/src/lib/vector.hpp on concrete elements.
use pocky.Common.{ℕ, ◌≡◌, refl, List, [], ◌∷◌, ◌++◌, arith}
use pocky.Vector.{Vector, push_back}
use pocky.Vector.Capacity.{Change, IsValid, apply, apply-IsValid, push_back-IsValid}

abbrev full_vector : Vector ℕ
full_vector = record { items = 4 ∷ 7 ∷ []; capacity = 2; bytes = 16 }

full_vector-IsValid : IsValid 8 full_vector
full_vector-IsValid = record { fits = omega arith; held = refl; small = omega arith }

push_back-IsValid_example :
    IsValid 8 (push_back 8 9 full_vector)
    × ((push_back 8 9 full_vector).items ≡ (4 ∷ 7 ∷ []) ++ (9 ∷ []))
push_back-IsValid_example =
    push_back-IsValid 8 9 full_vector (omega arith, omega arith) full_vector-IsValid

apply-IsValid_example : IsValid 8 (apply 8 (Change.resizes 0 5) full_vector)
apply-IsValid_example =
    apply-IsValid 8 (Change.resizes 0 5) full_vector (omega arith) full_vector-IsValid

abbrev three_items : List ℕ
three_items = 4 ∷ 7 ∷ 9 ∷ []
