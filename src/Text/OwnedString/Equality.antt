-- ===== src/Text/OwnedString/Equality.antt =====
-- `operator==` of `String`, kernel/src/lib/string.hpp, against equality of the text.
use pocky.Common.{
  ℕ, zero, suc, ◌≤◌, ◌≡◌, refl, ap, sym, ◌∙◌, Bool, true, false, not, ◌&&◌, List, [], ◌∷◌, length,
  get_or, take, drop, if◌then◌else◌, ◌==◌, arith, Bool-cases, ==_iff, inl, inr, ◌⊎◌, ◌↔◌,
}
use pocky.Text.OwnedString.{String, cells_of, same_cells, equals}
use pocky.Text.OwnedString.Content.{chars, IsValid, room_for}
use pocky.Text.OwnedString.Cells.{length-take}

take-IsEqual :
    (n : ℕ) (a b : List ℕ)
    → n ≤ length a
    → n ≤ length b
    → same_cells n a b ≡ true
    → take n a ≡ take n b
unfolding same_cells
take-IsEqual zero a b h k e = refl
take-IsEqual (suc n) [] b h k e = absurd (omega (arith, h))
take-IsEqual (suc n) (x ∷ a) [] h k e = absurd (omega (arith, k))
take-IsEqual (suc n) (x ∷ a) (y ∷ b) h k e = elim (Bool-cases (x == y)) [
  | inl same ↦
      ap (λ z. z ∷ take n a) ((==_iff x y).0 same)
      ∙ ap (λ zs. y ∷ zs)
          (take-IsEqual n a b (omega (arith, h)) (omega (arith, k)) (ground (arith, e, same)))
  | inr other ↦ absurd (ground (arith, e, other))
]

IsSame-take :
    (n : ℕ) (a b : List ℕ)
    → n ≤ length a
    → n ≤ length b
    → take n a ≡ take n b
    → same_cells n a b ≡ true
unfolding same_cells
IsSame-take zero a b h k e = refl
IsSame-take (suc n) [] b h k e = absurd (omega (arith, h))
IsSame-take (suc n) (x ∷ a) [] h k e = absurd (omega (arith, k))
IsSame-take (suc n) (x ∷ a) (y ∷ b) h k e =
    ap (λ t. t && same_cells n a b) ((==_iff x y).1 (ap (λ zs. get_or zs 0 0) e))
    ∙ IsSame-take n a b (omega (arith, h)) (omega (arith, k)) (ap (drop 1) e)

test_parts :
    (t z c : Bool)
    → (if not t then false else if z then true else c) ≡ true
    → (t ≡ true) × ((z ≡ true) ⊎ (c ≡ true))
test_parts true true c e = (refl, inl refl)
test_parts true false c e = (refl, inr e)
test_parts false z c e = absurd (ground (arith, e))

test_whole :
    (t z c : Bool) → t ≡ true → c ≡ true → (if not t then false else if z then true else c) ≡ true
test_whole true true c t_holds c_holds = refl
test_whole true false c t_holds c_holds = c_holds
test_whole false z c t_holds c_holds = t_holds

-- Two valid strings are equal exactly when they stand for the same text.
pub equals-chars :
    (s other : String)
    → IsValid s
    → IsValid other
    → (equals s other ≡ true) ↔ (chars s ≡ chars other)
unfolding equals chars
equals-chars s other s_valid other_valid =
    let s_room = room_for s s_valid in
    let other_room = room_for other other_valid in
    (
      λ e.
          let parts =
            test_parts (s.size == other.size) (s.size == 0)
              (same_cells s.size (cells_of s) (cells_of other)) e in
          let sizes = (==_iff s.size other.size).0 (parts.0) in
          elim (parts.1) [
            | inl empty ↦
                ap (λ n. take n (cells_of s)) ((==_iff s.size 0).0 empty)
                ∙ ap (λ n. take n (cells_of other)) (sym ((==_iff s.size 0).0 empty))
            | inr same ↦
                take-IsEqual s.size (cells_of s) (cells_of other) s_room
                  (omega (arith, other_room, sizes)) same
          ]
          ∙ ap (λ n. take n (cells_of other)) sizes,
      λ e.
          let sizes : s.size ≡ other.size =
            sym (length-take s.size (cells_of s) s_room)
            ∙ (ap length e ∙ length-take other.size (cells_of other) other_room) in
          test_whole (s.size == other.size) (s.size == 0)
            (same_cells s.size (cells_of s) (cells_of other)) ((==_iff s.size other.size).1 sizes)
            (IsSame-take s.size (cells_of s) (cells_of other) s_room
              (omega (arith, other_room, sizes))
              (e ∙ ap (λ n. take n (cells_of other)) (sym sizes))),
    )
