-- ===== src/Vector/Capacity.antt =====
-- The elements fit into the capacity after every operation.
use pocky.Common.{
  if◌then◌else◌, ℕ, zero, suc, ◌+◌, ◌-◌, ◌*◌, ◌%◌, ◌<◌, ◌≤◌, refl, u64_mod, Bool-cases, inl, inr,
  ltb, leb, ◌==◌, ◌≡◌, ap, List, [], ◌∷◌, ◌++◌, length, take, replicate, length-append, arith,
}
use pocky.Vector.{
  Vector, size, reserve, make_room, push_back, emplace_back, pop_back, pop_last, resize, clear,
  erase, assign, move_assign,
}
use pocky.Vector.Erase.{length-erase_at}

-- A call that changes a vector. The other vector of an assignment is another object.
pub data Change {ℓ} (A : Type ℓ) : Type ℓ where
  pushes emplaces : A → Change A
  pops clears : Change A
  reserves erases : ℕ → Change A
  resizes : A → ℕ → Change A
  assigns moves : Vector A → Change A

-- The capacity that a full vector asks for.
grown :
    (element_size capacity : ℕ)
    → (capacity * 2 < u64_mod) × (element_size * (capacity * 2 + 1) < u64_mod)
    → (element_size * (if capacity == 0 then 1 else capacity * 2 % u64_mod) < u64_mod)
      × (capacity < (if capacity == 0 then 1 else capacity * 2 % u64_mod))
grown element_size capacity (double, room) =
    let more : element_size * (capacity * 2 + 1) ≡ element_size * (capacity * 2) + element_size =
      grind arith in
    elim (Bool-cases (capacity == 0)) [
      | inl none_held ↦ rw none_held (ground (arith, room, more), ground (arith, none_held))
      | inr some_held ↦
          let same : capacity * 2 % u64_mod ≡ capacity * 2 = omega (arith, double) in
          rw (some_held, same) (omega (arith, room, more), ground (arith, some_held))
    ]

module _ {ℓ} {A : Type ℓ} (element_size : ℕ) where
  -- The elements fit into the capacity, and the memory is that of so many elements.
  pub record IsValid (v : Vector A) : Type 0 where
    pub fits : length v.items ≤ v.capacity
    pub held : v.bytes ≡ element_size * v.capacity
    pub small : element_size * v.capacity < u64_mod

  -- What the call asks `operator new` for is a `size_t`, and so is the capacity it doubles.
  abbrev pub Fits : Change A → Vector A → Type 0
  Fits (pushes x) v = (v.capacity * 2 < u64_mod) × (element_size * (v.capacity * 2 + 1) < u64_mod)
  Fits (emplaces x) v = (v.capacity * 2 < u64_mod) × (element_size * (v.capacity * 2 + 1) < u64_mod)
  Fits pops v = Unit {0}
  Fits clears v = Unit {0}
  Fits (reserves n) v = element_size * n < u64_mod
  Fits (erases i) v = Unit {0}
  Fits (resizes x n) v = element_size * n < u64_mod
  Fits (assigns other) v = IsValid other
  Fits (moves other) v = IsValid other

  reserve-IsValid :
      (n : ℕ) (v : Vector A)
      → element_size * n < u64_mod
      → IsValid v
      → IsValid (reserve element_size n v)
        × ((reserve element_size n v).items ≡ v.items)
        × (n ≤ (reserve element_size n v).capacity)
  unfolding reserve
  reserve-IsValid n v room h = elim (Bool-cases (leb n v.capacity)) [
    | inl enough ↦ rw enough (h, refl, ground (arith, enough))
    | inr short ↦
        let below : v.capacity < n = ground (arith, short) in
        rw short (
          record { fits = omega (arith, h.fits, below); held = omega (arith, room); small = room },
          refl,
          omega arith,
        )
  ]

  make_room_lem :
      (v : Vector A)
      → (v.capacity * 2 < u64_mod) × (element_size * (v.capacity * 2 + 1) < u64_mod)
      → IsValid v
      → IsValid (make_room element_size v)
        × ((make_room element_size v).items ≡ v.items)
        × (length v.items + 1 ≤ (make_room element_size v).capacity)
  unfolding make_room size
  make_room_lem v room h = elim (Bool-cases (leb v.capacity (length v.items))) [
    | inl full ↦
        let (fits, larger) = grown element_size v.capacity room in
        let (valid, same, enough) =
          reserve-IsValid (if v.capacity == 0 then 1 else v.capacity * 2 % u64_mod) v fits h in
        rw full (valid, same, omega (arith, h.fits, larger, enough))
    | inr free ↦ rw free (h, refl, ground (arith, free))
  ]

  -- `push_back` appends the value, keeps all other elements, and has room for them all.
  pub push_back-IsValid :
      (x : A) (v : Vector A)
      → (v.capacity * 2 < u64_mod) × (element_size * (v.capacity * 2 + 1) < u64_mod)
      → IsValid v
      → IsValid (push_back element_size x v)
        × ((push_back element_size x v).items ≡ v.items ++ (x ∷ []))
  unfolding push_back
  push_back-IsValid x v room h =
      let (valid, same, more) = make_room_lem v room h in
      (
        record {
          fits = omega (
            arith,
            more,
            ap length same,
            length-append (make_room element_size v).items (x ∷ []),
          );
          held = valid.held;
          small = valid.small;
        },
        ap (λ t. t ++ (x ∷ [])) same,
      )

  length-pop_last : (xs : List A) → length (pop_last xs) ≤ length xs
  unfolding pop_last
  length-pop_last [] = omega arith
  length-pop_last (x ∷ []) = omega arith
  length-pop_last (x ∷ y ∷ ys) = omega (arith, length-pop_last (y ∷ ys))

  length-take_le : (n : ℕ) (xs : List A) → length (take n xs) ≤ n
  length-take_le zero xs = omega arith
  length-take_le (suc n) [] = omega arith
  length-take_le (suc n) (x ∷ xs) = omega (arith, length-take_le n xs)

  resize-IsValid :
      (x : A) (n : ℕ) (v : Vector A)
      → element_size * n < u64_mod
      → IsValid v
      → IsValid (resize element_size x n v)
  unfolding resize
  resize-IsValid x n v room h = elim (Bool-cases (ltb v.capacity n)) [
    | inl short ↦
        let (valid, same, enough) = reserve-IsValid n v room h in
        let items = (reserve element_size n v).items in
        rw short (record {
          fits = omega (arith, enough, length-take_le n (items ++ replicate (n - length items) x));
          held = valid.held;
          small = valid.small;
        })
    | inr wide ↦
        let inside : n ≤ v.capacity = ground (arith, wide) in
        rw wide (record {
          fits =
              omega (arith, inside, length-take_le n (v.items ++ replicate (n - length v.items) x));
          held = h.held;
          small = h.small;
        })
  ]

  erase-IsValid : (i : ℕ) (v : Vector A) → IsValid v → IsValid (erase element_size i v)
  unfolding erase size
  erase-IsValid i v h = elim (Bool-cases (leb (length v.items) i)) [
    | inl outside ↦ rw outside h
    | inr inside ↦ rw inside (record {
      fits = ground (arith, inside, length-erase_at i v.items, h.fits);
      held = h.held;
      small = h.small;
    })
  ]

  assign-IsValid :
      (v other : Vector A) → IsValid v → IsValid other → IsValid (assign element_size v other)
  unfolding assign size
  assign-IsValid v other h o = elim (Bool-cases (ltb v.capacity (length other.items))) [
    | inl short ↦
        rw short (record { fits = o.fits; held = omega (arith, o.small); small = o.small })
    | inr wide ↦ rw wide (record { fits = ground (arith, wide); held = h.held; small = h.small })
  ]

  pub apply : Change A → Vector A → Vector A
  apply (pushes x) v = push_back element_size x v
  apply (emplaces x) v = (emplace_back element_size x v).1
  apply pops v = pop_back element_size v
  apply clears v = clear element_size v
  apply (reserves n) v = reserve element_size n v
  apply (erases i) v = erase element_size i v
  apply (resizes x n) v = resize element_size x n v
  apply (assigns other) v = assign element_size v other
  apply (moves other) v = (move_assign element_size v other).0

  -- Every call that changes a vector keeps the elements within the capacity and the memory as large as the
  -- elements that the capacity counts. The conditions are, for `push_back` and `emplace_back`, that the
  -- doubled capacity and the bytes of one element more are below 2 ^ 64, for `reserve` and `resize` that
  -- the bytes of the new size are, and for an assignment that the other vector is like that.
  pub apply-IsValid : (c : Change A) (v : Vector A) → Fits c v → IsValid v → IsValid (apply c v)
  unfolding apply pop_back clear emplace_back push_back move_assign
  apply-IsValid (pushes x) v room h = (push_back-IsValid x v room h).0
  apply-IsValid (emplaces x) v room h = (push_back-IsValid x v room h).0
  apply-IsValid pops v room h = record {
    fits = omega (arith, length-pop_last v.items, h.fits);
    held = h.held;
    small = h.small;
  }
  apply-IsValid clears v room h = record { fits = omega arith; held = h.held; small = h.small }
  apply-IsValid (reserves n) v room h = (reserve-IsValid n v room h).0
  apply-IsValid (erases i) v room h = erase-IsValid i v h
  apply-IsValid (resizes x n) v room h = resize-IsValid x n v room h
  apply-IsValid (assigns other) v room h = assign-IsValid v other h room
  apply-IsValid (moves other) v room h = room
