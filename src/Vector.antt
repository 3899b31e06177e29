-- ===== src/Vector.antt =====
-- kernel/src/lib/vector.hpp: the growing array. The elements are a list, and the room behind them is
-- the capacity; constructing, destroying and moving elements leaves nothing to see of a plain value.
-- Sizes are `size_t`, and `operator new` is asked for a product that wraps.
pub mod Erase
pub mod Capacity
mod Tests
use pocky.Common.{
  ℕ, zero, suc, ◌+◌, ◌-◌, ◌*◌, ◌%◌, Option, none, some, List, [], ◌∷◌, ◌++◌, length, take, drop,
  replicate, if◌then◌else◌, ltb, leb, ◌==◌, u64_mod,
}

pub record Vector {ℓ} (A : Type ℓ) : Type ℓ where
  pub items : List A
  pub capacity : ℕ
  -- What `operator new` was asked for, 0 for the null pointer.
  pub bytes : ℕ

-- All elements but the last.
pub pop_last {ℓ} : {A : Type ℓ} → List A → List A
pop_last [] = []
pop_last (x ∷ []) = []
pop_last (x ∷ y ∷ ys) = x ∷ pop_last (y ∷ ys)

-- `for (k = j; k < size - 1; k++) v[k] = v[k + 1];`
pub shift_down {ℓ} : {A : Type ℓ} → ℕ → List A → List A
shift_down j [] = []
shift_down zero (x ∷ []) = x ∷ []
shift_down zero (x ∷ y ∷ ys) = y ∷ shift_down zero (y ∷ ys)
shift_down (suc j) (x ∷ xs) = x ∷ shift_down j xs

-- The loop that the callers write to take element `j` out, with the `pop_back` behind it.
unfoldable pub erase_at {ℓ} : {A : Type ℓ} → ℕ → List A → List A
unfolding shift_down pop_last
erase_at j xs = pop_last (shift_down j xs)

-- `element_size` is `sizeof(T)`.
module _ {ℓ} {A : Type ℓ} (element_size : ℕ) where
  pub empty : Vector A
  empty = record { items = []; capacity = 0; bytes = 0 }

  pub with_capacity : ℕ → Vector A
  with_capacity n = record { items = []; capacity = n; bytes = element_size * n % u64_mod }

  pub size : Vector A → ℕ
  size v = length v.items

  pub reserve : ℕ → Vector A → Vector A
  reserve new_capacity v =
      if leb new_capacity v.capacity
      then v
      else record v { capacity = new_capacity; bytes = element_size * new_capacity % u64_mod }

  -- `if (m_size >= m_capacity) reserve(m_capacity == 0 ? 1 : m_capacity * 2);`
  pub make_room : Vector A → Vector A
  unfolding reserve size
  make_room v =
      if leb v.capacity (size v)
      then reserve (if v.capacity == 0 then 1 else v.capacity * 2 % u64_mod) v
      else v

  pub push_back : A → Vector A → Vector A
  push_back value v = let v' = make_room v in record v' { items = v'.items ++ (value ∷ []) }

  -- `value` is what the constructor makes of the arguments; with it the index of the reference.
  pub emplace_back : A → Vector A → ℕ × Vector A
  emplace_back value v =
      let v' = make_room v in (size v', record v' { items = v'.items ++ (value ∷ []) })

  pub pop_back : Vector A → Vector A
  pop_back v = record v { items = pop_last v.items }

  -- `dflt` is what `new (&m_data[i]) T()` makes.
  pub resize : A → ℕ → Vector A → Vector A
  resize dflt new_size v =
      let v' = if ltb v.capacity new_size then reserve new_size v else v in
      record v' { items = take new_size (v'.items ++ replicate (new_size - length v'.items) dflt) }

  pub clear : Vector A → Vector A
  clear v = record v { items = [] }

  -- The copy assignment from another vector.
  pub assign : Vector A → Vector A → Vector A
  assign v other = record {
    items = other.items;
    capacity = if ltb v.capacity (size other) then other.capacity else v.capacity;
    bytes =
        if ltb v.capacity (size other) then element_size * other.capacity % u64_mod else v.bytes;
  }

  -- The copy constructor.
  pub copy : Vector A → Vector A
  copy other = record {
    items = other.items;
    capacity = other.capacity;
    bytes = if other.capacity == 0 then 0 else element_size * other.capacity % u64_mod;
  }

  -- The move constructor: the new vector, and what the other one is then.
  pub move : Vector A → Vector A × Vector A
  move other = (other, empty)

  -- The move assignment to a vector, whose elements are destroyed.
  pub move_assign : Vector A → Vector A → Vector A × Vector A
  move_assign v other = (other, empty)

  -- `erase` of the element at an index; a position outside changes nothing.
  pub erase : ℕ → Vector A → Vector A
  erase index v = if leb (size v) index then v else record v { items = erase_at index v.items }
