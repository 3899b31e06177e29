-- ===== src/Memory/Physical/Init.antt =====
-- `initialize`: what the three reserving loops leave.
use pocky.Common.{
  ℕ, zero, suc, ◌+◌, ◌-◌, ◌*◌, ◌/◌, ◌%◌, ◌<◌, ◌≤◌, ◌≡◌, refl, Bool, false, ◌&&◌, ◌||◌, List, [],
  ◌∷◌, ltb, leb, length, get_or, arith, u64_mod,
}
use pocky.Common.Bits.{bit-zero}
use pocky.Common.Loop.{for_range}
use pocky.Memory.Physical.{
  Pmm, is_used, reserve, clear_words, initialize, page_size, heap_bytes, heap_frames,
  first_mb_frames, page_table_frames,
}
use pocky.Memory.Physical.Bitmap.{is_used-bit, free_below-all}
use pocky.Memory.Physical.Frames.{IsValid, used, reserve-IsValid, used-reserve}

get_or-clear_words : (n i : ℕ) (ws : List ℕ) → i < n → get_or (clear_words n ws) i 0 ≡ 0
unfolding clear_words
get_or-clear_words zero i ws h = absurd (omega arith)
get_or-clear_words (suc n) i [] h = refl
get_or-clear_words (suc n) zero (w ∷ ws) h = refl
get_or-clear_words (suc n) (suc i) (w ∷ ws) h = get_or-clear_words n i ws (omega arith)

length-clear_words : (n : ℕ) (ws : List ℕ) → length (clear_words n ws) ≡ length ws
unfolding clear_words
length-clear_words zero ws = refl
length-clear_words (suc n) [] = refl
length-clear_words (suc n) (w ∷ ws) = omega (arith, length-clear_words n ws)

is_used-clear_words : (n j : ℕ) (ws : List ℕ) → j < 32 * n → is_used (clear_words n ws) j ≡ false
is_used-clear_words n j ws h = rw (
  is_used-bit (clear_words n ws) j,
  get_or-clear_words n (j / 32) ws (omega arith),
  bit-zero (j % 32),
)

-- What a run of `n` rounds of the reserving loop from frame `i` does.
record Reserves (n i : ℕ) (p q : Pmm) : Type 0 where
  valid : IsValid q
  marks : (j : ℕ) → used q j ≡ ((leb i j && ltb j (i + n)) || used p j)
  counter : q.free_frames + n ≡ p.free_frames
  same_total : q.total_frames ≡ p.total_frames

reserve_fields : (p : Pmm) (i : ℕ) → (reserve i p).total_frames ≡ p.total_frames
unfolding reserve
reserve_fields p i = refl

reserve_range :
    (n i : ℕ) (p : Pmm)
    → IsValid p
    → i + n ≤ p.total_frames
    → ((j : ℕ) → i ≤ j → j < i + n → used p j ≡ false)
    → Reserves n i p (for_range n i reserve p)
unfolding for_range
reserve_range zero i p v fits clear = record {
  valid = v;
  marks = λ j. ground arith;
  counter = omega arith;
  same_total = refl;
}
reserve_range (suc n) i p v fits clear =
    let now = reserve-IsValid p i v (omega arith) (clear i (omega arith) (omega arith)) in
    let marked = λ (j : ℕ). used-reserve p i j (omega (arith, v.covered)) in
    let same = reserve_fields p i in
    let rest =
      reserve_range n (i + 1) (reserve i p) now.0 (omega arith)
        (λ j a b. ground (arith, marked j, clear j (omega arith) (omega arith))) in
    record {
      valid = rest.valid;
      marks = λ j. ground (arith, rest.marks j, marked j);
      counter = omega (arith, rest.counter, now.1);
      same_total = omega (arith, rest.same_total, same);
    }

-- The frames that are reserved at start: the first megabyte and five page tables behind it, and the
-- last sixteen megabytes, which are the heap's.
abbrev pub reserved : ℕ → ℕ → Bool
reserved total j = ltb j (first_mb_frames + page_table_frames) || leb (total - heap_frames) j

fresh_pmm : List ℕ → ℕ → ℕ → Pmm
fresh_pmm storage start size = record {
  bitmap = clear_words ((size / page_size + 31) / 32) storage;
  total_frames = size / page_size;
  free_frames = size / page_size;
  memory_start = start;
}

fresh_pmm-clear :
    (storage : List ℕ) (start size j : ℕ)
    → j < size / page_size
    → used (fresh_pmm storage start size) j ≡ false
unfolding fresh_pmm
fresh_pmm-clear storage start size j h = is_used-clear_words _ j storage (omega arith)

fresh_pmm-IsValid :
    (storage : List ℕ) (start size : ℕ)
    → size / page_size ≤ 32 * length storage
    → start + size < u64_mod
    → IsValid (fresh_pmm storage start size)
unfolding fresh_pmm
fresh_pmm-IsValid storage start size covered reach = record {
  covered = omega (arith, length-clear_words ((size / page_size + 31) / 32) storage);
  counted = omega (
    arith,
    free_below-all (clear_words ((size / page_size + 31) / 32) storage) (size / page_size)
        (λ j h. is_used-clear_words _ j storage (omega arith)),
  );
  reachable = omega arith;
}

-- What `initialize` leaves.
pub record Initialized (size : ℕ) (q : Pmm) : Type 0 where
  pub valid : IsValid q
  pub total : q.total_frames ≡ size / page_size
  pub marks : (j : ℕ) → j < size / page_size → used q j ≡ reserved (size / page_size) j
  pub counter :
      q.free_frames + (first_mb_frames + page_table_frames + heap_frames) ≡ size / page_size

three_loops :
    (size : ℕ) (p : Pmm)
    → IsValid p
    → p.total_frames ≡ size / page_size
    → p.free_frames ≡ size / page_size
    → ((j : ℕ) → j < size / page_size → used p j ≡ false)
    → first_mb_frames + page_table_frames + heap_frames ≤ size / page_size
    → Initialized size (
        for_range page_table_frames first_mb_frames reserve (
          for_range heap_frames
            (size / page_size - heap_frames)
            reserve
            (for_range first_mb_frames 0 reserve p)))
three_loops size p v total free clear fits =
    let low = reserve_range first_mb_frames 0 p v (omega arith) (λ j a b. clear j (omega arith)) in
    let heap =
      reserve_range heap_frames (size / page_size - heap_frames) _ low.valid
        (omega (arith, low.same_total))
        (λ j a b. ground (arith, low.marks j, clear j (omega arith))) in
    let tables =
      reserve_range page_table_frames first_mb_frames _ heap.valid
        (omega (arith, low.same_total, heap.same_total))
        (λ j a b. ground (arith, heap.marks j, low.marks j, clear j (omega arith))) in
    record {
      valid = tables.valid;
      total = omega (arith, low.same_total, heap.same_total, tables.same_total);
      marks = λ j h. ground (arith, tables.marks j, heap.marks j, low.marks j, clear j h);
      counter = omega (arith, low.counter, heap.counter, tables.counter);
    }

-- With room for the reserved frames, a bitmap that covers the memory and addresses that do not
-- wrap, `initialize` leaves a valid state: exactly the first megabyte, the five frames behind it
-- and the last sixteen megabytes are marked, and the counter is the number of all other frames.
pub initialize-Initialized :
    (storage : List ℕ) (start size : ℕ)
    → first_mb_frames + page_table_frames + heap_frames ≤ size / page_size
    → size / page_size ≤ 32 * length storage
    → start + size < u64_mod
    → Initialized size (initialize storage start size)
unfolding initialize fresh_pmm
initialize-Initialized storage start size fits covered reach =
    let from_end : ((size + u64_mod - heap_bytes) % u64_mod) / page_size
        ≡ size / page_size - heap_frames =
      omega arith in
    rw from_end (
      three_loops size (fresh_pmm storage start size)
        (fresh_pmm-IsValid storage start size covered reach) refl refl
        (fresh_pmm-clear storage start size) fits)
