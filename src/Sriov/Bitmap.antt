-- ===== src/Sriov/Bitmap.antt =====
-- The allocation bitmaps of src/pf_vf_manager.cpp. The source has each routine twice, for queues
-- and for vectors, with the same body.
pub mod Laws
pub mod Exclusive
use smart_nic.Base.{
  ℕ, zero, suc, Bool, true, false, List, [], ◌∷◌, not, ◌+◌, if◌then◌else◌, set, get_or, ◌==◌, add16,
  ◌&&◌, ◌||◌, ltb, length, ◌-◌,
}

abbrev pub no_range : ℕ
no_range = 0xffff

-- The inner loop: the `count` bits from `start` on are all clear.
unfoldable pub is_free : List Bool → ℕ → ℕ → Bool
is_free bits start zero = true
is_free bits start (suc count) = not (get_or bits start true) && is_free bits (start + 1) count

-- The outer loop, with `left` starting points to try from `start` on.
unfoldable pub search_from : List Bool → ℕ → ℕ → ℕ → ℕ
search_from bits count start zero = no_range
search_from bits count start (suc left) =
    let rest = search_from bits count (start + 1) left in
    if is_free bits start count then start else rest

-- `start` is 16 bits wide in the source and stays below the number of bits, so it does not wrap.
unfoldable pub find_free_range : List Bool → ℕ → ℕ
unfolding search_from is_free
find_free_range bits count =
    if count == 0 || ltb (length bits) count
    then no_range
    else search_from bits count 0 (length bits - count + 1)

-- `mark_queues`, `mark_vectors`: an index past the end is skipped.
unfoldable pub mark : List Bool → ℕ → ℕ → Bool → List Bool
mark bits start zero value = bits
mark bits start (suc count) value = mark (set bits start value) (start + 1) count value

-- `available_queues`, `available_vectors`, a 16-bit count.
unfoldable pub count_free : ℕ → List Bool → ℕ
count_free n [] = n
count_free n (b ∷ bits) = count_free (if b then n else add16 n 1) bits
