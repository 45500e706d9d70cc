-- ===== src/Sriov/Bitmap/Laws.antt =====
-- What the search finds and what marking changes.
use native.Mathlib.Decide.{ℕ_discrete}
use smart_nic.Base.{
  ℕ, zero, suc, Bool, true, false, List, [], ◌∷◌, refl, get_or, ◌<◌, ◌≡◌, inl, length, ◌+◌, arith,
  ◌≤◌, set, ◌⊎◌, ◌∙◌, inr, length-set, ◌≢◌, get_or-set_ne, Bool-cases, get_or-set_self, ◌==◌, ◌||◌,
  ltb, ◌-◌,
}
use smart_nic.Sriov.Bitmap.{no_range, is_free, search_from, find_free_range, mark}

abbrev pub bit : List Bool → ℕ → Bool
bit bits i = get_or bits i false

-- The two ways to read a bit differ past the end only.
bit-in : (bits : List Bool) (i : ℕ) → i < length bits → get_or bits i true ≡ bit bits i
bit-in [] i h = absurd (omega arith)
bit-in (b ∷ bits) zero h = refl
bit-in (b ∷ bits) (suc i) h = bit-in bits i (omega arith)

is_free-clear :
    (bits : List Bool) (start count k : ℕ)
    → start + count ≤ length bits
    → is_free bits start count ≡ true
    → start ≤ k
    → k < start + count
    → bit bits k ≡ false
unfolding is_free
is_free-clear bits start zero k h free le lt = absurd (omega arith)
is_free-clear bits start (suc count) k h free le lt = elim (ℕ_discrete k start) [
  | yes here ↦ rw here (ground (arith, bit-in bits start (omega arith)))
  | no there ↦
      is_free-clear bits (start + 1) count k (omega arith) (ground arith) (omega arith)
        (omega arith)
]

-- Where the search ends.
abbrev pub Found : List Bool → ℕ → ℕ → ℕ → ℕ → Type 0
Found bits count start left r =
    ((r ≡ no_range) × ((s : ℕ) → start ≤ s → s < start + left → is_free bits s count ≡ false))
    ⊎ ((start ≤ r) × (r < start + left) × (is_free bits r count ≡ true))

search_from-Found :
    (bits : List Bool) (count start left : ℕ)
    → Found bits count start left (search_from bits count start left)
unfolding search_from
search_from-Found bits count start zero = inl (refl, λ s a b. absurd (omega arith))
search_from-Found bits count start (suc left) = elim (Bool-cases (is_free bits start count)) [
  | inl free ↦ rw free (inr (omega arith, omega arith, free))
  | inr used ↦ rw used (one_more used (search_from-Found bits count (start + 1) left))
]
  where
    one_more :
        is_free bits start count ≡ false
        → Found bits count (start + 1) left (search_from bits count (start + 1) left)
        → Found bits count start (suc left) (search_from bits count (start + 1) left)
    one_more used (inl (e, none_free)) = inl (
      e,
      λ s a b. elim (ℕ_discrete s start) [
        | yes here ↦ rw here used
        | no there ↦ none_free s (omega arith) (omega arith)
      ],
    )
    one_more used (inr (a, b, free)) = inr (omega arith, omega arith, free)

-- In a bitmap of at most 0xffff bits, the search reports `no_range` only if no block of `count`
-- clear bits exists (or `count` is zero); otherwise it gives the start of a block of clear bits
-- inside the bitmap.
pub find_free_range-Found :
    (bits : List Bool) (count : ℕ)
    → length bits ≤ no_range
    → let r = find_free_range bits count in
      ((r ≡ no_range)
        × ((s : ℕ) → 0 < count → s + count ≤ length bits → is_free bits s count ≡ false))
      ⊎ ((0 < count)
          × (r + count ≤ length bits)
          × ((k : ℕ) → r ≤ k → k < r + count → bit bits k ≡ false))
unfolding find_free_range
find_free_range-Found bits count h = elim (Bool-cases (count == 0 || ltb (length bits) count)) [
  | inl refused ↦ rw refused (inl (refl, λ s a b. absurd (never s a b refused)))
  | inr tried ↦ rw tried (searched tried (search_from-Found bits count 0 (length bits - count + 1)))
]
  where
    never :
        (s : ℕ)
        → 0 < count
        → s + count ≤ length bits
        → (count == 0 || ltb (length bits) count) ≡ true
        → ⊥
    never s a b e = ground arith

    searched :
        (count == 0 || ltb (length bits) count) ≡ false
        → Found bits count 0
            (length bits - count + 1)
            (search_from bits count 0 (length bits - count + 1))
        → let r = search_from bits count 0 (length bits - count + 1) in
          ((r ≡ no_range)
            × ((s : ℕ) → 0 < count → s + count ≤ length bits → is_free bits s count ≡ false))
          ⊎ ((0 < count)
              × (r + count ≤ length bits)
              × ((k : ℕ) → r ≤ k → k < r + count → bit bits k ≡ false))
    searched e (inl (r, all)) = inl (r, λ s a b. all s (omega arith) (omega arith))
    searched e (inr (a, b, free)) =
        let positive : 0 < count = ground arith in
        let short : count ≤ length bits = ground arith in
        let fits : search_from bits count 0 (length bits - count + 1) + count ≤ length bits =
          omega arith in
        inr (positive, fits, λ k c d. is_free-clear bits _ count k fits free c d)

pub length-mark :
    (bits : List Bool) (start count : ℕ) (v : Bool) → length (mark bits start count v) ≡ length bits
unfolding mark
length-mark bits start zero v = refl
length-mark bits start (suc count) v =
    length-mark (set bits start v) (start + 1) count v ∙ length-set bits start v

pub mark-outside :
    (bits : List Bool) (start count k : ℕ) (v : Bool)
    → (k < start) ⊎ (start + count ≤ k)
    → bit (mark bits start count v) k ≡ bit bits k
unfolding mark
mark-outside bits start zero k v h = refl
mark-outside bits start (suc count) k v h =
    mark-outside (set bits start v) (start + 1) count k v (beyond h)
    ∙ get_or-set_ne bits start k v false (apart h)
  where
    beyond : (k < start) ⊎ (start + suc count ≤ k) → (k < start + 1) ⊎ (start + 1 + count ≤ k)
    beyond (inl p) = inl (omega arith)
    beyond (inr p) = inr (omega arith)

    apart : (k < start) ⊎ (start + suc count ≤ k) → start ≢ k
    apart (inl p) = omega arith
    apart (inr p) = omega arith

pub mark-inside :
    (bits : List Bool) (start count k : ℕ) (v : Bool)
    → start + count ≤ length bits
    → start ≤ k
    → k < start + count
    → bit (mark bits start count v) k ≡ v
unfolding mark
mark-inside bits start zero k v h le lt = absurd (omega arith)
mark-inside bits start (suc count) k v h le lt = elim (ℕ_discrete k start) [
  | yes here ↦ rw here (
      mark-outside (set bits start v) (start + 1) count start v (inl (omega arith))
      ∙ get_or-set_self bits start v false (omega arith))
  | no there ↦
      mark-inside (set bits start v) (start + 1) count k v (omega (arith, length-set bits start v))
        (omega arith) (omega arith)
]

-- The same for a block that sticks out.
pub mark-first :
    (bits : List Bool) (start count k : ℕ)
    → start ≤ k
    → k < start + count
    → k < length bits
    → bit (mark bits start count true) k ≡ true
unfolding mark
mark-first bits start zero k le lt h = absurd (omega arith)
mark-first bits start (suc count) k le lt h = elim (ℕ_discrete k start) [
  | yes here ↦ rw here (
      mark-outside (set bits start true) (start + 1) count start true (inl (omega arith))
      ∙ get_or-set_self bits start true false (omega arith))
  | no there ↦
      mark-first (set bits start true) (start + 1) count k (omega arith) (omega arith)
        (omega (arith, length-set bits start true))
]
