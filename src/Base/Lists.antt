-- ===== src/Base/Lists.antt =====
-- Lists measured and indexed by native numbers, and blocks of consecutive elements.
use Prim.Native.Nat.{ℕ, zero, suc, ◌+◌, ◌≤◌, ◌<◌}
use mathlib.Core.Path.{◌≡◌, refl, ap}
use mathlib.Core.Logic.{◌≢◌, ◌⊎◌, inl, inr}
use mathlib.Core.List.{List, [], ◌∷◌, ◌++◌}
use mathlib.Core.Option.{Option, none, some}
use native.Mathlib.Omega.{arith}

module _ {ℓ} {A : Type ℓ} where
  abbrev pub length : List A → ℕ
  length [] = 0
  length (x ∷ xs) = suc (length xs)

  abbrev pub get_elem? : List A → ℕ → Option A
  get_elem? [] i = none
  get_elem? (x ∷ xs) zero = some x
  get_elem? (x ∷ xs) (suc i) = get_elem? xs i

  abbrev pub get_or : List A → ℕ → A → A
  get_or [] i d = d
  get_or (x ∷ xs) zero d = x
  get_or (x ∷ xs) (suc i) d = get_or xs i d

  -- A write out of bounds changes nothing.
  abbrev pub set : List A → ℕ → A → List A
  set [] i v = []
  set (x ∷ xs) zero v = v ∷ xs
  set (x ∷ xs) (suc i) v = x ∷ set xs i v

  abbrev pub replicate : ℕ → A → List A
  replicate zero a = []
  replicate (suc n) a = a ∷ replicate n a

  abbrev pub take : ℕ → List A → List A
  take zero xs = []
  take (suc n) [] = []
  take (suc n) (x ∷ xs) = x ∷ take n xs

  abbrev pub drop : ℕ → List A → List A
  drop zero xs = xs
  drop (suc n) [] = []
  drop (suc n) (x ∷ xs) = drop n xs

  -- The `n` elements from index `off` on (fewer at the end of the list).
  unfoldable pub slice : List A → ℕ → ℕ → List A
  slice [] off n = []
  slice (x ∷ xs) (suc off) n = slice xs off n
  slice (x ∷ xs) zero zero = []
  slice (x ∷ xs) zero (suc n) = x ∷ slice xs zero n

  -- `memcpy(xs + off, ds, |ds|)`; what falls behind the end is not written.
  unfoldable pub splice : List A → ℕ → List A → List A
  splice [] off ds = []
  splice (x ∷ xs) (suc off) ds = x ∷ splice xs off ds
  splice (x ∷ xs) zero [] = x ∷ xs
  splice (x ∷ xs) zero (d ∷ ds) = d ∷ splice xs zero ds

module _ {ℓ} {A : Type ℓ} where
  pub length-append : (xs ys : List A) → length (xs ++ ys) ≡ length xs + length ys
  length-append [] ys = omega arith
  length-append (x ∷ xs) ys = omega (arith, length-append xs ys)

  pub length-set : (xs : List A) (i : ℕ) (v : A) → length (set xs i v) ≡ length xs
  length-set [] i v = refl
  length-set (x ∷ xs) zero v = refl
  length-set (x ∷ xs) (suc i) v = ap suc (length-set xs i v)

  pub length-replicate : (n : ℕ) (a : A) → length (replicate n a) ≡ n
  length-replicate zero a = refl
  length-replicate (suc n) a = ap suc (length-replicate n a)

  pub get_or-set_self :
      (xs : List A) (i : ℕ) (v d : A) → i < length xs → get_or (set xs i v) i d ≡ v
  get_or-set_self [] i v d h = absurd (omega arith)
  get_or-set_self (x ∷ xs) zero v d h = refl
  get_or-set_self (x ∷ xs) (suc i) v d h = get_or-set_self xs i v d (omega arith)

  pub get_or-set_ne :
      (xs : List A) (i j : ℕ) (v d : A) → i ≢ j → get_or (set xs i v) j d ≡ get_or xs j d
  get_or-set_ne [] i j v d h = refl
  get_or-set_ne (x ∷ xs) zero zero v d h = absurd (h refl)
  get_or-set_ne (x ∷ xs) zero (suc j) v d h = refl
  get_or-set_ne (x ∷ xs) (suc i) zero v d h = refl
  get_or-set_ne (x ∷ xs) (suc i) (suc j) v d h = get_or-set_ne xs i j v d (λ e. h (ap suc e))

  pub length-splice : (xs : List A) (off : ℕ) (ds : List A) → length (splice xs off ds) ≡ length xs
  unfolding splice
  length-splice [] off ds = refl
  length-splice (x ∷ xs) (suc off) ds = ap suc (length-splice xs off ds)
  length-splice (x ∷ xs) zero [] = refl
  length-splice (x ∷ xs) zero (d ∷ ds) = ap suc (length-splice xs zero ds)

  pub length-slice : (xs : List A) (off n : ℕ) → off + n ≤ length xs → length (slice xs off n) ≡ n
  unfolding slice
  length-slice [] off n h = omega arith
  length-slice (x ∷ xs) (suc off) n h = length-slice xs off n (omega arith)
  length-slice (x ∷ xs) zero zero h = refl
  length-slice (x ∷ xs) zero (suc n) h = ap suc (length-slice xs zero n (omega arith))

  pub slice-splice_self :
      (xs : List A) (off n : ℕ) (ds : List A)
      → n ≡ length ds
      → off + n ≤ length xs
      → slice (splice xs off ds) off n ≡ ds
  unfolding slice splice
  slice-splice_self [] off n [] e h = refl
  slice-splice_self [] off n (d ∷ ds) e h = absurd (omega arith)
  slice-splice_self (x ∷ xs) (suc off) n ds e h = slice-splice_self xs off n ds e (omega arith)
  slice-splice_self (x ∷ xs) zero zero [] e h = refl
  slice-splice_self (x ∷ xs) zero zero (d ∷ ds) e h = absurd (omega arith)
  slice-splice_self (x ∷ xs) zero (suc n) [] e h = absurd (omega arith)
  slice-splice_self (x ∷ xs) zero (suc n) (d ∷ ds) e h =
      ap (λ r. d ∷ r) (slice-splice_self xs zero n ds (omega arith) (omega arith))

  pub slice-splice_before :
      (xs : List A) (off : ℕ) (ds : List A) (a n : ℕ)
      → a + n ≤ off
      → slice (splice xs off ds) a n ≡ slice xs a n
  unfolding slice splice
  slice-splice_before [] off ds a n h = refl
  slice-splice_before (x ∷ xs) (suc off) ds (suc a) n h =
      slice-splice_before xs off ds a n (omega arith)
  slice-splice_before (x ∷ xs) (suc off) ds zero zero h = refl
  slice-splice_before (x ∷ xs) (suc off) ds zero (suc n) h =
      ap (λ r. x ∷ r) (slice-splice_before xs off ds zero n (omega arith))
  slice-splice_before (x ∷ xs) zero [] a n h = refl
  slice-splice_before (x ∷ xs) zero (d ∷ ds) zero zero h = refl
  slice-splice_before (x ∷ xs) zero (d ∷ ds) zero (suc n) h = absurd (omega arith)
  slice-splice_before (x ∷ xs) zero (d ∷ ds) (suc a) n h = absurd (omega arith)

  pub slice-splice_after :
      (xs : List A) (off : ℕ) (ds : List A) (a n : ℕ)
      → off + length ds ≤ a
      → slice (splice xs off ds) a n ≡ slice xs a n
  unfolding slice splice
  slice-splice_after [] off ds a n h = refl
  slice-splice_after (x ∷ xs) (suc off) ds (suc a) n h =
      slice-splice_after xs off ds a n (omega arith)
  slice-splice_after (x ∷ xs) (suc off) ds zero n h = absurd (omega arith)
  slice-splice_after (x ∷ xs) zero [] a n h = refl
  slice-splice_after (x ∷ xs) zero (d ∷ ds) zero n h = absurd (omega arith)
  slice-splice_after (x ∷ xs) zero (d ∷ ds) (suc a) n h =
      slice-splice_after xs zero ds a n (omega arith)

  -- Overwriting a whole buffer leaves what was written.
  pub splice_all : (xs ds : List A) → length ds ≡ length xs → splice xs 0 ds ≡ ds
  unfolding splice
  splice_all [] [] h = refl
  splice_all [] (d ∷ ds) h = absurd (omega arith)
  splice_all (x ∷ xs) [] h = absurd (omega arith)
  splice_all (x ∷ xs) (d ∷ ds) h = ap (λ r. d ∷ r) (splice_all xs ds (omega arith))

module _ {ℓ} {A : Type ℓ} where
  pub slice_front : (ys zs : List A) → slice (ys ++ zs) 0 (length ys) ≡ ys
  unfolding slice
  slice_front [] [] = refl
  slice_front [] (z ∷ zs) = refl
  slice_front (y ∷ ys) zs = ap (λ r. y ∷ r) (slice_front ys zs)

  -- A block of a list that is put together from three.
  pub slice_middle :
      (xs ys zs : List A) (off n : ℕ)
      → off ≡ length xs
      → n ≡ length ys
      → slice (xs ++ (ys ++ zs)) off n ≡ ys
  unfolding slice
  slice_middle [] ys zs off n e k = rw e (rw k (slice_front ys zs))
  slice_middle (x ∷ xs) ys zs off n e k = rw e (slice_middle xs ys zs (length xs) n refl k)

pub List-cases {ℓ} :
    {A : Type ℓ} (xs : List A) → (xs ≡ []) ⊎ ((x : A) × (rest : List A) × (xs ≡ x ∷ rest))
List-cases [] = inl refl
List-cases (x ∷ xs) = inr (x, xs, refl)
