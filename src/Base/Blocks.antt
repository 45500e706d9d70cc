-- ===== src/Base/Blocks.antt =====
-- The front and the rest of a list, and the blocks that `slice` takes.
use Prim.Native.Nat.{ℕ, zero, suc, ◌+◌, ◌-◌, ◌≤◌, min}
use mathlib.Core.Path.{◌≡◌, refl, ap, ◌∙◌, sym}
use mathlib.Core.List.{List, [], ◌∷◌, ◌++◌}
use native.Mathlib.Omega.{arith}
use smart_nic.Base.Lists.{length, take, drop, slice}

module _ {ℓ} {A : Type ℓ} where
  pub length-drop : (n : ℕ) (xs : List A) → length (drop n xs) ≡ length xs - n
  length-drop zero xs = omega arith
  length-drop (suc n) [] = omega arith
  length-drop (suc n) (x ∷ xs) = omega (arith, length-drop n xs)

  pub length-take : (n : ℕ) (xs : List A) → length (take n xs) ≡ min n (length xs)
  length-take zero xs = omega arith
  length-take (suc n) [] = omega arith
  length-take (suc n) (x ∷ xs) = omega (arith, length-take n xs)

  pub take-drop : (n : ℕ) (xs : List A) → take n xs ++ drop n xs ≡ xs
  take-drop zero xs = refl
  take-drop (suc n) [] = refl
  take-drop (suc n) (x ∷ xs) = ap (λ r. x ∷ r) (take-drop n xs)

  pub drop-drop : (m n : ℕ) (xs : List A) → drop n (drop m xs) ≡ drop (m + n) xs
  drop-drop zero n xs = let e : 0 + n ≡ n = omega arith in rw e refl
  drop-drop (suc m) zero [] = let e : suc m + 0 ≡ suc m = omega arith in rw e refl
  drop-drop (suc m) (suc n) [] = let e : suc m + suc n ≡ suc (m + suc n) = omega arith in rw e refl
  drop-drop (suc m) n (x ∷ xs) =
      let e : suc m + n ≡ suc (m + n) = omega arith in rw e (drop-drop m n xs)

  slice-zero : (n : ℕ) (xs : List A) → slice xs 0 n ≡ take n xs
  unfolding slice
  slice-zero zero [] = refl
  slice-zero (suc n) [] = refl
  slice-zero zero (x ∷ xs) = refl
  slice-zero (suc n) (x ∷ xs) = ap (λ r. x ∷ r) (slice-zero n xs)

  take-min : (n : ℕ) (xs : List A) → take (min n (length xs)) xs ≡ take n xs
  take-min zero xs = let e : min 0 (length xs) ≡ 0 = omega arith in rw e refl
  take-min (suc n) [] = let e : min (suc n) 0 ≡ 0 = omega arith in rw e refl
  take-min (suc n) (x ∷ xs) =
      let step : min (suc n) (suc (length xs)) ≡ suc (min n (length xs)) = omega arith in
      rw step (ap (λ r. x ∷ r) (take-min n xs))

  take-nil : (n : ℕ) → take {A = A} n [] ≡ []
  take-nil zero = refl
  take-nil (suc n) = refl

  -- A block that ends where the list does, or before.
  pub slice-take :
      (n off : ℕ) (xs : List A) → slice xs off (min n (length xs - off)) ≡ take n (drop off xs)
  unfolding slice
  slice-take n zero xs =
      let all : length xs - 0 ≡ length xs = omega arith in rw all (slice-zero _ xs ∙ take-min n xs)
  slice-take n (suc off) [] = sym (take-nil n)
  slice-take n (suc off) (x ∷ xs) =
      let step : suc (length xs) - suc off ≡ length xs - off = omega arith in
      rw step (slice-take n off xs)

  pub drop_taken : (n : ℕ) (xs : List A) → drop (length (take n xs)) xs ≡ drop n xs
  drop_taken zero xs = refl
  drop_taken (suc n) [] = refl
  drop_taken (suc n) (x ∷ xs) = drop_taken n xs

  -- What stands before and after a front.
  pub take_front : (ys zs : List A) → take (length ys) (ys ++ zs) ≡ ys
  take_front [] zs = refl
  take_front (y ∷ ys) zs = ap (λ r. y ∷ r) (take_front ys zs)

  pub drop_front : (ys zs : List A) → drop (length ys) (ys ++ zs) ≡ zs
  drop_front [] zs = refl
  drop_front (y ∷ ys) zs = drop_front ys zs

  pub drop_all : (n : ℕ) (xs : List A) → length xs ≤ n → drop n xs ≡ []
  drop_all zero [] h = refl
  drop_all zero (x ∷ xs) h = absurd (omega arith)
  drop_all (suc n) [] h = refl
  drop_all (suc n) (x ∷ xs) h = drop_all n xs (omega arith)

  pub length-zero : (xs : List A) → length xs ≡ 0 → xs ≡ []
  length-zero [] e = refl
  length-zero (x ∷ xs) e = absurd (omega (arith, e))
