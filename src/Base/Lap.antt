-- ===== src/Base/Lap.antt =====
-- Going round a ring of `size` slots: what slots `h`, `h + 1`, ... hold, read by `rd`.
use Prim.Native.Nat.{ℕ, zero, suc, ◌+◌, ◌-◌, ◌%◌, ◌<◌}
use mathlib.Core.Path.{◌≡◌, refl, sym, ap, ap₂, ◌∙◌}
use mathlib.Core.Logic.{◌≢◌}
use mathlib.Core.List.{List, [], ◌∷◌, ◌++◌}
use native.Mathlib.Omega.{arith}
use native.Mathlib.Nat.{mod-add-mod, mod-eq_of_lt, mod-eq-sub-mod, add-zero}
use native.Mathlib.Decide.{dec_lt}
use smart_nic.Base.Lists.{length}

module _ {ℓ} {A : Type ℓ} (size : ℕ) where
  abbrev pub lap : (ℕ → A) → ℕ → ℕ → List A
  lap rd h zero = []
  lap rd h (suc n) = rd h ∷ lap rd ((h + 1) % size) n

  pub length-lap : (rd : ℕ → A) (h n : ℕ) → length (lap rd h n) ≡ n
  length-lap rd h zero = refl
  length-lap rd h (suc n) = ap suc (length-lap rd ((h + 1) % size) n)

  -- The code tests `count == 0`, `lap` matches on `suc`.
  pub lap-step :
      (rd : ℕ → A) (h n : ℕ) → n ≢ 0 → lap rd h n ≡ rd h ∷ lap rd ((h + 1) % size) (n - 1)
  lap-step rd h zero p = absurd (p refl)
  lap-step rd h (suc n) p = ap (λ k. lap rd h (suc k)) (omega arith)

-- Fewer than `size` steps do not come round.
mod-add-ne : (size h k : ℕ) → h < size → suc k < size → (h + suc k) % size ≢ h
mod-add-ne size h k hh hk = elim (dec_lt (h + suc k) size) [
  | yes p ↦ omega (arith, mod-eq_of_lt p)
  | no p ↦ omega (
    arith,
    mod-eq-sub-mod {n = h + suc k} {m = size} (omega arith),
    mod-eq_of_lt {n = h + suc k - size} {m = size} (omega arith),
  )
]

mod-add-shift : (size h n : ℕ) → (h + suc n) % size ≡ ((h + 1) % size + n) % size
mod-add-shift size h n = rw mod-add-mod (ap (λ k. k % size) (omega arith))

-- A write to the slot behind the last one appends, where it leaves the other slots alone.
pub lap-write {ℓ} :
    {A : Type ℓ} (size : ℕ) (rd rd' : ℕ → A) (x : A) (t : ℕ)
    → rd' t ≡ x
    → ((i : ℕ) → i < size → t ≢ i → rd' i ≡ rd i)
    → (h n : ℕ) → h < size
    → n < size
    → t ≡ (h + n) % size
    → lap size rd' h (suc n) ≡ lap size rd h n ++ (x ∷ [])
lap-write size rd rd' x t new old h zero hh hn e =
    let at_head : h ≡ t = sym (e ∙ ap (λ k. k % size) (add-zero h) ∙ mod-eq_of_lt hh) in
    ap (λ r. r ∷ []) (ap rd' at_head ∙ new)
lap-write size rd rd' x t new old h (suc n) hh hn e =
    ap₂ ◌∷◌ (old h hh (rw e (mod-add-ne size h n hh hn))) (
      lap-write size rd rd' x t new old ((h + 1) % size) n (omega arith) (omega arith)
        (e ∙ mod-add-shift size h n))

-- The two ways on from index `(h + n) % size`: one more behind, one fewer in front.
pub mod-add-next : (size h n : ℕ) → ((h + n) % size + 1) % size ≡ (h + (n + 1)) % size
mod-add-next size h n = rw mod-add-mod (ap (λ k. k % size) (omega arith))

pub mod-add-skip : (size h n : ℕ) → n ≢ 0 → (h + n) % size ≡ ((h + 1) % size + (n - 1)) % size
mod-add-skip size h n p = rw mod-add-mod (ap (λ k. k % size) (omega arith))
