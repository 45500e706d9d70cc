-- ===== src/Memory/Fifo.antt =====
-- What the rings promise their clients: a first-in first-out queue of at most `cap` entries.
use smart_nic.Base.{
  ℕ, Bool, true, false, Option, none, some, List, [], ◌∷◌, ◌++◌, if◌then◌else◌, ◌==◌, length,
}

module _ {ℓ} {A : Type ℓ} where
  unfoldable pub offer : ℕ → List A → A → Bool × List A
  offer cap q x = if length q == cap then (false, q) else (true, q ++ (x ∷ []))

  unfoldable pub poll : List A → Option A × List A
  poll [] = (none, [])
  poll (x ∷ q) = (some x, q)
