-- ===== src/Base/Assoc.antt =====
-- Association lists with keys in ℕ, for the maps of the source (`std::unordered_map`).
-- No operation of the source depends on the order of a map's entries unless its model says so.
use Prim.Native.Nat.{ℕ, ◌+◌, ◌≤◌}
use mathlib.Core.Path.{◌≡◌, refl, sym, subst, ◌∙◌}
use mathlib.Core.Logic.{inl, inr}
use mathlib.Core.List.{List, [], ◌∷◌}
use mathlib.Core.Option.{Option, none, some, some-injective}
use native.Mathlib.Omega.{arith}
use smart_nic.Base.Tests.{◌==◌, if◌then◌else◌, Bool-cases}
use smart_nic.Base.Lists.{length}

module _ {ℓ} {V : Type ℓ} where
  unfoldable pub lookup : (key : ℕ) (entries : List (ℕ × V)) → Option V
  lookup key [] = none
  lookup key ((at, found) ∷ rest) = if at == key then some found else lookup key rest

  -- `m[key] = value`
  unfoldable pub insert : (key : ℕ) (value : V) (entries : List (ℕ × V)) → List (ℕ × V)
  insert key value [] = (key, value) ∷ []
  insert key value ((at, old) ∷ rest) =
      let later = insert key value rest in
      if at == key then (key, value) ∷ rest else (at, old) ∷ later

  -- `m.erase(key)`
  unfoldable pub erase : (key : ℕ) (entries : List (ℕ × V)) → List (ℕ × V)
  erase key [] = []
  erase key ((at, old) ∷ rest) =
      let later = erase key rest in if at == key then later else (at, old) ∷ later

  pub lookup-insert :
      (key other : ℕ) (value : V) (entries : List (ℕ × V))
      → lookup other (insert key value entries)
        ≡ (if key == other then some value else lookup other entries)
  unfolding insert lookup
  lookup-insert key other value [] = refl
  lookup-insert key other value ((at, old) ∷ rest) =
      ground (arith, lookup-insert key other value rest)

  pub lookup-insert_self :
      (key : ℕ) (value : V) (entries : List (ℕ × V))
      → lookup key (insert key value entries) ≡ some value
  lookup-insert_self key value entries = ground (arith, lookup-insert key key value entries)

  pub lookup-erase :
      (key other : ℕ) (entries : List (ℕ × V))
      → lookup other (erase key entries) ≡ (if key == other then none else lookup other entries)
  unfolding erase lookup
  lookup-erase key other [] = ground arith
  lookup-erase key other ((at, old) ∷ rest) = ground (arith, lookup-erase key other rest)

  pub length-erase_le :
      (key : ℕ) (entries : List (ℕ × V)) → length (erase key entries) ≤ length entries
  unfolding erase
  length-erase_le key [] = omega arith
  length-erase_le key ((at, old) ∷ rest) = ground (arith, length-erase_le key rest)

  pub length-insert_le :
      (key : ℕ) (value : V) (entries : List (ℕ × V))
      → length (insert key value entries) ≤ length entries + 1
  unfolding insert
  length-insert_le key value [] = omega arith
  length-insert_le key value ((at, old) ∷ rest) = ground (arith, length-insert_le key value rest)

-- A property of every value of a map.
module _ {ℓ ℓ'} {V : Type ℓ} (P : V → Type ℓ') where
  abbrev pub Holds : List (ℕ × V) → Type (ℓ ⊔ ℓ')
  Holds entries = (key : ℕ) (value : V) → lookup key entries ≡ some value → P value

  pub insert-Holds :
      (key : ℕ) (value : V) (entries : List (ℕ × V))
      → Holds entries
      → P value
      → Holds (insert key value entries)
  insert-Holds key value entries h p k v e =
      let found = sym (lookup-insert key k value entries) ∙ e in
      elim (Bool-cases (key == k)) [
        | inl same ↦ subst P (some-injective value v (rw same at found)) p
        | inr other ↦ h k v (rw other at found)
      ]

  pub erase-Holds : (key : ℕ) (entries : List (ℕ × V)) → Holds entries → Holds (erase key entries)
  erase-Holds key entries h k v e =
      let found = sym (lookup-erase key k entries) ∙ e in
      elim (Bool-cases (key == k)) [
        | inl same ↦ ground arith
        | inr other ↦ h k v (rw other at found)
      ]

  pub empty-Holds : Holds []
  unfolding lookup
  empty-Holds k v e = ground arith
