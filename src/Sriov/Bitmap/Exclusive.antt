-- ===== src/Sriov/Bitmap/Exclusive.antt =====
-- Blocks of a bitmap that are owned: each is marked, and no two overlap.
use native.Mathlib.Decide.{dec_le, ℕ_discrete}
use smart_nic.Base.{
  ℕ, Bool, true, false, List, Option, some, none, ◌≤◌, ◌≡◌, ◌<◌, inl, ◌+◌, if◌then◌else◌, ◌⊎◌,
  length, inr, ◌==◌, ◌≢◌, arith, ◌∙◌, max, subst,
}
use smart_nic.Sriov.Bitmap.{mark}
use smart_nic.Sriov.Bitmap.Laws.{bit, length-mark, mark-inside, mark-outside}

pub record Block : Type 0 where
  pub start : ℕ
  pub count : ℕ

abbrev pub Within : ℕ → Block → Type 0
Within k b = (b.start ≤ k) × (k < b.start + b.count)

abbrev pub Disjoint : Block → Block → Type 0
Disjoint a b = (a.start + a.count ≤ b.start) ⊎ (b.start + b.count ≤ a.start)

-- The blocks that owners 0, 1, ... hold of a bitmap whose first `reserved` bits are set aside.
pub record Exclusive (reserved : ℕ) (bits : List Bool) (owns : ℕ → Option Block) : Type 0 where
  pub inside :
      (i : ℕ) (b : Block)
      → owns i ≡ some b
      → (0 < b.count) × (reserved ≤ b.start) × (b.start + b.count ≤ length bits)
  pub held : (i : ℕ) (b : Block) → owns i ≡ some b → (k : ℕ) → Within k b → bit bits k ≡ true
  pub apart : (i j : ℕ) (a b : Block) → owns i ≡ some a → owns j ≡ some b → i ≢ j → Disjoint a b
  pub set_aside : (k : ℕ) → k < reserved → k < length bits → bit bits k ≡ true

-- A block of clear bits meets no block of set bits.
clear-Disjoint :
    (bits : List Bool) (a b : Block)
    → 0 < a.count
    → 0 < b.count
    → ((k : ℕ) → Within k a → bit bits k ≡ false)
    → ((k : ℕ) → Within k b → bit bits k ≡ true)
    → Disjoint a b
clear-Disjoint bits a b pa pb clear full = elim (dec_le (a.start + a.count) b.start) [
  | yes before ↦ inl before
  | no over ↦ elim (dec_le (b.start + b.count) a.start) [
    | yes after ↦ inr after
    | no both ↦
        let k : ℕ = max a.start b.start in
        cc (clear k (omega arith, omega arith), full k (omega arith, omega arith))
  ]
]

Disjoint-swap : (a b : Block) → Disjoint a b → Disjoint b a
Disjoint-swap a b (inl h) = inr h
Disjoint-swap a b (inr h) = inl h

Disjoint-outside :
    (a b : Block) (k : ℕ) → Disjoint a b → Within k b → (k < a.start) ⊎ (a.start + a.count ≤ k)
Disjoint-outside a b k (inl h) w = inr (omega arith)
Disjoint-outside a b k (inr h) w = inl (omega arith)

-- Who owns what after `i` was given the block `b`, and after `i` gave its block back.
abbrev pub given : ℕ → Block → (ℕ → Option Block) → ℕ → Option Block
given i b owns j = if i == j then some b else owns j

abbrev pub returned : ℕ → (ℕ → Option Block) → ℕ → Option Block
returned i owns j = if i == j then none else owns j

module _ (reserved : ℕ) (bits : List Bool) (owns : ℕ → Option Block)
    (v : Exclusive reserved bits owns) where
  -- A new owner may take any block of clear bits behind the reserved ones.
  module _ (i : ℕ) (b : Block) (new : owns i ≡ none) (positive : 0 < b.count)
      (fits : b.start + b.count ≤ length bits)
      (clear : (k : ℕ) → Within k b → bit bits k ≡ false) where
    behind : reserved ≤ b.start
    behind = elim (dec_le reserved b.start) [
      | yes h ↦ h
      | no h ↦ cc (
        clear b.start (omega arith, omega arith),
        v.set_aside b.start (omega arith) (omega arith),
      )
    ]

    given-Disjoint : (j : ℕ) (a : Block) → owns j ≡ some a → Disjoint b a
    given-Disjoint j a e = clear-Disjoint bits b a positive (v.inside j a e).0 clear (v.held j a e)

    pub given-Exclusive : Exclusive reserved (mark bits b.start b.count true) (given i b owns)
    given-Exclusive = record {
      inside = λ j a e. elim (ℕ_discrete i j) [
        | yes own ↦ ground (arith, own, e, behind, fits, length-mark bits b.start b.count true)
        | no other ↦
            let old : owns j ≡ some a = ground arith in
            let w = v.inside j a old in
            (w.0, w.1, omega (arith, w, length-mark bits b.start b.count true))
      ];
      held = λ j a e k w. elim (ℕ_discrete i j) [
        | yes own ↦
            let same : b ≡ a = ground arith in
            mark-inside bits b.start b.count k true fits (ground (arith, same, w.0))
              (ground (arith, same, w.1))
        | no other ↦
            let old : owns j ≡ some a = ground arith in
            mark-outside bits b.start b.count k true
              (Disjoint-outside b a k (given-Disjoint j a old) w)
            ∙ v.held j a old k w
      ];
      apart = λ j l a c e f ne. elim (ℕ_discrete i j) [
        | yes own ↦
            let same : b ≡ a = ground arith in
            let old : owns l ≡ some c = ground arith in
            subst (λ x. Disjoint x c) same (given-Disjoint l c old)
        | no other ↦
            let old : owns j ≡ some a = ground arith in
            elim (ℕ_discrete i l) [
              | yes own' ↦
                  let same : b ≡ c = ground arith in
                  subst (λ x. Disjoint a x) same (Disjoint-swap b a (given-Disjoint j a old))
              | no other' ↦ let old' : owns l ≡ some c = ground arith in v.apart j l a c old old' ne
            ]
      ];
      set_aside = λ k h l.
          let n = length-mark bits b.start b.count true in
          mark-outside bits b.start b.count k true (inl (omega (arith, behind)))
          ∙ v.set_aside k h (omega (arith, n));
    }

  -- An owner may give its block back.
  module _ (i : ℕ) (b : Block) (own : owns i ≡ some b) where
    pub returned-Exclusive : Exclusive reserved (mark bits b.start b.count false) (returned i owns)
    returned-Exclusive = record {
      inside = λ j a e.
          let old : owns j ≡ some a = ground arith in
          let w = v.inside j a old in
          (w.0, w.1, omega (arith, w, length-mark bits b.start b.count false));
      held = λ j a e k w.
          let old : owns j ≡ some a = ground arith in
          let other : i ≢ j = ground arith in
          mark-outside bits b.start b.count k false
            (Disjoint-outside b a k (v.apart i j b a own old other) w)
          ∙ v.held j a old k w;
      apart = λ j l a c e f ne.
          let old : owns j ≡ some a = ground arith in
          let old' : owns l ≡ some c = ground arith in v.apart j l a c old old' ne;
      set_aside = λ k h l.
          let w = v.inside i b own in
          mark-outside bits b.start b.count k false (inl (omega (arith, w)))
          ∙ v.set_aside k h (omega (arith, length-mark bits b.start b.count false));
    }
