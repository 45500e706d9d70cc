-- ===== src/Memory/DescriptorRing/Refine.antt =====
-- A descriptor ring with in-model storage is a bounded FIFO of descriptors.
use smart_nic.Base.{
  refl, ℕ, List, slice, length, ◌≡◌, ◌≢◌, false, ◌*◌, splice, ◌<◌, ◌++◌, ◌∷◌, [], true, add32,
  arith, splice_all, ◌+◌, if◌then◌else◌, ◌≤◌, suc, length-slice, some, ◌%◌, slice-splice_after,
  slice-splice_self, ◌∙◌, none, slice-splice_before, sym, ap,
}
use native.Mathlib.Decide.{dec_lt}
use smart_nic.Base.Lap.{lap, length-lap, lap-step, lap-write}
use smart_nic.Memory.Fifo
use smart_nic.Memory.Dma.{succeeded}
use smart_nic.Memory.DescriptorRing.{
  DescriptorRing, Shared, push_descriptor, pop_descriptor, push_stored, pop_stored, produced,
  consumed, next_index, slot_offset, is_full, is_empty,
}
use smart_nic.Memory.DescriptorRing.Inv.{IsValid, offset-exact}

-- The descriptor in slot `i`.
abbrev pub slot : DescriptorRing → ℕ → List ℕ
slot r i = slice r.storage (i * r.descriptor_size) r.descriptor_size

-- The stored descriptors, oldest first.
abbrev pub contents : DescriptorRing → List (List ℕ)
contents r = lap r.ring_size (slot r) r.consumer_index r.count

pub length-contents : (r : DescriptorRing) → length (contents r) ≡ r.count
length-contents r = length-lap r.ring_size (slot r) r.consumer_index r.count

-- Slots do not overlap.
slot-splice_ne :
    (r : DescriptorRing) (t i : ℕ) (d : List ℕ)
    → length d ≡ r.descriptor_size
    → t ≢ i
    → slice (splice r.storage (t * r.descriptor_size) d) (i * r.descriptor_size) r.descriptor_size
      ≡ slot r i
slot-splice_ne r t i d e h = elim (dec_lt t i) [
  | yes p ↦
      let after : t * r.descriptor_size + r.descriptor_size ≤ i * r.descriptor_size = grind arith in
      slice-splice_after r.storage (t * r.descriptor_size) d _ r.descriptor_size (omega arith)
  | no p ↦
      let before : i * r.descriptor_size + r.descriptor_size ≤ t * r.descriptor_size =
        grind arith in
      slice-splice_before r.storage (t * r.descriptor_size) d _ r.descriptor_size before
]

next_index-exact :
    (r : DescriptorRing) (i : ℕ)
    → IsValid r
    → i < r.ring_size
    → next_index r i ≡ (i + 1) % r.ring_size
unfolding next_index
next_index-exact r i v h =
    let unwrapped : add32 i 1 ≡ i + 1 = omega arith in rw unwrapped (omega arith)

push_stored-ok :
    (r : DescriptorRing) (s : Shared) (d : List ℕ) → succeeded (push_stored r s d).0 ≡ true
unfolding push_stored produced succeeded
push_stored-ok r s d = refl

-- A push into a ring with room appends the descriptor behind the stored ones.
push_stored-contents :
    (r : DescriptorRing) (s : Shared) (d : List ℕ)
    → IsValid r
    → r.host_backed ≡ false
    → length d ≡ r.descriptor_size
    → r.count < r.ring_size
    → contents (push_stored r s d).1 ≡ contents r ++ (d ∷ [])
unfolding push_stored produced
push_stored-contents r s d v e h k =
    let p = r.producer_index in
    let off = offset-exact r p v v.producer_in in
    let grown : add32 r.count 1 ≡ suc r.count = omega arith in
    rw (off.0, grown)
      (lap-write r.ring_size (slot r)
        (λ i.
          slice (splice r.storage (p * r.descriptor_size) d) (i * r.descriptor_size)
            r.descriptor_size)
        d p
        (slice-splice_self r.storage (p * r.descriptor_size) r.descriptor_size d (sym h)
          (omega (arith, off.1, v.storage_size e)))
        (λ i hi ne. slot-splice_ne r p i d h ne) r.consumer_index r.count v.consumer_in k v.apart)

-- A valid ring with in-model storage answers a push of a descriptor of its size as a FIFO of
-- `ring_size` entries does: the result is a success exactly when the FIFO accepts, and the ring
-- then holds what the FIFO holds.
pub push_refines :
    (r : DescriptorRing) (s : Shared) (d : List ℕ)
    → IsValid r
    → r.host_backed ≡ false
    → length d ≡ r.descriptor_size
    → let (res, r', s') = push_descriptor r s d in
      (succeeded res, contents r') ≡ Fifo.offer r.ring_size (contents r) d
unfolding push_descriptor is_full Fifo.offer succeeded
push_refines r s d v e h =
    ground (arith, length-contents r, push_stored-contents r s d v e h, push_stored-ok r s d)

consumed-contents :
    (r : DescriptorRing) (s : Shared) (out : List ℕ)
    → IsValid r
    → r.count ≢ 0
    → contents r ≡ slot r r.consumer_index ∷ contents (consumed r s out).1
unfolding consumed
consumed-contents r s out v h =
    rw (next_index-exact r r.consumer_index v v.consumer_in)
      (lap-step r.ring_size (slot r) r.consumer_index r.count h)

contents-empty : (r : DescriptorRing) → r.count ≡ 0 → contents r ≡ []
contents-empty r h = ap (lap r.ring_size (slot r) r.consumer_index) h

consumed-out :
    (r : DescriptorRing) (s : Shared) (out : List ℕ)
    → (succeeded (consumed r s out).0 ≡ true) × ((consumed r s out).3 ≡ out)
unfolding consumed succeeded
consumed-out r s out = (refl, refl)

-- What a pop copies into a buffer of the descriptor's size.
popped-slot :
    (r : DescriptorRing) (out : List ℕ)
    → IsValid r
    → r.host_backed ≡ false
    → length out ≡ r.descriptor_size
    → splice out 0 (slice r.storage (slot_offset r r.consumer_index) (length out))
      ≡ slot r r.consumer_index
popped-slot r out v e h =
    let off = offset-exact r r.consumer_index v v.consumer_in in
    rw (off.0, h)
      (splice_all out (slot r r.consumer_index) (
        length-slice r.storage _ r.descriptor_size (omega (arith, off.1, v.storage_size e))
        ∙ sym h))

-- A pop from a valid ring with in-model storage into a buffer of the descriptor's size answers as
-- a poll of a FIFO does: it delivers the oldest descriptor and leaves the ring holding the rest,
-- and on an empty ring it fails.
pub pop_refines :
    (r : DescriptorRing) (s : Shared) (out : List ℕ)
    → IsValid r
    → r.host_backed ≡ false
    → length out ≡ r.descriptor_size
    → let (res, r', s', out') = pop_descriptor r s out in
      (if succeeded res then some out' else none, contents r') ≡ Fifo.poll (contents r)
unfolding pop_descriptor pop_stored is_empty Fifo.poll succeeded
pop_refines r s out v e h = ground (
  arith,
  contents-empty r,
  popped-slot r out v e h,
  consumed-contents r s
      (splice out 0 (slice r.storage (slot_offset r r.consumer_index) (length out))) v,
  consumed-out r s (splice out 0 (slice r.storage (slot_offset r r.consumer_index) (length out))),
)
