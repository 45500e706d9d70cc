-- ===== src/Memory/DescriptorRing/Inv.antt =====
-- The invariant of a descriptor ring, with and without host backing.
use smart_nic.Base.{
  ℕ, arith, length, ◌<◌, List, ◌≢◌, ◌^◌, ◌*◌, ◌≤◌, ◌≡◌, ◌+◌, ◌%◌, false, splice, length-splice,
  Option, ◌∙◌, some, length-replicate, Bool-cases, slice, inl, inr, none,
}
use smart_nic.Base.Lap.{mod-add-next, mod-add-skip}
use smart_nic.Memory.Dma
use smart_nic.Memory.Dma.{DmaEngine, succeeded}
use smart_nic.Memory.DescriptorRing.{
  slot_address, DescriptorRing, Shared, produced, consumed, next_index, slot_offset, push_host,
  pop_host, push_descriptor, pop_descriptor, reset, init, push_stored, pop_stored,
  DescriptorRingConfig, is_full, is_empty,
}

-- The indices stay in the ring and `count` apart, and in-model storage has room for every slot.
-- A ring of 2^32 slots or more is outside: its counters are 32 bits wide.
pub record IsValid (r : DescriptorRing) : Type 0 where
  pub small : r.ring_size < 2 ^ 32
  pub addressable : r.descriptor_size * r.ring_size < 2 ^ 64
  pub nonempty : 0 < r.ring_size
  pub producer_in : r.producer_index < r.ring_size
  pub consumer_in : r.consumer_index < r.ring_size
  pub count_in : r.count ≤ r.ring_size
  pub apart : r.producer_index ≡ (r.consumer_index + r.count) % r.ring_size
  pub storage_size : r.host_backed ≡ false → length r.storage ≡ r.descriptor_size * r.ring_size

produced-IsValid :
    (r : DescriptorRing) (s : Shared) (d : List ℕ)
    → IsValid r
    → r.count ≢ r.ring_size
    → IsValid (produced r s d).1
unfolding produced next_index
produced-IsValid r s d v h = ground (arith, mod-add-next r.ring_size r.consumer_index r.count)

consumed-IsValid :
    (r : DescriptorRing) (s : Shared) (d : List ℕ)
    → IsValid r
    → r.count ≢ 0
    → IsValid (consumed r s d).1
unfolding consumed next_index
consumed-IsValid r s d v h = ground (arith, mod-add-skip r.ring_size r.consumer_index r.count)

-- The two indices go round the ring, so an access uses a slot inside the storage.
pub offset-exact :
    (r : DescriptorRing) (i : ℕ)
    → IsValid r
    → i < r.ring_size
    → (slot_offset r i ≡ i * r.descriptor_size)
      × (i * r.descriptor_size + r.descriptor_size ≤ r.descriptor_size * r.ring_size)
unfolding slot_offset
offset-exact r i v h =
    let fits : i * r.descriptor_size + r.descriptor_size ≤ r.descriptor_size * r.ring_size =
      grind arith in
    (omega arith, fits)

splice-IsValid :
    (r : DescriptorRing) (off : ℕ) (d : List ℕ)
    → IsValid r
    → IsValid (record r { storage = splice r.storage off d })
splice-IsValid r off d v = record {
  small = v.small;
  addressable = v.addressable;
  nonempty = v.nonempty;
  producer_in = v.producer_in;
  consumer_in = v.consumer_in;
  count_in = v.count_in;
  apart = v.apart;
  storage_size = λ e. length-splice r.storage off d ∙ v.storage_size e;
}

push_host-IsValid :
    (r : DescriptorRing) (s : Shared) (o : Option DmaEngine) (d : List ℕ)
    → IsValid r
    → r.count ≢ r.ring_size
    → IsValid (push_host r s o d).1
unfolding push_host
push_host-IsValid r s none d v h = v
push_host-IsValid r s (some e) d v h =
    let (result, e') = Dma.write e (slot_address r r.producer_index) d in
    elim (Bool-cases (succeeded result)) [
      | inl ok ↦ rw ok (produced-IsValid r (record s { dma_engine = some e' }) d v h)
      | inr bad ↦ rw bad v
    ]

pop_host-IsValid :
    (r : DescriptorRing) (s : Shared) (o : Option DmaEngine) (out : List ℕ)
    → IsValid r
    → r.count ≢ 0
    → IsValid (pop_host r s o out).1
unfolding pop_host
pop_host-IsValid r s none out v h = v
pop_host-IsValid r s (some e) out v h =
    let (result, e', out') = Dma.read e (slot_address r r.consumer_index) out in
    elim (Bool-cases (succeeded result)) [
      | inl ok ↦ rw ok (consumed-IsValid r (record s { dma_engine = some e' }) out' v h)
      | inr bad ↦ rw bad v
    ]

-- `push_descriptor` keeps the invariant on every branch: size mismatch, full ring, missing or
-- failing DMA, and both kinds of storage.
pub push_descriptor-IsValid :
    (r : DescriptorRing) (s : Shared) (d : List ℕ) → IsValid r → IsValid (push_descriptor r s d).1
unfolding push_descriptor push_stored is_full
push_descriptor-IsValid r s d v = ground (
  arith,
  push_host-IsValid r s s.dma_engine d v,
  produced-IsValid (record r { storage = splice r.storage (slot_offset r r.producer_index) d }) s d
      (splice-IsValid r (slot_offset r r.producer_index) d v),
)

-- `pop_descriptor` keeps the invariant on every branch.
pub pop_descriptor-IsValid :
    (r : DescriptorRing) (s : Shared) (out : List ℕ)
    → IsValid r
    → IsValid (pop_descriptor r s out).1
unfolding pop_descriptor pop_stored is_empty
pop_descriptor-IsValid r s out v = ground (
  arith,
  pop_host-IsValid r s s.dma_engine out v,
  consumed-IsValid r s
      (splice out 0 (slice r.storage (slot_offset r r.consumer_index) (length out))) v,
)

pub reset-IsValid : (r : DescriptorRing) → IsValid r → IsValid (reset r)
unfolding reset
reset-IsValid r v = ground arith

pub init-IsValid :
    (c : DescriptorRingConfig)
    → 0 < c.ring_size
    → c.ring_size < 2 ^ 32
    → c.descriptor_size * c.ring_size < 2 ^ 64
    → IsValid (init c)
unfolding init
init-IsValid c h k l = ground (arith, length-replicate {A = ℕ} (c.descriptor_size * c.ring_size) 0)
