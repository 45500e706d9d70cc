-- ===== src/Memory/DescriptorRing.antt =====
-- include/nic/descriptor_ring.h and src/descriptor_ring.cpp. The DMA engine and the doorbell are
-- shared with other parts of the device, so a call takes them and gives them back.
pub mod Inv
pub mod Refine
use Prim.Native.String.{String}
use smart_nic.Base.{
  ℕ, ◌+◌, ◌-◌, ◌*◌, ◌%◌, ◌^◌, Bool, true, false, not, Option, none, some, List, if◌then◌else◌, ◌==◌,
  length, slice, splice, replicate, add32, add64, sub64,
}
use smart_nic.Memory.Dma
use smart_nic.Memory.Dma.{
  DmaEngine, DmaResult, done, failed, succeeded, access_error, internal_error,
}
use smart_nic.Memory.Doorbell.{Doorbell, DoorbellPayload, notify}

pub record DescriptorRingConfig : Type 0 where
  pub descriptor_size : ℕ
  pub ring_size : ℕ
  pub base_address : ℕ
  pub queue_id : ℕ
  pub host_backed : Bool

pub record DescriptorRing : Type 0 where
  pub config : DescriptorRingConfig
  pub open config use *
  pub storage : List ℕ
  pub producer_index : ℕ
  pub consumer_index : ℕ
  pub count : ℕ

-- What the ring's two pointers lead to.
pub record Shared : Type 0 where
  pub dma_engine : Option DmaEngine
  pub doorbell : Option Doorbell

unfoldable pub init : DescriptorRingConfig → DescriptorRing
init c = record {
  config = c;
  storage = if c.host_backed then List.[] else replicate (c.descriptor_size * c.ring_size) 0;
  producer_index = 0;
  consumer_index = 0;
  count = 0;
}

unfoldable pub is_full : DescriptorRing → Bool
is_full r = r.count == r.ring_size

unfoldable pub is_empty : DescriptorRing → Bool
is_empty r = r.count == 0

unfoldable pub available : DescriptorRing → ℕ
available r = r.count

unfoldable pub space : DescriptorRing → ℕ
space r = sub64 r.ring_size r.count

pub slot_address : DescriptorRing → ℕ → ℕ
slot_address r slot = add64 r.base_address (slot * r.descriptor_size % 2 ^ 64)

-- `slot_span` and `const_slot_span`: where the slot starts in the storage.
pub slot_offset : DescriptorRing → ℕ → ℕ
slot_offset r slot = slot * r.descriptor_size % 2 ^ 64

next_index : DescriptorRing → ℕ → ℕ
next_index r i = add32 i 1 % r.ring_size % 2 ^ 32

-- The common end of a push that has stored its descriptor.
produced : DescriptorRing → Shared → List ℕ → DmaResult × DescriptorRing × Shared
unfolding next_index
produced r s descriptor =
    let r' = record r { producer_index = next_index r r.producer_index; count = add32 r.count 1 } in
    let payload : DoorbellPayload = record { queue_id = r.queue_id; value = r'.producer_index } in
    (done (length descriptor), r', record s { doorbell = notify s.doorbell payload })

consumed : DescriptorRing → Shared → List ℕ → DmaResult × DescriptorRing × Shared × List ℕ
unfolding next_index
consumed r s out = (
  done (length out),
  record r { consumer_index = next_index r r.consumer_index; count = r.count - 1 },
  s,
  out,
)

push_host :
    DescriptorRing → Shared → Option DmaEngine → List ℕ → DmaResult × DescriptorRing × Shared
unfolding produced slot_address
push_host r s none descriptor = (failed internal_error (some "no_dma"), r, s)
push_host r s (some e) descriptor =
    let (result, e') = Dma.write e (slot_address r r.producer_index) descriptor in
    let s' : Shared = record s { dma_engine = some e' } in
    if succeeded result then produced r s' descriptor else (result, r, s')

pop_host :
    DescriptorRing
    → Shared
    → Option DmaEngine
    → List ℕ
    → DmaResult × DescriptorRing × Shared × List ℕ
unfolding consumed slot_address
pop_host r s none out = (failed internal_error (some "no_dma"), r, s, out)
pop_host r s (some e) out =
    let (result, e', out') = Dma.read e (slot_address r r.consumer_index) out in
    let s' : Shared = record s { dma_engine = some e' } in
    if succeeded result then consumed r s' out' else (result, r, s', out')

push_stored : DescriptorRing → Shared → List ℕ → DmaResult × DescriptorRing × Shared
unfolding produced slot_offset
push_stored r s descriptor =
    produced (record r { storage = splice r.storage (slot_offset r r.producer_index) descriptor }) s
      descriptor

unfoldable pub push_descriptor :
    DescriptorRing → Shared → List ℕ → DmaResult × DescriptorRing × Shared
unfolding push_host push_stored is_full
push_descriptor r s descriptor =
    if not (length descriptor == r.descriptor_size)
    then (failed access_error (some "size_mismatch"), r, s)
    else if is_full r
    then (failed access_error (some "ring_full"), r, s)
    else if r.host_backed
    then push_host r s s.dma_engine descriptor
    else push_stored r s descriptor

pop_stored : DescriptorRing → Shared → List ℕ → DmaResult × DescriptorRing × Shared × List ℕ
unfolding consumed slot_offset
pop_stored r s out =
    consumed r s (splice out 0 (slice r.storage (slot_offset r r.consumer_index) (length out)))

-- `out` is the caller's span.
unfoldable pub pop_descriptor :
    DescriptorRing → Shared → List ℕ → DmaResult × DescriptorRing × Shared × List ℕ
unfolding pop_host pop_stored is_empty
pop_descriptor r s out =
    if not (length out == r.descriptor_size)
    then (failed access_error (some "size_mismatch"), r, s, out)
    else if is_empty r
    then (failed access_error (some "ring_empty"), r, s, out)
    else if r.host_backed
    then pop_host r s s.dma_engine out
    else pop_stored r s out

unfoldable pub reset : DescriptorRing → DescriptorRing
reset r = record r { producer_index = 0; consumer_index = 0; count = 0 }
