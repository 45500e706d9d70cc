-- ===== src/Queue/Pair/Transmit.antt =====
-- `process_segments`, `process_once` and `reset` of src/queue_pair.cpp. A ring may refer to the DMA engine that the
-- pair has, and leaves it changed.
use smart_nic.Base.{
  true, false, none, some, [], ◌∷◌, ℕ, List, Bool, ◌/◌, ◌%◌, ◌&&◌, not, if◌then◌else◌, ltb, ◌==◌,
  length, replicate, add64, Option,
}
use smart_nic.Memory.Dma as Dma
use smart_nic.Memory.Dma.{DmaResult, succeeded}
use smart_nic.Memory.CompletionQueue as Completions
use smart_nic.Memory.DescriptorRing as Ring
use smart_nic.Memory.DescriptorRing.{pop_descriptor, Shared}
use smart_nic.Queue.Checksum.{compute_checksum}
use smart_nic.Queue.Descriptor.{
  Layout, TxDescriptor, RxDescriptor, success, no_descriptor, fault, checksum_error,
}
use smart_nic.Queue.Pair.{
  QueuePair, drop_tx, validate_mtu, build_segments, make_tx_completion, post_tx, fire_tx_interrupt,
  no_stats,
}
use smart_nic.Queue.Pair.Receive.{Batch, handle_rx_segment, wants_checksum}

-- `tx_ring_->pop_descriptor` into a buffer of zeros, with what the ring's pointers lead to.
unfoldable pub pop_tx : QueuePair → DmaResult × QueuePair × List ℕ
unfolding pop_descriptor
pop_tx q =
    let shared : Shared = record { dma_engine = some q.dma_engine; doorbell = q.tx_doorbell } in
    let (result, ring, shared', bytes) =
      pop_descriptor q.tx_ring shared (replicate (q.tx_ring.config.descriptor_size) 0) in
    (
      result,
      record q {
        tx_ring = ring;
        dma_engine = elim shared'.dma_engine [ some e ↦ e | none ↦ q.dma_engine ];
        tx_doorbell = shared'.doorbell;
      },
      bytes,
    )

unfoldable pub pop_rx : QueuePair → DmaResult × QueuePair × List ℕ
unfolding pop_descriptor
pop_rx q =
    let shared : Shared = record { dma_engine = some q.dma_engine; doorbell = q.rx_doorbell } in
    let (result, ring, shared', bytes) =
      pop_descriptor q.rx_ring shared (replicate (q.rx_ring.config.descriptor_size) 0) in
    (
      result,
      record q {
        rx_ring = ring;
        dma_engine = elim shared'.dma_engine [ some e ↦ e | none ↦ q.dma_engine ];
        rx_doorbell = shared'.doorbell;
      },
      bytes,
    )

unfoldable pub decode_tx_descriptor : Layout → List ℕ → Option TxDescriptor
decode_tx_descriptor l bytes = if ltb (length bytes) l.tx_size then none else some (l.to_tx bytes)

unfoldable pub decode_rx_descriptor : Layout → List ℕ → Option RxDescriptor
decode_rx_descriptor l bytes = if ltb (length bytes) l.rx_size then none else some (l.to_rx bytes)

unfoldable pub finalize_tx_success : QueuePair → Batch → ℕ → QueuePair
unfolding make_tx_completion post_tx fire_tx_interrupt
finalize_tx_success q b packet_bytes =
    let n = b.total_segments in
    let entry = make_tx_completion q b.tx success n b.performed_tso b.performed_gso in
    let fired = fire_tx_interrupt (post_tx q entry) in
    let s = fired.stats in
    record fired {
      stats = record s {
        tx_packets = add64 s.tx_packets n;
        tx_bytes = add64 s.tx_bytes packet_bytes;
        tx_tso_segments = if b.performed_tso then add64 s.tx_tso_segments n else s.tx_tso_segments;
        tx_gso_segments = if b.performed_gso then add64 s.tx_gso_segments n else s.tx_gso_segments;
        tx_vlan_insertions =
            if b.tx.vlan_insert then add64 s.tx_vlan_insertions n else s.tx_vlan_insertions;
      };
    }

unfoldable pub insert_vlan : TxDescriptor → List ℕ → List ℕ
insert_vlan tx segment =
    if tx.vlan_insert
    then 0x81 ∷ 0x00 ∷ tx.vlan_tag / 256 % 256 ∷ tx.vlan_tag % 256 ∷ segment
    else segment

-- How the loop over the segments ends: all of them are delivered, or a receive descriptor cannot be had (the method
-- returns false), or a segment is refused (it returns true).
pub data Delivery : Type 0 where
  all_delivered no_receiver refused : Delivery

-- The body of the loop.
unfoldable pub deliver_one : Layout → QueuePair → Batch → List ℕ → Delivery × QueuePair
unfolding pop_rx decode_rx_descriptor insert_vlan handle_rx_segment succeeded
deliver_one l q b base_segment =
    let (result, q', bytes) = pop_rx q in
    let decoded : Delivery × QueuePair = elim (decode_rx_descriptor l bytes) [
      | none ↦ (no_receiver, q')
      | some rx ↦
          let rx' = if b.tx.vlan_insert then record rx { vlan_present = true } else rx in
          let (done, q'') = handle_rx_segment q' b rx' (insert_vlan b.tx base_segment) in
          ((if done then all_delivered else refused), q'')
    ] in
    if not (succeeded result) then (no_receiver, q') else decoded

unfoldable pub deliver_segments : Layout → QueuePair → Batch → List (List ℕ) → Delivery × QueuePair
unfolding deliver_one
deliver_segments l q b [] = (all_delivered, q)
deliver_segments l q b (segment ∷ segments) =
    let (outcome, q') = deliver_one l q b segment in
    let later = deliver_segments l q' b segments in
    elim outcome [
      | all_delivered ↦ later
      | no_receiver ↦ (no_receiver, q')
      | refused ↦ (refused, q')
    ]

unfoldable pub finish : QueuePair → Batch → ℕ → Delivery → Bool × QueuePair
unfolding finalize_tx_success
finish q b packet_bytes all_delivered = (true, finalize_tx_success q b packet_bytes)
finish q b packet_bytes no_receiver = (false, q)
finish q b packet_bytes refused = (true, q)

unfoldable pub drop_no_receivers : QueuePair → Batch → QueuePair
unfolding make_tx_completion post_tx fire_tx_interrupt
drop_no_receivers q b =
    let entry = make_tx_completion q b.tx no_descriptor 0 b.performed_tso b.performed_gso in
    let fired = fire_tx_interrupt (post_tx q entry) in
    record fired {
      stats = record (fired.stats) { drops_no_rx_desc = add64 (fired.stats.drops_no_rx_desc) 1 };
    }

-- After `build_segments`.
unfoldable pub send_segments :
    Layout → QueuePair → TxDescriptor → ℕ → List (List ℕ) → Bool × QueuePair
unfolding drop_no_receivers deliver_segments finish
send_segments l q tx packet_bytes segments =
    let n = length segments in
    let b : Batch = record {
      tx = tx;
      total_segments = n;
      performed_tso = tx.tso_enabled && ltb 1 n;
      performed_gso = tx.gso_enabled && ltb 1 n;
    } in
    let (outcome, q') = deliver_segments l q b segments in
    if ltb (Ring.available q.rx_ring) n
    then (true, drop_no_receivers q b)
    else finish q' b packet_bytes outcome

unfoldable pub process_segments : Layout → QueuePair → TxDescriptor → List ℕ → Bool × QueuePair
unfolding validate_mtu build_segments send_segments
process_segments l q tx packet =
    let (fits, q') = validate_mtu q tx packet in
    let (segments, q'') = build_segments q' tx packet in
    let built : Bool × QueuePair = elim segments [
      | none ↦ (true, q'')
      | some all ↦ send_segments l q'' tx (length packet) all
    ] in
    if not fits then (true, q') else built

unfoldable pub checksum_fails : TxDescriptor → List ℕ → Bool
unfolding wants_checksum compute_checksum
checksum_fails tx packet =
    not tx.checksum_offload
    && (wants_checksum tx.checksum && not (compute_checksum packet == tx.checksum_value))

unfoldable pub drop_tx_checksum : QueuePair → TxDescriptor → QueuePair
unfolding drop_tx
drop_tx_checksum q tx =
    let dropped = drop_tx q tx checksum_error in
    record dropped {
      stats = record (dropped.stats) { drops_checksum = add64 (dropped.stats.drops_checksum) 1 };
    }

-- The packet is read and checked, and goes on to its segments.
unfoldable pub transmit : Layout → QueuePair → TxDescriptor → Bool × QueuePair
unfolding drop_tx checksum_fails drop_tx_checksum process_segments succeeded
transmit l q tx =
    let (result, dma, packet) =
      Dma.read q.dma_engine tx.buffer_address (replicate tx.byte_length 0) in
    let q' = record q { dma_engine = dma } in
    if not (succeeded result)
    then (true, drop_tx q' tx fault)
    else if checksum_fails tx packet
    then (true, drop_tx_checksum q' tx)
    else process_segments l q' tx packet

unfoldable pub drop_no_rx : QueuePair → TxDescriptor → QueuePair
unfolding drop_tx
drop_no_rx q tx =
    let dropped = drop_tx q tx no_descriptor in
    record dropped {
      stats = record (dropped.stats) {
        drops_no_rx_desc = add64 (dropped.stats.drops_no_rx_desc) 1;
      };
    }

unfoldable pub process_once : Layout → QueuePair → Bool × QueuePair
unfolding pop_tx decode_tx_descriptor drop_no_rx transmit succeeded
process_once l q =
    let (result, q', bytes) = pop_tx q in
    let decoded : Bool × QueuePair = elim (decode_tx_descriptor l bytes) [
      | none ↦ (false, q')
      | some tx ↦ if Ring.is_empty q'.rx_ring then (true, drop_no_rx q' tx) else transmit l q' tx
    ] in
    if Ring.is_empty q.tx_ring
    then (false, q)
    else if not (succeeded result)
    then (false, q')
    else decoded

unfoldable pub reset : QueuePair → QueuePair
unfolding Ring.reset Completions.reset
reset q = record q {
  tx_ring = Ring.reset q.tx_ring;
  rx_ring = Ring.reset q.rx_ring;
  tx_completion = Completions.reset q.tx_completion;
  rx_completion = Completions.reset q.rx_completion;
  stats = no_stats;
}
