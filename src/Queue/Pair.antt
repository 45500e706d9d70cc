-- ===== src/Queue/Pair.antt =====
-- `QueuePair` of include/nic/queue_pair.h and src/queue_pair.cpp: the pair's state, its completions and its
-- segments. The DMA engine, the four doorbells and the interrupt dispatcher are pointers: each is a field. No two of
-- the doorbells are the same object.
use smart_nic.Base.{
  true, false, none, some, [], ◌∷◌, ℕ, List, Bool, Option, zero, suc, min, ◌+◌, ◌-◌, ◌&&◌, ◌||◌,
  ◌++◌, not, if◌then◌else◌, ltb, leb, length, slice, add64,
}
use smart_nic.Memory.Dma.{DmaEngine}
use smart_nic.Memory.Doorbell.{Doorbell}
use smart_nic.Memory.DescriptorRing.{DescriptorRing}
use smart_nic.Memory.CompletionQueue.{CompletionQueue, CompletionEntry, blank, post_completion}
use smart_nic.Interrupt.Dispatcher.{InterruptDispatcher, on_completion}
use smart_nic.Queue.Descriptor.{
  TxDescriptor, CompletionCode, code_value, success, mtu_exceeded, invalid_mss, too_many_segments,
}
pub mod Receive
pub mod Transmit
pub mod Segments

pub record QueuePairConfig : Type 0 where
  pub queue_id : ℕ
  pub max_mtu : ℕ
  pub enable_tx_interrupts : Bool
  pub enable_rx_interrupts : Bool

pub record QueuePairStats : Type 0 where
  pub tx_packets : ℕ
  pub rx_packets : ℕ
  pub tx_bytes : ℕ
  pub rx_bytes : ℕ
  pub drops_checksum : ℕ
  pub drops_no_rx_desc : ℕ
  pub drops_buffer_small : ℕ
  pub drops_mtu_exceeded : ℕ
  pub drops_invalid_mss : ℕ
  pub drops_too_many_segments : ℕ
  pub tx_tso_segments : ℕ
  pub tx_gso_segments : ℕ
  pub tx_vlan_insertions : ℕ
  pub rx_vlan_strips : ℕ
  pub rx_checksum_verified : ℕ
  pub rx_gro_aggregated : ℕ

pub record QueuePair : Type 0 where
  pub config : QueuePairConfig
  pub dma_engine : DmaEngine
  pub tx_ring : DescriptorRing
  pub rx_ring : DescriptorRing
  pub tx_completion : CompletionQueue
  pub rx_completion : CompletionQueue
  pub stats : QueuePairStats
  pub tx_doorbell : Option Doorbell
  pub rx_doorbell : Option Doorbell
  pub tx_completion_doorbell : Option Doorbell
  pub rx_completion_doorbell : Option Doorbell
  pub interrupt_dispatcher : Option InterruptDispatcher

abbrev pub no_stats : QueuePairStats
no_stats = record {
  tx_packets = 0;
  rx_packets = 0;
  tx_bytes = 0;
  rx_bytes = 0;
  drops_checksum = 0;
  drops_no_rx_desc = 0;
  drops_buffer_small = 0;
  drops_mtu_exceeded = 0;
  drops_invalid_mss = 0;
  drops_too_many_segments = 0;
  tx_tso_segments = 0;
  tx_gso_segments = 0;
  tx_vlan_insertions = 0;
  rx_vlan_strips = 0;
  rx_checksum_verified = 0;
  rx_gro_aggregated = 0;
}

unfoldable pub make_completion : QueuePair → ℕ → CompletionCode → CompletionEntry
unfolding code_value
make_completion q descriptor_index status = record blank {
  queue_id = q.config.queue_id;
  descriptor_index = descriptor_index;
  status = code_value status;
}

-- The minimum is taken with 2^16 - 1.
unfoldable pub make_tx_completion :
    QueuePair → TxDescriptor → CompletionCode → ℕ → Bool → Bool → CompletionEntry
unfolding make_completion
make_tx_completion q tx status segments_count performed_tso performed_gso =
    let entry = record (make_completion q tx.descriptor_index status) {
      checksum_offloaded = tx.checksum_offload;
      tso_performed = performed_tso;
      gso_performed = performed_gso;
      segments_produced = min segments_count 65535;
    } in
    if tx.vlan_insert then record entry { vlan_inserted = true; vlan_tag = tx.vlan_tag } else entry

-- `interrupt_dispatcher->on_completion`, when interrupts are on and there is a dispatcher.
unfoldable pub interrupt : QueuePair → Bool → QueuePair
unfolding on_completion
interrupt q enabled = elim q.interrupt_dispatcher [
  | none ↦ q
  | some d ↦
      let (_, d') = on_completion d q.config.queue_id in
      if enabled then record q { interrupt_dispatcher = some d' } else q
]

unfoldable pub fire_tx_interrupt : QueuePair → QueuePair
unfolding interrupt
fire_tx_interrupt q = interrupt q q.config.enable_tx_interrupts

unfoldable pub fire_rx_interrupt : QueuePair → QueuePair
unfolding interrupt
fire_rx_interrupt q = interrupt q q.config.enable_rx_interrupts

unfoldable pub post_tx : QueuePair → CompletionEntry → QueuePair
unfolding post_completion
post_tx q entry =
    let (_, queue, bell) = post_completion q.tx_completion q.tx_completion_doorbell entry in
    record q { tx_completion = queue; tx_completion_doorbell = bell }

unfoldable pub post_rx : QueuePair → CompletionEntry → QueuePair
unfolding post_completion
post_rx q entry =
    let (_, queue, bell) = post_completion q.rx_completion q.rx_completion_doorbell entry in
    record q { rx_completion = queue; rx_completion_doorbell = bell }

-- A completion of the descriptor with the code `status` and no segments, and its interrupt.
unfoldable pub drop_tx : QueuePair → TxDescriptor → CompletionCode → QueuePair
unfolding make_tx_completion post_tx fire_tx_interrupt
drop_tx q tx status = fire_tx_interrupt (post_tx q (make_tx_completion q tx status 0 false false))

unfoldable pub validate_mtu : QueuePair → TxDescriptor → List ℕ → Bool × QueuePair
unfolding drop_tx
validate_mtu q tx packet =
    let dropped = drop_tx q tx mtu_exceeded in
    if ltb q.config.max_mtu (length packet)
    then (
      false,
      record dropped {
        stats = record (dropped.stats) {
          drops_mtu_exceeded = add64 (dropped.stats.drops_mtu_exceeded) 1;
        };
      },
    )
    else (true, q)

unfoldable pub segmentation_enabled : TxDescriptor → List ℕ → Bool
segmentation_enabled tx packet =
    (tx.tso_enabled || tx.gso_enabled) && (ltb 0 tx.mss && ltb tx.mss (length packet))

-- The loop of `build_segments` from `payload_offset` on. Each round takes a byte at least, so the rounds are at most
-- as many as the bytes.
unfoldable pub segment_payload : ℕ → TxDescriptor → List ℕ → List ℕ → ℕ → List (List ℕ)
segment_payload zero tx header packet payload_offset = []
segment_payload (suc rounds) tx header packet payload_offset =
    let chunk = min tx.mss (length packet - payload_offset) in
    let later = segment_payload rounds tx header packet (payload_offset + chunk) in
    if ltb payload_offset (length packet)
    then (header ++ slice packet payload_offset chunk) ∷ later
    else []

-- The segments, before they are counted; the degenerate case has a header that is the packet.
unfoldable pub split_packet : TxDescriptor → List ℕ → List (List ℕ)
unfolding segment_payload
split_packet tx packet =
    let header_len = min tx.header_length (length packet) in
    if leb (length packet) header_len
    then packet ∷ []
    else segment_payload (length packet) tx (slice packet 0 header_len) packet header_len

unfoldable pub drop_invalid_mss : QueuePair → TxDescriptor → QueuePair
unfolding drop_tx
drop_invalid_mss q tx =
    let dropped = drop_tx q tx invalid_mss in
    record dropped {
      stats = record (dropped.stats) {
        drops_invalid_mss = add64 (dropped.stats.drops_invalid_mss) 1;
      };
    }

unfoldable pub build_segments :
    QueuePair → TxDescriptor → List ℕ → Option (List (List ℕ)) × QueuePair
unfolding segmentation_enabled drop_invalid_mss split_packet drop_tx
build_segments q tx packet =
    let segments = split_packet tx packet in
    let dropped = drop_tx q tx too_many_segments in
    if not (segmentation_enabled tx packet)
    then (some (packet ∷ []), q)
    else if ltb tx.mss 1 || ltb 9000 tx.mss
    then (none, drop_invalid_mss q tx)
    else if ltb (length packet) tx.header_length
    then (none, drop_invalid_mss q tx)
    else if ltb 64 (length segments)
    then (
      none,
      record dropped {
        stats = record (dropped.stats) {
          drops_too_many_segments = add64 (dropped.stats.drops_too_many_segments) 1;
        };
      },
    )
    else (some segments, q)
