-- ===== src/Tests/Queue.antt =====
-- A queue pair over a host memory of 12 bytes, with room for four descriptors. A descriptor is two bytes here, the
-- address and the length of its buffer.
use smart_nic.Base.{
  true, false, none, [], ◌∷◌, ℕ, List, ◌≡◌, refl, replicate, get_or, arith, slice, splice, ◌-◌, ◌/◌,
  ◌%◌,
}
use smart_nic.Memory.Host.{SimpleHostMemory}
use smart_nic.Memory.Dma.{DmaEngine}
use smart_nic.Memory.DescriptorRing.{DescriptorRing}
use smart_nic.Memory.Dma as Dma
use smart_nic.Memory.Host as Host
use smart_nic.Memory.DescriptorRing as Ring
use smart_nic.Memory.CompletionQueue as Completions
use smart_nic.Queue.Descriptor.{Layout, TxDescriptor, no_checksum, layer4}
use smart_nic.Queue.Pair.{QueuePair, no_stats, build_segments}
use smart_nic.Queue.Pair.Transmit.{process_once}
use smart_nic.Queue.Pair.Segments.{IsSplit, build_segments-IsSplit}
use smart_nic.Queue.Checksum.{compute_checksum}
use smart_nic.Queue.Checksum.Reference.{
  total, fold_carries, compute_checksum-total, append-checksum_zero,
}

abbrev header_and_payload : TxDescriptor
header_and_payload = record {
  buffer_address = 0;
  byte_length = 5;
  checksum = no_checksum;
  descriptor_index = 0;
  checksum_value = 0;
  checksum_offload = false;
  tso_enabled = true;
  gso_enabled = false;
  mss = 2;
  header_length = 1;
  vlan_insert = false;
  vlan_tag = 0;
}

abbrev layout : Layout
layout = record {
  tx_size = 2;
  rx_size = 2;
  to_tx = λ bytes. record header_and_payload {
    buffer_address = get_or bytes 0 0;
    byte_length = get_or bytes 1 0;
  };
  to_rx = λ bytes. record {
    buffer_address = get_or bytes 0 0;
    buffer_length = get_or bytes 1 0;
    checksum = layer4;
    descriptor_index = 1;
    checksum_offload = false;
    vlan_strip = false;
    vlan_present = false;
    vlan_tag = 0;
    gro_enabled = false;
  };
}

abbrev ring_of : List ℕ → ℕ → DescriptorRing
ring_of storage count = record {
  config = record {
    descriptor_size = 2;
    ring_size = 4;
    base_address = 0;
    queue_id = 0;
    host_backed = false;
  };
  storage = storage;
  producer_index = count;
  consumer_index = 0;
  count = count;
}

abbrev memory : SimpleHostMemory
memory = record {
  config = record { size_bytes = 12; page_size = 4; iommu_enabled = false };
  translator = none;
  fault_injector = none;
  buffer = 9 ∷ 1 ∷ 2 ∷ 3 ∷ 4 ∷ replicate 7 0;
}

abbrev engine : DmaEngine
engine = record {
  memory = memory;
  counters = record {
    read_ops = 0;
    write_ops = 0;
    burst_read_ops = 0;
    burst_write_ops = 0;
    bytes_read = 0;
    bytes_written = 0;
    errors = 0;
  };
}

abbrev pair : QueuePair
pair = record {
  config = record {
    queue_id = 0;
    max_mtu = 9000;
    enable_tx_interrupts = false;
    enable_rx_interrupts = true;
  };
  dma_engine = engine;
  tx_ring = ring_of (0 ∷ 5 ∷ replicate 6 0) 1;
  rx_ring = ring_of (6 ∷ 3 ∷ 9 ∷ 3 ∷ replicate 4 0) 2;
  tx_completion = Completions.init 4 0;
  rx_completion = Completions.init 4 0;
  stats = no_stats;
  tx_doorbell = none;
  rx_doorbell = none;
  tx_completion_doorbell = none;
  rx_completion_doorbell = none;
  interrupt_dispatcher = none;
}

-- The two segments, each with the header, are in the two receive buffers.
process_once_delivers :
    ((process_once layout pair).1.dma_engine.memory.buffer
      ≡ 9 ∷ 1 ∷ 2 ∷ 3 ∷ 4 ∷ 0 ∷ 9 ∷ 1 ∷ 2 ∷ 9 ∷ 3 ∷ 4 ∷ [])
    × ((process_once layout pair).1.stats.rx_packets ≡ 2)
unfolding process_once Completions.init splice slice Dma.read Dma.write Host.read Host.write
    Ring.available
process_once_delivers = (refl, refl)

build_segments-IsSplit_example :
    IsSplit header_and_payload
      (9 ∷ 1 ∷ 2 ∷ 3 ∷ 4 ∷ [])
      (build_segments pair header_and_payload (9 ∷ 1 ∷ 2 ∷ 3 ∷ 4 ∷ [])).0
build_segments-IsSplit_example =
    build_segments-IsSplit pair header_and_payload (9 ∷ 1 ∷ 2 ∷ 3 ∷ 4 ∷ [])

compute_checksum-total_example :
    compute_checksum (255 ∷ 255 ∷ 1 ∷ []) ≡ 65535 - fold_carries (total (255 ∷ 255 ∷ 1 ∷ []))
compute_checksum-total_example =
    compute_checksum-total (255 ∷ 255 ∷ 1 ∷ [])
      (omega arith, (omega arith, (omega arith, record {})))

append-checksum_zero_example :
    let c = compute_checksum (69 ∷ 0 ∷ []) in compute_checksum (69 ∷ 0 ∷ c / 256 ∷ c % 256 ∷ []) ≡ 0
append-checksum_zero_example =
    append-checksum_zero (69 ∷ 0 ∷ []) (omega arith, (omega arith, record {})) refl
