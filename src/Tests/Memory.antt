-- ===== src/Tests/Memory.antt =====
-- A ring of two slots that has wrapped, a completion queue, a host memory of 16 bytes and its
-- engine.
use smart_nic.Base.{
  ℕ, true, some, false, arith, ◌∷◌, none, ◌≡◌, ◌+◌, [], if◌then◌else◌, refl, replicate,
}
use smart_nic.Memory.Doorbell.{notify}
use smart_nic.Memory.Fifo
use smart_nic.Memory.Host
use smart_nic.Memory.Host.{SimpleHostMemory}
use smart_nic.Memory.Host.Laws.{Granted, translate_view-Granted, read-write}
use smart_nic.Memory.Dma.{DmaEngine, write_burst, succeeded}
use smart_nic.Memory.Dma.Counts.{WriteCounts, write_burst-Counts}
use smart_nic.Memory.DescriptorRing.{DescriptorRing, Shared, push_descriptor, pop_descriptor}
use smart_nic.Memory.DescriptorRing.Inv as Ring
use smart_nic.Memory.DescriptorRing.Inv.{push_descriptor-IsValid, pop_descriptor-IsValid}
use smart_nic.Memory.DescriptorRing.Refine.{contents, push_refines, pop_refines}
use smart_nic.Memory.CompletionQueue.{CompletionQueue, CompletionEntry, blank, post_completion}
use smart_nic.Memory.CompletionQueue.Refine as Completions
use smart_nic.Memory.CompletionQueue.Refine.{post_completion_refines, poll_completion_refines}

abbrev memory : SimpleHostMemory
memory = record {
  config = record { size_bytes = 16; page_size = 4; iommu_enabled = true };
  translator = some (λ address size. some (address + 8));
  fault_injector = none;
  buffer = replicate 16 0;
}

abbrev engine : DmaEngine
engine = record {
  memory = memory;
  counters = record {
    read_ops = 0;
    write_ops = 0;
    burst_read_ops = 0;
    burst_write_ops = 0;
    bytes_read = 0;
    bytes_written = 0;
    errors = 0;
  };
}

abbrev shared : Shared
shared = record { dma_engine = some engine; doorbell = none }

-- Slot 1 holds the one descriptor that waits.
abbrev ring : DescriptorRing
ring = record {
  config = record {
    descriptor_size = 2;
    ring_size = 2;
    base_address = 0;
    queue_id = 7;
    host_backed = false;
  };
  storage = 0 ∷ 0 ∷ 5 ∷ 6 ∷ [];
  producer_index = 0;
  consumer_index = 1;
  count = 1;
}

ring-IsValid : Ring.IsValid ring
ring-IsValid = record {
  small = omega arith;
  addressable = omega arith;
  nonempty = omega arith;
  producer_in = omega arith;
  consumer_in = omega arith;
  count_in = omega arith;
  apart = refl;
  storage_size = λ e. refl;
}

push_refines_example :
    let (res, r', s') = push_descriptor ring shared (1 ∷ 2 ∷ []) in
    (succeeded res, contents r') ≡ Fifo.offer 2 (contents ring) (1 ∷ 2 ∷ [])
push_refines_example = push_refines ring shared (1 ∷ 2 ∷ []) ring-IsValid refl refl

pop_refines_example :
    let (res, r', s', out') = pop_descriptor ring shared (0 ∷ 0 ∷ []) in
    (if succeeded res then some out' else none, contents r') ≡ Fifo.poll (contents ring)
pop_refines_example = pop_refines ring shared (0 ∷ 0 ∷ []) ring-IsValid refl refl

abbrev entry : ℕ → CompletionEntry
entry n = record blank { descriptor_index = n }

abbrev completions : CompletionQueue
completions = record {
  ring_size = 2;
  queue_id = 3;
  entries = blank ∷ entry 4 ∷ [];
  producer_index = 0;
  consumer_index = 1;
  count = 1;
}

completions-IsValid : Completions.IsValid completions
completions-IsValid = record {
  small = omega arith;
  nonempty = omega arith;
  room = refl;
  producer_in = omega arith;
  consumer_in = omega arith;
  count_in = omega arith;
  apart = refl;
}

post_completion_refines_example :
    let (ok, q', bell') = post_completion completions none (entry 9) in
    ((ok, Completions.contents q') ≡ Fifo.offer 2 (Completions.contents completions) (entry 9))
    × Completions.IsValid q'
    × (bell'
        ≡ (if ok then notify none (record { queue_id = 3; value = q'.producer_index }) else none))
post_completion_refines_example =
    post_completion_refines completions none (entry 9) completions-IsValid

translate_view-Granted_example : Granted memory 4 (Host.translate_view memory 6 4)
translate_view-Granted_example = translate_view-Granted memory 6 4

read-write_example :
    Host.read (Host.write memory 2 (7 ∷ 8 ∷ [])).1 2 (0 ∷ 0 ∷ [])
    ≡ (record { error = Host.ok_none; bytes_processed = 2 }, 7 ∷ 8 ∷ [])
unfolding Host.is_ok Host.write Host.write_view Host.result Host.translate_view Host.injects
    Host.mapped Host.map_bounds Host.in_buffer
read-write_example = read-write memory 2 (7 ∷ 8 ∷ []) (0 ∷ 0 ∷ []) refl refl

write_burst-Counts_example :
    let (r, e') = write_burst engine 0 (1 ∷ 2 ∷ 3 ∷ 4 ∷ []) 2 3 in WriteCounts engine 4 r e'
write_burst-Counts_example = write_burst-Counts engine 0 (1 ∷ 2 ∷ 3 ∷ 4 ∷ []) 2 3 (omega arith)
