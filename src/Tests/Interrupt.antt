-- ===== src/Tests/Interrupt.antt =====
-- A dispatcher with one vector for two queues.
use smart_nic.Base.{true, ◌∷◌, ◌≡◌, [], ◌+◌, if◌then◌else◌, arith, ◌&&◌}
use smart_nic.Interrupt.Msix
use smart_nic.Interrupt.Msix.{blank_vector, queue_vector}
use smart_nic.Interrupt.Dispatcher.{
  InterruptDispatcher, AdaptiveConfig, AdaptiveState, on_completion, count_at,
}
use smart_nic.Interrupt.Dispatcher.Batches.{accounted, on_completion-accounted}
use smart_nic.Base.Assoc.{lookup}

abbrev adaptive : AdaptiveConfig
adaptive = record {
  enabled = true;
  min_threshold = 1;
  max_threshold = 8;
  low_batch_size = 2;
  high_batch_size = 4;
  sample_interval = 2;
}

abbrev dispatcher : InterruptDispatcher
dispatcher = record {
  table = record { vectors = blank_vector ∷ [] };
  mapping = record { admin_vector = 0; default_vector = 0; queue_vectors = 0 ∷ 0 ∷ [] };
  coalesce = record { packet_threshold = 2; timer_threshold_us = 0 };
  adaptive = adaptive;
  stats = record {
    interrupts_fired = 0;
    coalesced_batches = 0;
    suppressed_masked = 0;
    suppressed_disabled = 0;
    manual_flushes = 0;
    timer_flushes = 0;
    per_vector_fired = [];
    per_vector_suppressed_masked = [];
    per_vector_suppressed_disabled = [];
  };
  pending_counts = (0, 1) ∷ [];
  pending_time_us = [];
  per_queue_coalesce = [];
  adaptive_state = [];
  delivered = [];
}

on_completion-accounted_example :
    ((on_completion dispatcher 1).0 ≡ true)
    × (accounted (on_completion dispatcher 1).1 0
        ≡ accounted dispatcher 0 + (if (on_completion dispatcher 1).0 && true then 1 else 0))
unfolding queue_vector count_at lookup Msix.vector Msix.valid_index
on_completion-accounted_example = on_completion-accounted dispatcher 1 0 (omega arith)

abbrev fresh : AdaptiveState
fresh = record { interrupt_count = 0; total_batch_size = 0; current_threshold = 3 }
