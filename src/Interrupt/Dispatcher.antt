-- ===== src/Interrupt/Dispatcher.antt =====
-- include/nic/interrupt_dispatcher.h and src/interrupt_dispatcher.cpp. The calls of the deliver
-- callback, if there is one, are kept in a list, the latest first. A map that a loop walks is
-- walked in the order of its list of entries.
pub mod Batches
pub mod Adaptive
pub mod Flushes
use smart_nic.Base.{
  none, some, is_some, ℕ, Bool, List, add64, if◌then◌else◌, add32, leb, ltb, not, ◌==◌, ◌&&◌, ◌/◌,
  ◌∷◌, min, ◌%◌, max, ◌^◌, sub32, false, Option, ◌||◌, true, [], length,
}
use smart_nic.Base.Assoc.{lookup, insert, erase}
use smart_nic.Interrupt.Msix
use smart_nic.Interrupt.Msix.{MsixTable, MsixVector, MsixMapping}

pub record CoalesceConfig : Type 0 where
  pub packet_threshold : ℕ
  pub timer_threshold_us : ℕ

pub record AdaptiveConfig : Type 0 where
  pub enabled : Bool
  pub min_threshold : ℕ
  pub max_threshold : ℕ
  pub low_batch_size : ℕ
  pub high_batch_size : ℕ
  pub sample_interval : ℕ

pub record AdaptiveState : Type 0 where
  pub interrupt_count : ℕ
  pub total_batch_size : ℕ
  pub current_threshold : ℕ

pub record InterruptStats : Type 0 where
  pub interrupts_fired : ℕ
  pub coalesced_batches : ℕ
  pub suppressed_masked : ℕ
  pub suppressed_disabled : ℕ
  pub manual_flushes : ℕ
  pub timer_flushes : ℕ
  pub per_vector_fired : List (ℕ × ℕ)
  pub per_vector_suppressed_masked : List (ℕ × ℕ)
  pub per_vector_suppressed_disabled : List (ℕ × ℕ)

pub record InterruptDispatcher : Type 0 where
  pub table : MsixTable
  pub mapping : MsixMapping
  pub coalesce : CoalesceConfig
  pub adaptive : AdaptiveConfig
  pub stats : InterruptStats
  pub pending_counts : List (ℕ × ℕ)
  pub pending_time_us : List (ℕ × ℕ)
  pub per_queue_coalesce : List (ℕ × CoalesceConfig)
  pub adaptive_state : List (ℕ × AdaptiveState)
  pub delivered : List (ℕ × ℕ)

-- `m[k]` of a map of counters.
unfoldable pub count_at : List (ℕ × ℕ) → ℕ → ℕ
count_at m k = elim (lookup k m) [ none ↦ 0 | some n ↦ n ]

abbrev pub bump : List (ℕ × ℕ) → ℕ → List (ℕ × ℕ)
bump m k = insert k (add64 (count_at m k) 1) m

unfoldable pub suppress_disabled : InterruptDispatcher → ℕ → InterruptDispatcher
unfolding count_at
suppress_disabled d v = record d {
  stats = record (d.stats) {
    suppressed_disabled = add64 (d.stats.suppressed_disabled) 1;
    per_vector_suppressed_disabled = bump (d.stats.per_vector_suppressed_disabled) v;
  };
}

unfoldable pub suppress_masked : InterruptDispatcher → ℕ → InterruptDispatcher
unfolding count_at
suppress_masked d v = record d {
  stats = record (d.stats) {
    suppressed_masked = add64 (d.stats.suppressed_masked) 1;
    per_vector_suppressed_masked = bump (d.stats.per_vector_suppressed_masked) v;
  };
}

-- A state that is read by `[]` for the first time.
abbrev pub new_state : AdaptiveState
new_state = record { interrupt_count = 0; total_batch_size = 0; current_threshold = 1 }

unfoldable pub state_at : List (ℕ × AdaptiveState) → ℕ → AdaptiveState
state_at m k = elim (lookup k m) [ none ↦ new_state | some s ↦ s ]

-- The threshold at the end of a sample period.
unfoldable pub adjusted : AdaptiveConfig → ℕ → ℕ → ℕ
adjusted c avg_batch current =
    if leb c.high_batch_size avg_batch && ltb current c.max_threshold
    then min (add32 current 1) c.max_threshold
    else if leb avg_batch c.low_batch_size && ltb c.min_threshold current
    then max (sub32 current 1) c.min_threshold
    else current

unfoldable pub sampled : AdaptiveConfig → AdaptiveState → ℕ → AdaptiveState
unfolding adjusted
sampled c s batch_size =
    let count = add32 s.interrupt_count 1 in
    let total = add64 s.total_batch_size batch_size in
    if ltb count c.sample_interval
    then record s { interrupt_count = count; total_batch_size = total }
    else record {
      interrupt_count = 0;
      total_batch_size = 0;
      current_threshold = adjusted c (total / count % 2 ^ 32) s.current_threshold;
    }

unfoldable pub update_adaptive_threshold : InterruptDispatcher → ℕ → ℕ → InterruptDispatcher
unfolding state_at sampled
update_adaptive_threshold d v batch_size = if not d.adaptive.enabled then d else record d {
  adaptive_state =
      insert v (sampled d.adaptive (state_at d.adaptive_state v) batch_size) d.adaptive_state;
}

-- The end of `try_fire`, for a vector that may fire.
unfoldable pub fire : InterruptDispatcher → ℕ → InterruptDispatcher
unfolding update_adaptive_threshold count_at
fire d v =
    let pending = count_at d.pending_counts v in
    let batch = if pending == 0 then 1 else pending in
    let d1 = record d {
      pending_counts = erase v d.pending_counts;
      stats = record (d.stats) {
        coalesced_batches =
            if pending == 0 then d.stats.coalesced_batches else add64 (d.stats.coalesced_batches) 1;
      };
    } in
    let d2 = update_adaptive_threshold d1 v batch in
    record d2 {
      delivered = (v, batch) ∷ d2.delivered;
      stats = record (d2.stats) {
        interrupts_fired = add64 (d2.stats.interrupts_fired) 1;
        per_vector_fired = bump (d2.stats.per_vector_fired) v;
      };
    }

unfoldable pub try_fire : InterruptDispatcher → ℕ → InterruptDispatcher
unfolding suppress_disabled suppress_masked fire
try_fire d v = elim (Msix.vector d.table v) [
  | none ↦ d
  | some vec ↦
      if not vec.enabled
      then suppress_disabled d v
      else if vec.masked
      then suppress_masked d v
      else fire d v
]

unfoldable pub get_coalesce_config : InterruptDispatcher → ℕ → CoalesceConfig
get_coalesce_config d queue_id = elim (lookup queue_id d.per_queue_coalesce) [
  | none ↦ d.coalesce
  | some c ↦ c
]

-- The threshold that counts for a vector, and the adaptive states after it was asked for.
unfoldable pub threshold_of :
    InterruptDispatcher → ℕ → CoalesceConfig → ℕ × List (ℕ × AdaptiveState)
threshold_of d v c =
    if not d.adaptive.enabled
    then (c.packet_threshold, d.adaptive_state)
    else elim (lookup v d.adaptive_state) [
      | none ↦ (
        c.packet_threshold,
        insert v (record new_state { current_threshold = c.packet_threshold }) d.adaptive_state,
      )
      | some s ↦ (s.current_threshold, d.adaptive_state)
    ]

unfoldable pub fire_and_forget : InterruptDispatcher → ℕ → InterruptDispatcher
unfolding try_fire
fire_and_forget d v =
    let d' = try_fire d v in record d' { pending_time_us = erase v d'.pending_time_us }

-- The end of `on_completion`, for a vector that takes interrupts.
unfoldable pub count_completion : InterruptDispatcher → ℕ → ℕ → InterruptDispatcher
unfolding get_coalesce_config threshold_of fire_and_forget count_at
count_completion d queue_id v =
    let count = add32 (count_at d.pending_counts v) 1 in
    let (threshold, states) = threshold_of d v (get_coalesce_config d queue_id) in
    let d' = record d {
      pending_counts = insert v count d.pending_counts;
      pending_time_us = insert v 0 d.pending_time_us;
      adaptive_state = states;
    } in
    if leb threshold count then fire_and_forget d' v else d'

unfoldable pub on_completion : InterruptDispatcher → ℕ → Bool × InterruptDispatcher
unfolding suppress_disabled suppress_masked count_completion
on_completion d queue_id =
    let v = Msix.queue_vector d.mapping queue_id in
    elim (Msix.vector d.table v) [
      | none ↦ (false, d)
      | some vec ↦
          if not vec.enabled
          then (false, suppress_disabled d v)
          else if vec.masked
          then (false, suppress_masked d v)
          else (true, count_completion d queue_id v)
    ]
