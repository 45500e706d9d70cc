-- ===== src/Interrupt/Dispatcher/Flushes.antt =====
-- The flushes, the timer and the settings of src/interrupt_dispatcher.cpp.
pub mod Laws
use smart_nic.Base.{
  none, some, is_some, ℕ, Bool, List, add64, add32, leb, ◌==◌, ◌∷◌, [], ◌||◌, length, Option, true,
  if◌then◌else◌,
}
use smart_nic.Base.Assoc.{lookup, insert, erase}
use smart_nic.Interrupt.Msix
use smart_nic.Interrupt.Dispatcher.{
  InterruptDispatcher, CoalesceConfig, AdaptiveConfig, AdaptiveState, try_fire, fire_and_forget,
}

unfoldable pub flush_all : InterruptDispatcher → List (ℕ × ℕ) → InterruptDispatcher
unfolding fire_and_forget
flush_all d [] = d
flush_all d ((v, n) ∷ rest) = flush_all (fire_and_forget d v) rest

unfoldable pub flush : InterruptDispatcher → Option ℕ → InterruptDispatcher
unfolding fire_and_forget flush_all
flush d target =
    let d' : InterruptDispatcher = elim target [
      | none ↦ flush_all d d.pending_counts
      | some v ↦ fire_and_forget d v
    ] in
    record d' { stats = record (d'.stats) { manual_flushes = add64 (d'.stats.manual_flushes) 1 } }

-- `try_emplace` for each pending vector.
unfoldable pub track : List (ℕ × ℕ) → List (ℕ × ℕ) → List (ℕ × ℕ)
track times [] = times
track times ((v, n) ∷ rest) =
    track (if is_some (lookup v times) then times else insert v 0 times) rest

-- The loop over the times: the entries that stay, and the dispatcher after it.
unfoldable pub advance : List (ℕ × ℕ) → InterruptDispatcher → ℕ → List (ℕ × ℕ) × InterruptDispatcher
unfolding try_fire
advance [] d elapsed = ([], d)
advance ((v, t) ∷ rest) d elapsed =
    let time = add32 t elapsed in
    let fired = try_fire d v in
    let flushed = record fired {
      stats = record (fired.stats) { timer_flushes = add64 (fired.stats.timer_flushes) 1 };
    } in
    let (kept, d1) = advance rest d elapsed in
    if leb d.coalesce.timer_threshold_us time
    then advance rest flushed elapsed
    else ((v, time) ∷ kept, d1)

unfoldable pub on_timer_tick : InterruptDispatcher → ℕ → InterruptDispatcher
unfolding track advance
on_timer_tick d elapsed =
    if d.coalesce.timer_threshold_us == 0 || (length d.pending_counts == 0)
    then d
    else let (kept, d') = advance (track d.pending_time_us d.pending_counts) d elapsed in
      record d' { pending_time_us = kept }

unfoldable pub set_queue_vector : InterruptDispatcher → ℕ → ℕ → Bool × InterruptDispatcher
set_queue_vector d queue_id v =
    let (ok, m) = Msix.set_queue_vector d.mapping queue_id v in (ok, record d { mapping = m })

unfoldable pub mask_vector : InterruptDispatcher → ℕ → Bool → Bool × InterruptDispatcher
mask_vector d v masked = let (ok, t) = Msix.mask d.table v masked in (ok, record d { table = t })

unfoldable pub enable_vector : InterruptDispatcher → ℕ → Bool → Bool × InterruptDispatcher
enable_vector d v enabled =
    let (ok, t) = Msix.enable d.table v enabled in (ok, record d { table = t })

unfoldable pub set_queue_coalesce_config :
    InterruptDispatcher → ℕ → CoalesceConfig → Bool × InterruptDispatcher
set_queue_coalesce_config d queue_id c =
    (true, record d { per_queue_coalesce = insert queue_id c d.per_queue_coalesce })

unfoldable pub queue_coalesce_config : InterruptDispatcher → ℕ → Option CoalesceConfig
queue_coalesce_config d queue_id = lookup queue_id d.per_queue_coalesce

unfoldable pub clear_queue_coalesce_config : InterruptDispatcher → ℕ → InterruptDispatcher
clear_queue_coalesce_config d queue_id = record d {
  per_queue_coalesce = erase queue_id d.per_queue_coalesce;
}

unfoldable pub reset_states : ℕ → List (ℕ × AdaptiveState) → List (ℕ × AdaptiveState)
reset_states threshold [] = []
reset_states threshold ((v, s) ∷ rest) =
    (v, record { interrupt_count = 0; total_batch_size = 0; current_threshold = threshold })
    ∷ reset_states threshold rest

unfoldable pub set_adaptive_config : InterruptDispatcher → AdaptiveConfig → InterruptDispatcher
unfolding reset_states
set_adaptive_config d c = record d {
  adaptive = c;
  adaptive_state =
      if c.enabled
      then reset_states d.coalesce.packet_threshold d.adaptive_state
      else d.adaptive_state;
}
